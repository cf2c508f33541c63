-- ===== src/Server/PrefixTests.antt =====
-- A route with two prefixes: the URL that a request is sent under (src/middleware/add_prefix.rs).
use portiq.Base.{◌≡◌, refl, [], ◌∷◌, some, text}
use portiq.Config.{GatewayConfig, MiddlewareConfig, RouteConfig, add_prefix}
use portiq.LoadBalancer
use portiq.Service
use portiq.Router
use portiq.Router.{Router, http_route}
use portiq.Runtime
use portiq.Runtime.{GatewayRuntime}
use portiq.Server.Prefixed.{Plain, Prefixed, prefixes}
use portiq.Samples.{any_host_route, sample_config, sample_router}

abbrev first_prefix : MiddlewareConfig
first_prefix = add_prefix (record { prefix = text "/users" })

abbrev second_prefix : MiddlewareConfig
second_prefix = add_prefix (record { prefix = text "/internal" })

abbrev prefixed_route : RouteConfig
prefixed_route = record any_host_route { middlewares = some (text "users" ∷ text "internal" ∷ []) }

abbrev prefixed_config : GatewayConfig
prefixed_config = record sample_config {
  http = record sample_config.http {
    middlewares = (text "users", first_prefix) ∷ (text "internal", second_prefix) ∷ [];
    routes = prefixed_route ∷ [];
  };
}

abbrev prefixed_router : Router
prefixed_router = record sample_router { http = http_route prefixed_route ∷ [] }

abbrev prefixed_runtime : GatewayRuntime
prefixed_runtime = record { router = prefixed_router; applied_config = prefixed_config }

-- The second prefix comes first.
two_prefixes : prefixes (first_prefix ∷ second_prefix ∷ []) ≡ text "/internal/users"
unfolding prefixes
two_prefixes = refl
