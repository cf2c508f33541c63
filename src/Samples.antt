-- ===== src/Samples.antt =====
-- A configuration like that of README.md, and what is built from it: inputs for the tests.
use portiq.Base.{
  arith, ◌≡◌, refl, true, List, [], ◌∷◌, none, some, text, ok, returned, ◌==◌, get, contains,
  strip_prefix, ends_with, starts_with, subst, sym, ◌∙◌, returned-injective,
}
use portiq.Config.{
  GatewayConfig, Listener, socket_addr, Upstream, RouteConfig, TlsConfig, v4, http, https,
  passthrough, rate_limit, ip_source, default_admin_api, default_log, default_access_log,
}
use portiq.Config.Validate.{
  validate, check_tls, check_listeners, check_services, check_routes, check_route,
  check_route_listeners, check_route_middlewares,
}
use portiq.Config.Valid.{IsValidConfig, validate_iff}
use portiq.LoadBalancer
use portiq.LoadBalancer.{WeightedRoundRobin, push_weights}
use portiq.Service.{ServiceRegistry, init_services, new_service}
use portiq.Service
use portiq.Router.{Router, http_route, get_http_route, matches}
use portiq.Router
use portiq.Runtime.{GatewayRuntime}
use portiq.Runtime
use portiq.Runtime.Consistent.{Fits, IsConsistent, new-IsConsistent}

abbrev pub first_upstream : Upstream
first_upstream = record { target = text "https://user.service1:4443"; weight = 2 }

abbrev pub second_upstream : Upstream
second_upstream = record { target = text "https://user.service2:5443"; weight = 1 }

abbrev pub two_upstreams : List Upstream
two_upstreams = first_upstream ∷ second_upstream ∷ []

abbrev pub http_main : Listener
http_main = record {
  name = text "http-main";
  addr = socket_addr (v4 0 0 0 0) 3000;
  protocol = http;
}

abbrev pub https_main : Listener
https_main = record {
  name = text "https-main";
  addr = socket_addr (v4 0 0 0 0) 3443;
  protocol = https;
}

abbrev pub certificate : TlsConfig
certificate = record {
  cert_file = text "cert.pem";
  key_file = text "key.pem";
  default = true;
  hostnames = some (text "api.example.com" ∷ []);
}

abbrev pub user_route : RouteConfig
user_route = record {
  hosts = some (text "api.example.com" ∷ text "*.api.example.com" ∷ []);
  path = some (text "/v1/*");
  listeners = text "http-main" ∷ [];
  service = text "user-service";
  middlewares = some (text "global-rate-limit" ∷ []);
}

abbrev pub any_host_route : RouteConfig
any_host_route = record {
  hosts = none;
  path = some (text "/v1/*");
  listeners = text "http-main" ∷ text "https-main" ∷ [];
  service = text "user-service";
  middlewares = none;
}

abbrev pub sample_config : GatewayConfig
sample_config = record {
  version = 1;
  admin_api = default_admin_api;
  log = default_log;
  access_log = default_access_log;
  tls = some (certificate ∷ []);
  listeners = http_main ∷ https_main ∷ [];
  http = record {
    middlewares =
        (
          text "global-rate-limit",
          rate_limit (record { source = ip_source none; limit = 2; period = 10000000000 }),
        )
        ∷ [];
    services = (text "user-service", record { upstreams = two_upstreams }) ∷ [];
    routes = user_route ∷ any_host_route ∷ [];
  };
  tcp = record {
    services = (text "postgres", record { upstreams = second_upstream ∷ [] }) ∷ [];
    routes =
        record {
          listeners = text "tcp-main" ∷ [];
          service = text "postgres";
          tls_mode = some passthrough;
        }
        ∷ [];
  };
}

pub sample_config-validate : validate sample_config ≡ ok tt
unfolding validate check_tls check_listeners contains ◌==◌ check_services check_routes check_route
    check_route_listeners check_route_middlewares get
sample_config-validate = refl

pub sample_config-IsValidConfig : IsValidConfig sample_config
sample_config-IsValidConfig = (validate_iff sample_config).0 sample_config-validate

pub sample_config-Fits : Fits sample_config
sample_config-Fits = record { http = omega arith; tcp = omega arith }

-- The runtime that `main` builds for it.
abbrev pub sample_balancer : WeightedRoundRobin
sample_balancer = record { upstreams = two_upstreams; weighted = 0 ∷ 0 ∷ 1 ∷ []; next_index = 0 }

abbrev pub sample_registry : ServiceRegistry
sample_registry = record {
  http = (text "user-service", record { lb = sample_balancer }) ∷ [];
  tcp =
      (
        text "postgres",
        record {
          lb = record { upstreams = second_upstream ∷ []; weighted = 0 ∷ []; next_index = 0 };
        },
      )
      ∷ [];
}

abbrev pub sample_router : Router
sample_router = record {
  http = http_route user_route ∷ http_route any_host_route ∷ [];
  tcp =
      record {
        listeners = text "tcp-main" ∷ [];
        service = text "postgres";
        tls_mode = some passthrough;
      }
      ∷ [];
  service_registry = sample_registry;
}

abbrev pub sample_runtime : GatewayRuntime
sample_runtime = record { router = sample_router; applied_config = sample_config }

pub sample_runtime-new : Runtime.new sample_config ≡ returned sample_runtime
unfolding Runtime.new Service.init Router.new init_services new_service LoadBalancer.new
    push_weights
sample_runtime-new = refl

pub sample_router-IsConsistent : IsConsistent sample_config sample_router
sample_router-IsConsistent =
    let (rt, e, _, c) = new-IsConsistent sample_config sample_config-Fits in
    subst (λ x. IsConsistent sample_config x.router)
      (returned-injective (sym e ∙ sample_runtime-new)) c

-- A request for `/v1/api` on `http-main` takes the route that names the host.
pub user_route-found :
    get_http_route sample_router (text "api.example.com") (text "/v1/api") (text "http-main")
    ≡ ok (http_route user_route)
unfolding get_http_route Router.max_by_key matches Router.match_listener ◌==◌ Router.match_host
    strip_prefix Router.match_path ends_with starts_with Router.max_from Router.score
user_route-found = refl
