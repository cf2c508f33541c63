-- ===== src/Runtime/Tests.antt =====
-- Lookups in the runtime (src/gateway_runtime.rs, src/service.rs) of the sample configuration.
use portiq.Base.{◌≡◌, ◌↔◌, [], Option, some, text, returned, Result, err, Map, get}
use portiq.Config.{Upstream, HttpServiceConfig}
use portiq.LoadBalancer.Shares.{shares}
use portiq.Service.{Service, endpoint}
use portiq.Service.Endpoint.{Looked, endpoint-Looked}
use portiq.Router.{RouterError, no_upstream, Router, http_route, get_http_upstream}
use portiq.Runtime.Consistent.{http_upstreams}
use portiq.Runtime.Routes.{get_http_upstream-of_route}
use portiq.Samples.{
  sample_config, sample_router, sample_registry, sample_config-IsValidConfig,
  sample_router-IsConsistent, user_route, user_route-found,
}

endpoint-Looked_example :
    (r : Option Upstream) × (services' : Map Service) × (endpoint
        (text "user-service")
        sample_registry.http
      ≡ returned (r, services'))
    × Looked http_upstreams
        (text "user-service")
        sample_config.http.services
        sample_registry.http
        services'
        r
endpoint-Looked_example =
    endpoint-Looked http_upstreams (text "user-service") sample_config.http.services
      sample_registry.http sample_router-IsConsistent.http_services

get_http_upstream-of_route_example :
    (c : HttpServiceConfig) × (r : Result Upstream RouterError) × (router' : Router) × (get
        (text "user-service")
        sample_config.http.services
      ≡ some c)
    × (get_http_upstream sample_router (text "user-service") ≡ returned (r, router'))
    × ((r ≡ err no_upstream) ↔ (shares c.upstreams ≡ []))
get_http_upstream-of_route_example =
    get_http_upstream-of_route sample_config sample_router (text "api.example.com") (text "/v1/api")
      (text "http-main") (http_route user_route) sample_config-IsValidConfig
      sample_router-IsConsistent user_route-found
