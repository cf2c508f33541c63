-- ===== src/Runtime/Consistent.antt =====
-- The runtime (src/gateway_runtime.rs) stays what its configuration says, and what that means for the
-- lookups that a request makes.
use portiq.Base.{
  ok, ok-injective, ◌≡◌, ◌↔◌, ◌⊎◌, refl, ap, List, [], map, Option, none, some, Str, returned,
  Result, err, ok_or, get, All,
}
use portiq.Config.{TcpServiceConfig, GatewayConfig, Upstream, HttpServiceConfig, TcpServiceConfig}
use portiq.LoadBalancer.Shares.{Weighs, shares}
use portiq.Service.{
  Service, ServiceRegistry, get_http_service_endpoint, get_tcp_service_endpoint, endpoint,
}
use portiq.Service
use portiq.Service.Endpoint.{Serves, HasU32Weights, init_services-Serves, endpoint-Looked}
use portiq.Router.{
  RouterError, not_found, no_upstream, HttpRoute, Router, http_route, tcp_route, get_http_route,
  get_http_upstream, get_tcp_upstream,
}
use portiq.Router
use portiq.Runtime.{GatewayRuntime, new}

abbrev pub http_upstreams : HttpServiceConfig → List Upstream
http_upstreams c = c.upstreams

abbrev pub tcp_upstreams : TcpServiceConfig → List Upstream
tcp_upstreams c = c.upstreams

-- What `WeightedRoundRobin::new` asserts, and what `weight : u32` guarantees, of every service.
pub record Fits (cfg : GatewayConfig) : Type 0 where
  pub http : All (λ e. HasU32Weights http_upstreams e.1) cfg.http.services
  pub tcp : All (λ e. HasU32Weights tcp_upstreams e.1) cfg.tcp.services

-- The route tables are the configuration's, and every service balances over its upstreams.
pub record IsConsistent (cfg : GatewayConfig) (router : Router) : Type 0 where
  pub http_routes : router.http ≡ map http_route cfg.http.routes
  pub tcp_routes : router.tcp ≡ map tcp_route cfg.tcp.routes
  pub http_services : Serves http_upstreams cfg.http.services router.service_registry.http
  pub tcp_services : Serves tcp_upstreams cfg.tcp.services router.service_registry.tcp

-- Building a runtime does not panic, and gives a consistent one of the configuration.
pub new-IsConsistent :
    (cfg : GatewayConfig)
    → Fits cfg
    → (rt : GatewayRuntime) × (new cfg ≡ returned rt)
      × (rt.applied_config ≡ cfg)
      × IsConsistent cfg rt.router
unfolding new Service.init Router.new
new-IsConsistent cfg f =
    let (http, e, serves) = init_services-Serves http_upstreams cfg.http.services f.http in
    let (tcp, e', serves') = init_services-Serves tcp_upstreams cfg.tcp.services f.tcp in
    (
      record { router = Router.new cfg (record { http = http; tcp = tcp }); applied_config = cfg },
      rw (e, e'),
      refl,
      record {
        http_routes = refl;
        tcp_routes = refl;
        http_services = serves;
        tcp_services = serves';
      },
    )

-- What an HTTP lookup of a service does to a consistent router.
pub record Served (cfg : GatewayConfig) (name : Str) (router router' : Router)
    (r : Result Upstream RouterError) : Type 0 where
  pub consistent : IsConsistent cfg router'
  pub same_tables : (router'.http ≡ router.http) × (router'.tcp ≡ router.tcp)
  pub no_upstream_iff : (r ≡ err no_upstream) ↔ (
      (get name cfg.http.services ≡ none)
      ⊎ ((c : HttpServiceConfig) × (get name cfg.http.services ≡ some c)
          × (shares c.upstreams ≡ [])))
  pub chosen :
      (u : Upstream)
      → r ≡ ok u
      → (c : HttpServiceConfig) × (get name cfg.http.services ≡ some c) × Weighs u c.upstreams

ok_or-ok : (u : Option Upstream) {x : Upstream} → ok_or u no_upstream ≡ ok x → u ≡ some x
ok_or-ok none e = cc
ok_or-ok (some a) e = ap some (ok-injective e)

ok_or-err : (u : Option Upstream) → ok_or u no_upstream ≡ err no_upstream → u ≡ none
ok_or-err none h = refl
ok_or-err (some a) h = cc

-- Looking up an upstream does not panic, keeps the router consistent, and fails exactly if the
-- service is not configured or all its weights are zero.
pub get_http_upstream-Served :
    (cfg : GatewayConfig) (router : Router) (name : Str)
    → IsConsistent cfg router
    → (r : Result Upstream RouterError) × (router' : Router) × (get_http_upstream router name
        ≡ returned (r, router'))
      × Served cfg name router router' r
unfolding get_http_upstream get_http_service_endpoint
get_http_upstream-Served cfg router name k =
    let (u, services', e, looked) =
      endpoint-Looked http_upstreams name cfg.http.services router.service_registry.http
        k.http_services in
    (
      ok_or u no_upstream,
      record router { service_registry = record router.service_registry { http = services' } },
      rw e,
      record {
        consistent = record {
          http_routes = k.http_routes;
          tcp_routes = k.tcp_routes;
          http_services = looked.serves;
          tcp_services = k.tcp_services;
        };
        same_tables = (refl, refl);
        no_upstream_iff = (
          λ h. looked.none_iff.0 (ok_or-err u h),
          λ h. ap (λ o. ok_or o no_upstream) (looked.none_iff.1 h),
        );
        chosen = λ x e. looked.chosen x (ok_or-ok u e);
      },
    )

-- The same for a TCP lookup, as far as the router's state and the upstream found go.
pub get_tcp_upstream-IsConsistent :
    (cfg : GatewayConfig) (router : Router) (name : Str)
    → IsConsistent cfg router
    → (r : Result Upstream RouterError) × (router' : Router) × (get_tcp_upstream router name
        ≡ returned (r, router'))
      × IsConsistent cfg router'
      × ((u : Upstream)
          → r ≡ ok u
          → (c : TcpServiceConfig) × (get name cfg.tcp.services ≡ some c) × Weighs u c.upstreams)
unfolding get_tcp_upstream get_tcp_service_endpoint
get_tcp_upstream-IsConsistent cfg router name k =
    let (u, services', e, looked) =
      endpoint-Looked tcp_upstreams name cfg.tcp.services router.service_registry.tcp
        k.tcp_services in
    (
      ok_or u no_upstream,
      record router { service_registry = record router.service_registry { tcp = services' } },
      rw e,
      record {
        http_routes = k.http_routes;
        tcp_routes = k.tcp_routes;
        http_services = k.http_services;
        tcp_services = looked.serves;
      },
      λ x e. looked.chosen x (ok_or-ok u e),
    )
