-- ===== src/Service.antt =====
-- src/service.rs: a balancer for each configured service. A lookup moves the balancer's cursor (an
-- atomic in the source), so it returns the registry after it.
pub mod Endpoint
use portiq.Base.{ℕ, List, [], ◌∷◌, Option, none, some, Str, Map, get, insert, Exec, returned, ◌>>=◌}
use portiq.Config.{Upstream, GatewayConfig, HttpServiceConfig, TcpServiceConfig}
use portiq.LoadBalancer.{WeightedRoundRobin, new, select}

pub record Service : Type 0 where
  pub lb : WeightedRoundRobin

-- `Service::new`.
unfoldable pub new_service : List Upstream → Exec Service
new_service upstreams = do strategy ← new upstreams; returned (record { lb = strategy })

-- The two chains of `init`: one service for each entry.
unfoldable pub init_services : {C : Type 0} → (C → List Upstream) → Map C → Exec (Map Service)
init_services upstreams [] = returned []
init_services upstreams ((name, service_config) ∷ services) = do
  service ← new_service (upstreams service_config)
  rest ← init_services upstreams services
  returned ((name, service) ∷ rest)

pub record ServiceRegistry : Type 0 where
  pub http : Map Service
  pub tcp : Map Service

unfoldable pub init : GatewayConfig → Exec ServiceRegistry
init gateway_config = do
  http ← init_services (λ (c : HttpServiceConfig). c.upstreams) gateway_config.http.services
  tcp ← init_services (λ (c : TcpServiceConfig). c.upstreams) gateway_config.tcp.services
  returned (record { http = http; tcp = tcp })

-- `get(name).and_then(|svc| svc.lb.get_next())`.
unfoldable pub endpoint : Str → Map Service → Exec (Option Upstream × Map Service)
endpoint name services = elim (get name services) [
  | none ↦ returned (none, services)
  | some svc ↦ do
    (upstream, lb') ← select svc.lb
    returned (upstream, insert name (record { lb = lb' }) services)
]

unfoldable pub get_http_service_endpoint :
    Str → ServiceRegistry → Exec (Option Upstream × ServiceRegistry)
get_http_service_endpoint name registry = do
  (upstream, http') ← endpoint name registry.http
  returned (upstream, record registry { http = http' })

unfoldable pub get_tcp_service_endpoint :
    Str → ServiceRegistry → Exec (Option Upstream × ServiceRegistry)
get_tcp_service_endpoint name registry = do
  (upstream, tcp') ← endpoint name registry.tcp
  returned (upstream, record registry { tcp = tcp' })
