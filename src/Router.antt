-- ===== src/Router.antt =====
-- src/router.rs and src/error.rs: the route tables built from a configuration, and the choice of a
-- route. `Box<str>` and `&str` are both texts. The bytes cut off by slicing in `match_path` are the
-- ASCII characters `*` and `/`, so a slice never splits a character.
pub mod Host
pub mod Path
pub mod Best
pub mod Route
mod Tests
use portiq.Base.{
  ℕ, ◌+◌, ◌-◌, Bool, true, false, not, ◌&&◌, ◌||◌, List, [], ◌∷◌, ◌++◌, map, Option, none, some,
  Str, text, ◌==◌, strip_prefix, starts_with, ends_with, Exec, returned, ◌>>=◌, Result, ok, err,
  ok_or, length, take, any, find, keep, ltb, if◌then◌else◌,
}
use portiq.Config.{Upstream, GatewayConfig, RouteConfig, TcpRouteConfig, TcpTlsMode}
use portiq.Service.{ServiceRegistry, get_http_service_endpoint, get_tcp_service_endpoint}

pub data RouterError : Type 0 where
  not_found no_upstream : RouterError

-- `RouterError::status_code`.
unfoldable pub status_code : RouterError → ℕ
status_code not_found = 404
status_code no_upstream = 503

pub record HttpRoute : Type 0 where
  pub hosts : Option (List Str)
  pub path : Option Str
  pub listeners : List Str
  pub service : Str
  pub middlewares : List Str

pub record TcpRoute : Type 0 where
  pub listeners : List Str
  pub service : Str
  pub tls_mode : Option TcpTlsMode

pub record Router : Type 0 where
  pub http : List HttpRoute
  pub tcp : List TcpRoute
  pub service_registry : ServiceRegistry

-- `unwrap_or(Box::new([]))`.
abbrev pub or_empty : Option (List Str) → List Str
or_empty none = []
or_empty (some xs) = xs

abbrev pub http_route : RouteConfig → HttpRoute
http_route route = record {
  hosts = route.hosts;
  path = route.path;
  listeners = route.listeners;
  service = route.service;
  middlewares = or_empty route.middlewares;
}

abbrev pub tcp_route : TcpRouteConfig → TcpRoute
tcp_route route = record {
  listeners = route.listeners;
  service = route.service;
  tls_mode = route.tls_mode;
}

unfoldable pub new : GatewayConfig → ServiceRegistry → Router
new gateway_config svc_registry = record {
  http = map http_route gateway_config.http.routes;
  tcp = map tcp_route gateway_config.tcp.routes;
  service_registry = svc_registry;
}

unfoldable pub match_host : Str → List Str → Bool
match_host host [] = false
match_host host (rh ∷ router_hosts) =
    let rest = match_host host router_hosts in
    elim (strip_prefix (text "*.") rh) [
      | some suffix ↦ if ends_with host suffix && not (host == suffix) then true else rest
      | none ↦ if rh == host then true else rest
    ]

unfoldable pub match_path : Str → Str → Bool
match_path path router_path =
    if ends_with router_path (text "/*")
    then (let prefix = take (length router_path - 1) router_path in
        if ends_with path (text "/")
        then starts_with path prefix
        else starts_with path (take (length prefix - 1) prefix))
    else path == router_path || path == router_path ++ text "/"

unfoldable pub match_listener : Str → List Str → Bool
match_listener listener router_listeners = any (λ rl. rl == listener) router_listeners

-- The filter of `get_http_route`.
unfoldable pub matches : Str → Str → Str → HttpRoute → Bool
matches host path listener route =
    let matches_listener = match_listener listener route.listeners in
    let matches_host : Bool = elim route.hosts [
      | some router_hosts ↦ match_host host router_hosts
      | none ↦ true
    ] in
    let matches_path : Bool = elim route.path [
      | some router_path ↦ match_path path router_path
      | none ↦ true
    ] in
    matches_listener && matches_host && matches_path

abbrev pub point {ℓ} : {A : Type ℓ} → Option A → ℕ
point none = 0
point (some a) = 1

-- The key of `get_http_route`.
unfoldable pub score : HttpRoute → ℕ
score route = point route.hosts + point route.path

-- `Iterator::max_by_key`: of equal keys the last one wins.
unfoldable pub max_from {ℓ} : {A : Type ℓ} → (A → ℕ) → A → List A → A
max_from key best [] = best
max_from key best (x ∷ xs) = max_from key (if ltb (key x) (key best) then best else x) xs

unfoldable pub max_by_key {ℓ} : {A : Type ℓ} → (A → ℕ) → List A → Option A
max_by_key key [] = none
max_by_key key (x ∷ xs) = some (max_from key x xs)

unfoldable pub get_http_route : Router → Str → Str → Str → Result HttpRoute RouterError
get_http_route router host path listener =
    ok_or (max_by_key score (keep (matches host path listener) router.http)) not_found

unfoldable pub get_tcp_route : Router → Str → Result TcpRoute RouterError
get_tcp_route router listener =
    ok_or (find (λ route. any (λ rl. rl == listener) route.listeners) router.tcp) not_found

-- A lookup moves a balancer's cursor, so it returns the router after it.
unfoldable pub get_http_upstream : Router → Str → Exec (Result Upstream RouterError × Router)
get_http_upstream router name = do
  (upstream, registry) ← get_http_service_endpoint name router.service_registry
  returned (ok_or upstream no_upstream, record router { service_registry = registry })

unfoldable pub get_tcp_upstream : Router → Str → Exec (Result Upstream RouterError × Router)
get_tcp_upstream router name = do
  (upstream, registry) ← get_tcp_service_endpoint name router.service_registry
  returned (ok_or upstream no_upstream, record router { service_registry = registry })
