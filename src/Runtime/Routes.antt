-- ===== src/Runtime/Routes.antt =====
-- What validation (src/config.rs) buys a request: a route that the router (src/router.rs) finds names
-- only what the configuration defines.
use portiq.Base.{
  ◌≡◌, ◌≢◌, ◌↔◌, inl, inr, refl, sym, ◌∙◌, subst, List, [], ◌∷◌, ◌++◌, Option, none, some, Str,
  ◌==◌, eq_iff, some-injective, ok-injective, returned, Result, ok, err, Map, get, keys, All,
  All-imp, All-map, here, there, Bool-cases, false,
}
use portiq.Config.{GatewayConfig, Upstream, HttpServiceConfig, RouteConfig}
use portiq.Config.Seen.{Named}
use portiq.Config.Valid.{IsValidConfig, IsValidRoute}
use portiq.LoadBalancer.Shares.{shares}
use portiq.Router.{
  RouterError, no_upstream, HttpRoute, Router, http_route, or_empty, get_http_route,
  get_http_upstream,
}
use portiq.Router.Route.{get_http_route-IsBest}
use portiq.Runtime.Consistent.{IsConsistent, get_http_upstream-Served}

Named-tail : (j k : Str) (s : List Str) → (j == k) ≡ false → Named k (j ∷ s) → Named k s
Named-tail j k s miss (here e) = cc (miss, (eq_iff j k).1 e)
Named-tail j k s miss (there later) = later

get_of_Named : {V : Type 0} (k : Str) (m : Map V) → Named k (keys m) → (v : V) × (get k m ≡ some v)
unfolding get
get_of_Named k [] n = elim n [ ]
get_of_Named k ((j, v) ∷ m) n = elim (Bool-cases (j == k)) [
  | inl hit ↦ (v, rw hit)
  | inr miss ↦ rw miss (get_of_Named k m (Named-tail j k (keys m) miss n))
]

-- What a route of the table names is defined.
pub record IsDefined (cfg : GatewayConfig) (route : HttpRoute) : Type 0 where
  pub service : (c : HttpServiceConfig) × (get route.service cfg.http.services ≡ some c)
  pub middlewares : All (λ m. get m cfg.http.middlewares ≢ none) route.middlewares

http_route-IsDefined :
    (cfg : GatewayConfig) (r : RouteConfig) → IsValidRoute cfg r → IsDefined cfg (http_route r)
http_route-IsDefined cfg r v = record {
  service = get_of_Named r.service cfg.http.services v.service;
  middlewares = all_defined r.middlewares v.middlewares;
}
  where
    all_defined :
        (o : Option (List Str))
        → ((ms : List Str) → o ≡ some ms → All (λ m. get m cfg.http.middlewares ≢ none) ms)
        → All (λ m. get m cfg.http.middlewares ≢ none) (or_empty o)
    all_defined none h = tt
    all_defined (some ms) h = h ms refl

All-middle {ℓ μ} :
    {A : Type ℓ} (P : A → Type μ) (xs : List A) (a : A) (ys : List A) → All P (xs ++ a ∷ ys) → P a
All-middle P [] a ys h = h.0
All-middle P (x ∷ xs) a ys h = All-middle P xs a ys h.1

-- Over a valid configuration the route found names a configured service and defined middlewares.
pub get_http_route-IsDefined :
    (cfg : GatewayConfig) (router : Router) (host path listener : Str) (route : HttpRoute)
    → IsValidConfig cfg
    → IsConsistent cfg router
    → get_http_route router host path listener ≡ ok route
    → IsDefined cfg route
get_http_route-IsDefined cfg router host path listener route v k h =
    elim (get_http_route-IsBest router host path listener) [
      | inl (e, _) ↦ cc
      | inr (r, e, best) ↦
          let table = All-map (IsDefined cfg) http_route cfg.http.routes (
            All-imp (IsValidRoute cfg) (λ x. IsDefined cfg (http_route x))
              (http_route-IsDefined cfg) cfg.http.routes v.routes) in
          let listed = subst (All (IsDefined cfg)) (sym k.http_routes ∙ best.split) table in
          subst (IsDefined cfg) (ok-injective (sym e ∙ h))
            (All-middle (IsDefined cfg) best.before r best.after listed)
    ]

-- So a request that has found its route fails for want of an upstream only if every weight of the
-- route's service is zero.
pub get_http_upstream-of_route :
    (cfg : GatewayConfig) (router : Router) (host path listener : Str) (route : HttpRoute)
    → IsValidConfig cfg
    → IsConsistent cfg router
    → get_http_route router host path listener ≡ ok route
    → (c : HttpServiceConfig) × (r : Result Upstream RouterError) × (router' : Router) × (get
          route.service cfg.http.services
        ≡ some c)
      × (get_http_upstream router route.service ≡ returned (r, router'))
      × ((r ≡ err no_upstream) ↔ (shares c.upstreams ≡ []))
get_http_upstream-of_route cfg router host path listener route v k h =
    let d = get_http_route-IsDefined cfg router host path listener route v k h in
    let (r, router', e, served) = get_http_upstream-Served cfg router route.service k in
    (
      d.service.0,
      r,
      router',
      d.service.1,
      e,
      (
        λ n. elim (served.no_upstream_iff.0 n) [
          | inl missing ↦ cc (d.service.1)
          | inr (c', e', zero_weights) ↦
              subst (λ c. shares c.upstreams ≡ []) (some-injective (sym e' ∙ d.service.1))
                zero_weights
        ],
        λ zero_weights. served.no_upstream_iff.1 (inr (d.service.0, d.service.1, zero_weights)),
      ),
    )
