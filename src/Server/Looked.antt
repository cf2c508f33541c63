-- ===== src/Server/Looked.antt =====
-- What the lookups of `handle_client` (src/server/http.rs) in the router have found.
use portiq.Base.{
  ◌≡◌, inl, inr, sym, ap, subst, ◌∙◌, [], Option, none, some, Str, get, returned, >>=-returned_inv,
  returned-state, Result, ok, err, ok_or, ok-injective, All,
}
use portiq.Config.{GatewayConfig, HttpServiceConfig, Upstream}
use portiq.Config.Valid.{IsValidConfig}
use portiq.LoadBalancer.Shares.{shares}
use portiq.Service.{get_http_service_endpoint}
use portiq.Router.{
  RouterError, not_found, no_upstream, HttpRoute, Router, get_http_route, get_http_upstream,
}
use portiq.Router.Route.{Applies, IsBest, get_http_route-IsBest}
use portiq.Runtime.Consistent.{IsConsistent, Served, get_http_upstream-Served}
use portiq.Runtime.Routes.{get_http_route-IsDefined}

ok_or-err {ℓ κ} :
    {A : Type ℓ} {E : Type κ} (o : Option A) (e : E) {e' : E}
    → Path (Result A E) (ok_or o e) (err e')
    → e' ≡ e
ok_or-err none e h = cc
ok_or-err (some a) e h = cc

get_http_upstream-err :
    (router : Router) (name : Str) {e : RouterError} {router' : Router}
    → get_http_upstream router name ≡ returned (err e, router')
    → e ≡ no_upstream
unfolding get_http_upstream
get_http_upstream-err router name h =
    let ((found, registry), h', _) =
      >>=-returned_inv (get_http_service_endpoint name router.service_registry) _ h in
    ok_or-err found no_upstream (returned-state h').0

pub none-Applies :
    (router : Router) (host path listener : Str)
    → get_http_route router host path listener ≡ err not_found
    → All (λ route. ¬ Applies host path listener route) router.http
none-Applies router host path listener e = elim (get_http_route-IsBest router host path listener) [
  | inl (_, none_does) ↦ none_does
  | inr (route, e', _) ↦ cc
]

pub IsBest-Applies :
    (router : Router) (host path listener : Str) (route : HttpRoute)
    → get_http_route router host path listener ≡ ok route
    → IsBest host path listener router.http route
IsBest-Applies router host path listener route e =
    elim (get_http_route-IsBest router host path listener) [
      | inl (e', _) ↦ cc
      | inr (route', e', best) ↦
          subst (IsBest host path listener router.http) (ok-injective (sym e' ∙ e)) best
    ]

-- What a lookup that returned has done.
pub Served-of :
    (cfg : GatewayConfig) (router router' : Router) (name : Str) {r : Result Upstream RouterError}
    → IsConsistent cfg router
    → get_http_upstream router name ≡ returned (r, router')
    → Served cfg name router router' r
Served-of cfg router router' name consistent at =
    let (r₁, router₁, at₁, served) = get_http_upstream-Served cfg router name consistent in
    let (e, e') = returned-state (sym at₁ ∙ at) in
    subst (λ r. Served cfg name router router' r) e
      (subst (λ s. Served cfg name router s r₁) e' served)

-- The service of the best route has no weight where the lookup finds no upstream.
pub weightless :
    (cfg : GatewayConfig) (router router' : Router) (host path listener : Str) (route : HttpRoute)
    {e : RouterError}
    → IsValidConfig cfg
    → IsConsistent cfg router
    → get_http_route router host path listener ≡ ok route
    → get_http_upstream router route.service ≡ returned (err e, router')
    → Served cfg route.service router router' (err e)
    → (c : HttpServiceConfig) × (get route.service cfg.http.services ≡ some c)
      × (shares c.upstreams ≡ [])
weightless cfg router router' host path listener route valid consistent found at served =
    let defined =
      get_http_route-IsDefined cfg router host path listener route valid consistent found in
    let (c, configured) = defined.service in
    let none_left = get_http_upstream-err router route.service at in
    elim (served.no_upstream_iff.0 (ap err none_left)) [
      | inl missing ↦ cc (missing, configured)
      | inr zero_weights ↦ zero_weights
    ]
