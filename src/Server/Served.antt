-- ===== src/Server/Served.antt =====
-- `handle_client` (src/server/http.rs): every way in which a request is answered.
use portiq.Base.{
  refl, ◌≡◌, inl, inr, sym, ap, subst, ◌∙◌, List, [], ◌∷◌, ◌++◌, some, Str, text, get, returned,
  unwrap, >>=-returned_inv, returned-injective, map, ok, All,
}
use portiq.Config.{GatewayConfig, HttpServiceConfig, IpAddr, Upstream}
use portiq.Config.Valid.{IsValidConfig}
use portiq.LoadBalancer.Shares.{Weighs, shares}
use portiq.Router.{HttpRoute, Router, get_http_upstream}
use portiq.Router.Route.{Applies, IsBest}
use portiq.Runtime.{GatewayRuntime}
use portiq.Runtime.Consistent.{IsConsistent}
use portiq.Middleware.Extern.{Crates, Outgoing}
use portiq.Middleware.{Request, Response, World, Middleware, run}
use portiq.Middleware.Answers.{Same, moved_uri, passed, refused, run-Answer}
use portiq.Middleware.Registry.{init, create_chain, middleware_of}
use portiq.Middleware.Chain.{create_chain-cases}
use portiq.Server.{
  response_with_status, route_middlewares, original_host, send_upstream, handle_client,
}
use portiq.Server.Looked.{none-Applies, IsBest-Applies, Served-of, weightless}
use portiq.Server.Handled.{unrouted, unavailable, chained, handle_client-Handled}
use portiq.Server.Upstreams.{IsForwarded, IsAnswered, send_upstream-IsAnswered}

module _ (ext : Crates) where
  -- The configured middlewares of a route.
  abbrev pub configured : GatewayConfig → HttpRoute → List (Middleware ext)
  configured cfg route =
      map (middleware_of ext) (route_middlewares cfg.http.middlewares route.middlewares)

  -- How a request for `host` was answered.
  pub data Outcome (cfg : GatewayConfig) (router : Router) (ip_addr : IpAddr) (host listener : Str)
      (req : Request ext) (w : World ext) (r : Response ext) (w' : World ext) : Type 0 where
    no_route :
        All (λ route. ¬ Applies host (ext.path req.uri) listener route) router.http
        → r.status ≡ 404
        → w' ≡ w
        → Outcome cfg router ip_addr host listener req w r w'
    no_weight :
        (route : HttpRoute) (c : HttpServiceConfig)
        → IsBest host (ext.path req.uri) listener router.http route
        → get route.service cfg.http.services ≡ some c
        → shares c.upstreams ≡ []
        → r.status ≡ 503
        → w' ≡ w
        → Outcome cfg router ip_addr host listener req w r w'
    limited :
        (route : HttpRoute)
        → IsBest host (ext.path req.uri) listener router.http route
        → r.status ≡ 429
        → w'.sent ≡ w.sent
        → Outcome cfg router ip_addr host listener req w r w'
    forwarded :
        (route : HttpRoute) (upstream : Upstream) (router' : Router) (req' : Request ext)
        (request : Outgoing)
        → IsBest host (ext.path req.uri) listener router.http route
        → get_http_upstream router route.service ≡ returned (ok upstream, router')
        → (c : HttpServiceConfig) × (get route.service cfg.http.services ≡ some c)
          × Weighs upstream c.upstreams
        → Same ext req req'
        → moved_uri ext (configured cfg route) req.uri ≡ some req'.uri
        → IsForwarded ext upstream.target ip_addr req' request
        → w'.sent ≡ w.sent ++ request ∷ []
        → IsAnswered ext w.sent request r
        → Outcome cfg router ip_addr host listener req w r w'

  pub response_with_status-status :
      (status : _) {r : Response ext}
      → response_with_status ext status ≡ returned r
      → r.status ≡ status
  unfolding response_with_status
  response_with_status-status status h =
      let (_, made, _) = >>=-returned_inv (unwrap (ext.from_str (text "portiq"))) _ h in
      ap (λ x. x.status) (sym (returned-injective made))

  -- Only the configured middlewares move a URI.
  created-moves :
      (cfg : GatewayConfig) (route : HttpRoute) (uri : ext.Uri) {chain : List (Middleware ext)}
      → create_chain ext init (route_middlewares cfg.http.middlewares route.middlewares)
        ≡ returned chain
      → moved_uri ext chain uri ≡ moved_uri ext (configured cfg route) uri
  created-moves cfg route uri created =
      elim (create_chain-cases ext (route_middlewares cfg.http.middlewares route.middlewares)) [
        | inl (_, made) ↦ ap (λ c. moved_uri ext c uri) (returned-injective (sym created ∙ made))
        | inr (_, panics) ↦ cc
      ]

  -- The answer of the chain of the best route in front of an upstream.
  forward :
      (ip_addr : IpAddr) (cfg : GatewayConfig) (router router' : Router) (host listener : Str)
      (route : HttpRoute) (upstream : Upstream) (req : Request ext) (w : World ext)
      (middlewares : List (Middleware ext)) {r : Response ext} {w' : World ext}
      → IsBest host (ext.path req.uri) listener router.http route
      → get_http_upstream router route.service ≡ returned (ok upstream, router')
      → (c : HttpServiceConfig) × (get route.service cfg.http.services ≡ some c)
        × Weighs upstream c.upstreams
      → create_chain ext init (route_middlewares cfg.http.middlewares route.middlewares)
        ≡ returned middlewares
      → run ext (send_upstream ext upstream.target ip_addr) middlewares req w ≡ returned (r, w')
      → Outcome cfg router ip_addr host listener req w r w'
  forward ip_addr cfg router router' host listener route upstream req w middlewares {r} best at
        weighed created h =
      let handler = send_upstream ext upstream.target ip_addr in
      elim (run-Answer ext handler middlewares req w h) [
        | refused status quiet ↦ limited route best status quiet
        | passed req₁ w₁ w₂ same moved quiet sends quiet' ↦
            let (request, sent, built, answered) =
              send_upstream-IsAnswered ext upstream.target ip_addr req₁ w₁ sends in
            forwarded route upstream router' req₁ request best at weighed same
              (sym (created-moves cfg route req.uri created) ∙ moved) built
              (quiet' ∙ sent ∙ ap (λ s. s ++ request ∷ []) quiet)
              (subst (λ s. IsAnswered ext s request r) quiet answered)
      ]

  -- With a valid configuration, whose runtime this is, a request that is answered leaves that
  -- runtime, and is answered in one of four ways: with 404 and no route applies; with 503 and the best
  -- route's service has no weight; with 429 and nothing was sent; or one request was sent to an
  -- upstream of the best route's service that has a weight, and the answer is the upstream's, or 502.
  pub handle_client-Outcome :
      (ip_addr : IpAddr) (listener : Str) (rt : GatewayRuntime) (req : Request ext) (w : World ext)
      {r : Response ext} {rt' : GatewayRuntime} {w' : World ext}
      → IsValidConfig rt.applied_config
      → IsConsistent rt.applied_config rt.router
      → handle_client ext ip_addr listener rt req w ≡ returned (r, rt', w')
      → (rt'.applied_config ≡ rt.applied_config)
        × IsConsistent rt.applied_config rt'.router
        × ((host : Str) × (original_host ext req ≡ returned host)
            × Outcome rt.applied_config rt.router ip_addr host listener req w r w')
  handle_client-Outcome ip_addr listener rt req w valid consistent h =
      let cfg = rt.applied_config in
      let path = ext.path req.uri in
      let (host, hosted, handled) = handle_client-Handled ext ip_addr listener rt req w h in
      elim handled [
        | unrouted e made same same' ↦ (
          ap (λ s. s.applied_config) same,
          subst (λ s. IsConsistent cfg s.router) (sym same) consistent,
          (
            host,
            hosted,
            no_route (none-Applies rt.router host path listener e)
                (response_with_status-status 404 made) same',
          ),
        )
        | unavailable route er router' e at made same same' ↦
            let served = Served-of cfg rt.router router' route.service consistent at in
            let (c, configured, zero_weights) =
              weightless cfg rt.router router' host path listener route valid consistent e at
                served in
            (
              ap (λ s. s.applied_config) same,
              subst (λ s. IsConsistent cfg s.router) (sym same) served.consistent,
              (
                host,
                hosted,
                no_weight route c (IsBest-Applies rt.router host path listener route e) configured
                    zero_weights (response_with_status-status 503 made) same',
              ),
            )
        | chained route upstream router' chain e at created answered same ↦
            let served = Served-of cfg rt.router router' route.service consistent at in
            (
              ap (λ s. s.applied_config) same,
              subst (λ s. IsConsistent cfg s.router) (sym same) served.consistent,
              (
                host,
                hosted,
                forward ip_addr cfg rt.router router' host listener route upstream req w chain
                    (IsBest-Applies rt.router host path listener route e) at
                    (served.chosen upstream refl) created answered,
              ),
            )
      ]
