-- ===== src/Server/Handled.antt =====
-- `handle_client` (src/server/http.rs) taken apart: the three ways to an answer, with the calls on each.
use portiq.Base.{
  ◌≡◌, inl, inr, sym, ap, ◌∙◌, List, Str, Exec, returned, panicked, ◌>>=◌, >>=-returned_inv,
  returned-injective, ok, err, Result-cases,
}
use portiq.Config.{IpAddr, Upstream}
use portiq.Router.{
  RouterError, not_found, no_upstream, status_code, HttpRoute, Router, get_http_route,
  get_http_upstream,
}
use portiq.Runtime.{GatewayRuntime}
use portiq.Middleware.Extern.{Crates}
use portiq.Middleware.{Request, Response, World, Middleware, run}
use portiq.Middleware.Registry.{init, create_chain}
use portiq.Server.{
  response_with_status, route_middlewares, original_host, send_upstream, handle_client,
}

-- An answer that comes with a state that is known.
answer_inv :
    {A S W : Type 0} (m : Exec A) (s : S) (w : W) {a : A} {s' : S} {w' : W}
    → Path (Exec (A × S × W)) (m >>= λ x. returned (x, s, w)) (returned (a, s', w'))
    → (m ≡ returned a) × (s ≡ s') × (w ≡ w')
answer_inv panicked s w h = cc
answer_inv (returned a) s w h =
    let p = returned-injective h in (ap (λ p. returned p.0) p, ap (λ p. p.1) p, ap (λ p. p.2) p)

run_inv :
    {A S W : Type 0} (m : Exec (A × W)) (s : S) {a : A} {s' : S} {w' : W}
    → Path (Exec (A × S × W)) (m >>= λ x. returned (x.0, s, x.1)) (returned (a, s', w'))
    → (m ≡ returned (a, w')) × (s ≡ s')
run_inv panicked s h = cc
run_inv (returned x) s h =
    let p = returned-injective h in (ap (λ p. returned (p.0, p.2)) p, ap (λ p. p.1) p)

module _ (ext : Crates) where
  -- The calls that led to an answer.
  pub data Handled (ip_addr : IpAddr) (listener : Str) (rt : GatewayRuntime) (req : Request ext)
      (w : World ext) (host : Str) (r : Response ext) (rt' : GatewayRuntime) (w' : World ext)
      : Type 0 where
    unrouted :
        get_http_route rt.router host (ext.path req.uri) listener ≡ err not_found
        → response_with_status ext 404 ≡ returned r
        → rt' ≡ rt
        → w' ≡ w
        → Handled ip_addr listener rt req w host r rt' w'
    unavailable :
        (route : HttpRoute) (e : RouterError) (router' : Router)
        → get_http_route rt.router host (ext.path req.uri) listener ≡ ok route
        → get_http_upstream rt.router route.service ≡ returned (err e, router')
        → response_with_status ext 503 ≡ returned r
        → rt' ≡ record rt { router = router' }
        → w' ≡ w
        → Handled ip_addr listener rt req w host r rt' w'
    chained :
        (route : HttpRoute) (upstream : Upstream) (router' : Router) (chain : List (Middleware ext))
        → get_http_route rt.router host (ext.path req.uri) listener ≡ ok route
        → get_http_upstream rt.router route.service ≡ returned (ok upstream, router')
        → create_chain ext init
            (route_middlewares rt.applied_config.http.middlewares route.middlewares)
          ≡ returned chain
        → run ext (send_upstream ext upstream.target ip_addr) chain req w ≡ returned (r, w')
        → rt' ≡ record rt { router = router' }
        → Handled ip_addr listener rt req w host r rt' w'

  pub handle_client-Handled :
      (ip_addr : IpAddr) (listener : Str) (rt : GatewayRuntime) (req : Request ext) (w : World ext)
      {r : Response ext} {rt' : GatewayRuntime} {w' : World ext}
      → handle_client ext ip_addr listener rt req w ≡ returned (r, rt', w')
      → (host : Str) × (original_host ext req ≡ returned host)
        × Handled ip_addr listener rt req w host r rt' w'
  unfolding handle_client status_code
  handle_client-Handled ip_addr listener rt req w h =
      let (host, h₁, hosted) = >>=-returned_inv (original_host ext req) _ h in
      (
        host,
        hosted,
        elim (Result-cases (get_http_route rt.router host (ext.path req.uri) listener)) [
          | inl (not_found, e) ↦
              let (made, same, same') =
                answer_inv (response_with_status ext 404) rt w (rw e at h₁) in
              unrouted e made (sym same) (sym same')
          | inl (no_upstream, e) ↦ cc (rw e at h₁)
          | inr (route, e) ↦
              let ((found, router'), h₂, at) =
                >>=-returned_inv (get_http_upstream rt.router route.service) _ (rw e at h₁) in
              let state' : GatewayRuntime = record rt { router = router' } in
              elim (Result-cases found) [
                | inl (er, e') ↦
                    let (made, same, same') =
                      answer_inv (response_with_status ext 503) state' w (rw e' at h₂) in
                    unavailable route er router' e (at ∙ ap (λ x. returned (x, router')) e') made
                      (sym same) (sym same')
                | inr (upstream, e') ↦
                    let (chain, h₃, created) =
                      >>=-returned_inv
                        (create_chain ext init
                          (route_middlewares rt.applied_config.http.middlewares route.middlewares))
                        _ (rw e' at h₂) in
                    let (answered, same) =
                      run_inv (run ext (send_upstream ext upstream.target ip_addr) chain req w)
                        state' h₃ in
                    chained route upstream router' chain e (at ∙ ap (λ x. returned (x, router')) e')
                      created answered (sym same)
              ]
        ],
      )
