-- ===== src/Gateway/Origins.antt =====
-- Where a request in flight (`handle_client`, src/server/http.rs) is going.
use portiq.Base.{
  ℕ, ◌≡◌, ◌⊎◌, inl, inr, refl, ◌∙◌, subst, some, Str, Exec, returned, ◌>>=◌, get, >>=-returned_inv,
  returned-state, Result-cases,
}
use portiq.Config.{IpAddr, GatewayConfig, HttpServiceConfig}
use portiq.Config.Valid.{IsValidConfig}
use portiq.LoadBalancer.Shares.{Weighs}
use portiq.Router.{not_found, no_upstream, status_code, get_http_route, get_http_upstream}
use portiq.Runtime.{GatewayRuntime}
use portiq.Reload.Static.{SameStatic}
use portiq.Reload.Steps.{IsRunning, moved-IsRunning}
use portiq.Middleware.Extern.{Crates}
use portiq.Middleware.{Request, World}
use portiq.Middleware.Registry.{init, create_chain}
use portiq.Middleware.Stages.{step}
use portiq.Server.{original_host, route_middlewares, response_with_status, send_upstream}
use portiq.Server.Served.{response_with_status-status}
use portiq.Server.Looked.{Served-of}
use portiq.Gateway.Flight.{Pending, replied, queued, begin_request, step_pending}

module _ (ext : Crates) where
  -- A request in flight: answered with 404 or 503, or on its way to an upstream with a weight, of a
  -- service of a valid configuration with the static part of the start.
  abbrev pub IsOf : GatewayConfig → Pending ext → Type 0
  IsOf start (replied r) = (r.status ≡ 404) ⊎ (r.status ≡ 503)
  IsOf start (queued ip_addr upstream c) =
      (cfg : GatewayConfig) × (name : Str) × (service : HttpServiceConfig) × IsValidConfig cfg
      × SameStatic start cfg
      × (get name cfg.http.services ≡ some service)
      × Weighs upstream service.upstreams

  own_answer :
      (start : GatewayConfig) (status : ℕ) (s : GatewayRuntime) {p : Pending ext}
      {s' : GatewayRuntime}
      → (status ≡ 404) ⊎ (status ≡ 503)
      → Path
          (Exec (Pending ext × GatewayRuntime))
          (response_with_status ext status >>= λ r. returned (replied r, s))
          (returned (p, s'))
      → IsOf start p × (s ≡ s')
  own_answer start status s which h =
      let (r, e, made) = >>=-returned_inv (response_with_status ext status) _ h in
      let (same, same') = returned-state e in
      let is = response_with_status-status ext status made in
      (subst (IsOf start) same (elim which [ inl e ↦ inl (is ∙ e) | inr e ↦ inr (is ∙ e) ]), same')

  -- A request that has been looked up is such a request.
  pub begin_request-IsOf :
      (start : GatewayConfig) (ip_addr : IpAddr) (listener : Str) (rt : GatewayRuntime)
      (req : Request ext) {p : Pending ext} {rt' : GatewayRuntime}
      → IsRunning start rt
      → begin_request ext ip_addr listener rt req ≡ returned (p, rt')
      → IsOf start p × IsRunning start rt'
  unfolding begin_request status_code
  begin_request-IsOf start ip_addr listener rt req v h =
      let (host, h₁, _) = >>=-returned_inv (original_host ext req) _ h in
      elim (Result-cases (get_http_route rt.router host (ext.path req.uri) listener)) [
        | inl (not_found, e) ↦
            let (own, same) = own_answer start 404 rt (inl refl) (rw e at h₁) in
            (own, subst (IsRunning start) same v)
        | inl (no_upstream, e) ↦ cc (rw e at h₁)
        | inr (route, e) ↦
            let ((found, router'), h₂, at) =
              >>=-returned_inv (get_http_upstream rt.router route.service) _ (rw e at h₁) in
            let served =
              Served-of rt.applied_config rt.router router' route.service v.consistent at in
            let moved =
              moved-IsRunning start rt (record rt { router = router' }) refl served.consistent v in
            elim (Result-cases found) [
              | inl (er, e') ↦
                  let (own, same) =
                    own_answer start 503 (record rt { router = router' }) (inr refl)
                      (rw e' at h₂) in
                  (own, subst (IsRunning start) same moved)
              | inr (upstream, e') ↦
                  let (chain, h₃, _) =
                    >>=-returned_inv
                      (create_chain ext init
                        (route_middlewares rt.applied_config.http.middlewares route.middlewares))
                      _ (rw e' at h₂) in
                  let (same, same') = returned-state h₃ in
                  let (c, configured, weighs) = served.chosen upstream e' in
                  (
                    subst (IsOf start) same (
                      rt.applied_config, route.service, c, v.valid, v.static, configured, weighs,
                    ),
                    subst (IsRunning start) same' moved,
                  )
            ]
      ]

  -- It stays so with every step.
  pub step_pending-IsOf :
      (start : GatewayConfig) (p : Pending ext) (w : World ext) {p' : Pending ext} {w' : World ext}
      → step_pending ext p w ≡ returned (p', w')
      → IsOf start p
      → IsOf start p'
  unfolding step_pending
  step_pending-IsOf start (replied r) w h own = rw (← (returned-state h).0) own
  step_pending-IsOf start (queued ip_addr upstream c) w h own =
      let (_, h', _) =
        >>=-returned_inv (step ext (send_upstream ext upstream.target ip_addr) c w) _ h in
      rw (← (returned-state h').0) own
