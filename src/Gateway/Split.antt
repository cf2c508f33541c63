-- ===== src/Gateway/Split.antt =====
-- `handle_client` (src/server/http.rs) is its lookup and then the steps of its chain.
use portiq.Base.{
  ℕ, zero, suc, Exec, subst, ap, ap₂, Option, List, ◌∷◌, ◌++◌, returned-state, >>=-returned_inv,
  unwrap, arith, >>=_assoc, >>=-congr, ◌∙◌, Exec-cases, ◌≡◌, inl, inr, refl, Str, returned, ◌>>=◌,
  Result-cases,
}
use portiq.Config.{IpAddr, Upstream}
use portiq.Router.{not_found, no_upstream, status_code, get_http_route, get_http_upstream}
use portiq.Runtime.{GatewayRuntime}
use portiq.Middleware.Extern.{Crates}
use portiq.Middleware.{Request, Response, World}
use portiq.Middleware.Registry.{init, create_chain}
use portiq.Server.{
  original_host, route_middlewares, response_with_status, send_upstream, handle_client,
}
use portiq.Middleware.Stages.{Call, step}
use portiq.Middleware.Stages.Whole.{
  complete, complete-entering, steps_left, settle, settle-complete,
}
use portiq.Gateway.Flight.{
  Pending, replied, queued, begin_request, step_pending, answer_of, Flight, Flies, then_flies,
  moves,
}

module _ (ext : Crates) where
  -- The rest of a request in one go.
  unfoldable pub finish_request : Pending ext → World ext → Exec (Response ext × World ext)
  finish_request (replied response) w = returned (response, w)
  finish_request (queued ip_addr upstream c) w =
      complete ext (send_upstream ext upstream.target ip_addr) (c, w)

  -- How many steps of a request are left at most, and so many steps with nothing in between.
  abbrev pub pending_left : Pending ext → ℕ
  pending_left (replied response) = 0
  pending_left (queued ip_addr upstream c) = steps_left ext c.stage c.loggers

  unfoldable pub settle_pending : ℕ → Pending ext × World ext → Exec (Pending ext × World ext)
  settle_pending zero (p, w) = returned (p, w)
  settle_pending (suc n) (p, w) = step_pending ext p w >>= settle_pending n

  settle_pending-queued :
      (n : ℕ) (ip_addr : IpAddr) (upstream : Upstream) (c : Call ext) (w : World ext)
      → settle_pending n (queued ip_addr upstream c, w) ≡ (
          settle ext (send_upstream ext upstream.target ip_addr) n (c, w) >>= λ x.
          returned (queued ip_addr upstream x.0, x.1))
  unfolding settle_pending settle step_pending
  settle_pending-queued zero ip_addr upstream c w = refl
  settle_pending-queued (suc n) ip_addr upstream c w =
      let handler = send_upstream ext upstream.target ip_addr in
      elim (Exec-cases (step ext handler c w)) [
        | inl lost ↦ rw lost refl
        | inr ((c', w'), e) ↦ rw e (settle_pending-queued n ip_addr upstream c' w')
      ]

  -- Enough steps come to the answer.
  settle_pending-finish_request :
      (p : Pending ext) (w : World ext)
      → (settle_pending (pending_left p) (p, w) >>= λ x.
          unwrap (answer_of ext x.0) >>= λ r. returned (r, x.1))
        ≡ finish_request p w
  unfolding finish_request settle_pending
  settle_pending-finish_request (replied response) w = refl
  settle_pending-finish_request (queued ip_addr upstream c) w =
      let handler = send_upstream ext upstream.target ip_addr in
      let n = steps_left ext c.stage c.loggers in
      let queued_steps = settle_pending-queued n ip_addr upstream c w in
      let steps = settle-complete ext handler n c w (omega arith) in
      elim (Exec-cases (complete ext handler (c, w))) [
        | inl lost ↦ rw (queued_steps, steps, lost) refl
        | inr (x, e) ↦ rw (queued_steps, steps, e) refl
      ]

  -- The lookup and then the chain are the handler.
  pub handle_client-begin_request :
      (ip_addr : IpAddr) (listener : Str) (rt : GatewayRuntime) (req : Request ext) (w : World ext)
      → handle_client ext ip_addr listener rt req w ≡ (
          begin_request ext ip_addr listener rt req >>= λ begun.
          finish_request begun.0 w >>= λ answer. returned (answer.0, begun.1, answer.1))
  unfolding handle_client begin_request finish_request
  handle_client-begin_request ip_addr listener rt req w =
      elim (Exec-cases (original_host ext req)) [
        | inl lost ↦ rw lost refl
        | inr (host, hosted) ↦
            elim (Result-cases (get_http_route rt.router host (ext.path req.uri) listener)) [
              | inl (not_found, e) ↦
                  elim (Exec-cases (response_with_status ext (status_code not_found))) [
                    | inl lost ↦ rw (hosted, ◌>>=◌, e, lost) refl
                    | inr (r, made) ↦ rw (hosted, ◌>>=◌, e, made) refl
                  ]
              | inl (no_upstream, e) ↦ rw (hosted, ◌>>=◌, e) refl
              | inr (route, e) ↦ elim (Exec-cases (get_http_upstream rt.router route.service)) [
                | inl lost ↦ rw (hosted, ◌>>=◌, e, lost) refl
                | inr ((found, router'), at) ↦ elim (Result-cases found) [
                  | inl (_, none_left) ↦ elim (Exec-cases (response_with_status ext 503)) [
                    | inl lost ↦ rw (hosted, ◌>>=◌, e, at, none_left, lost) refl
                    | inr (r, made) ↦ rw (hosted, ◌>>=◌, e, at, none_left, made) refl
                  ]
                  | inr (upstream, picked) ↦
                      elim (Exec-cases (
                        create_chain ext init (
                          route_middlewares rt.applied_config.http.middlewares
                            route.middlewares))) [
                              | inl lost ↦ rw (hosted, ◌>>=◌, e, at, picked, lost) refl
                              | inr (chain, created) ↦
                                  rw
                                    (
                                      hosted,
                                      ◌>>=◌,
                                      e,
                                      at,
                                      picked,
                                      created,
                                      complete-entering ext
                                          (send_upstream ext upstream.target ip_addr) chain req w,
                                    )
                                    refl
                            ]
                ]
              ]
            ]
      ]

  -- With nothing in between, the lookup of a request and then the steps of its chain, as many as are
  -- left after the lookup, come to an answer, and are what `handle_client` does, panics included.
  pub handle_client-settle_pending :
      (ip_addr : IpAddr) (listener : Str) (rt : GatewayRuntime) (req : Request ext) (w : World ext)
      → handle_client ext ip_addr listener rt req w ≡ (
          begin_request ext ip_addr listener rt req >>= λ begun.
          settle_pending (pending_left begun.0) (begun.0, w) >>= λ x.
          unwrap (answer_of ext x.0) >>= λ r. returned (r, begun.1, x.1))
  handle_client-settle_pending ip_addr listener rt req w =
      handle_client-begin_request ip_addr listener rt req w
      ∙ >>=-congr (begin_request ext ip_addr listener rt req) λ begun.
        let steps = settle_pending (pending_left begun.0) (begun.0, w) in
        rw (← settle_pending-finish_request begun.0 w)
          (>>=_assoc steps _ _ ∙ >>=-congr steps (λ x. >>=_assoc (unwrap (answer_of ext x.0)) _ _))

  -- Steps of one request in a row are steps of the gateway.
  pub Flies-settle_pending :
      (n : ℕ) {path : Option Str} {start s : Flight ext} (before : List (Pending ext))
      (p p' : Pending ext) (after : List (Pending ext)) (w' : World ext)
      → Flies ext path start s
      → s.pending ≡ before ++ p ∷ after
      → settle_pending n (p, s.world) ≡ returned (p', w')
      → Flies ext path start (record s { pending = before ++ p' ∷ after; world = w' })
  unfolding settle_pending
  Flies-settle_pending zero {path} {start} {s} before p p' after w' flies split e =
      let (same, same') = returned-state e in
      let now : s ≡ record s { pending = before ++ p' ∷ after; world = w' } =
        ap₂ (λ ps w. record s { pending = ps; world = w })
          (split ∙ ap (λ q. before ++ q ∷ after) same) same' in
      subst (λ x. Flies ext path start x) now flies
  Flies-settle_pending (suc n) {path} {start} {s} before p p' after w' flies split e =
      let ((p₁, w₁), e', first) = >>=-returned_inv (step_pending ext p s.world) _ e in
      let s₁ : Flight ext = record s { pending = before ++ p₁ ∷ after; world = w₁ } in
      Flies-settle_pending n {s = s₁} before p₁ p' after w'
        (then_flies {t = s₁} flies (moves before p p₁ after split first refl refl refl refl)) refl
        e'
