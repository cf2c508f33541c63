-- ===== src/Gateway/Tally.antt =====
-- The access log (src/middleware/access_logger.rs) of the gateway while requests overlap.
use portiq.Base.{
  ℕ, ◌+◌, ◌≡◌, inl, inr, refl, sym, ◌∙◌, List, [], ◌∷◌, ◌++◌, Option, Str, returned, All,
  All-append, All-append_inv, >>=-returned_inv, returned-state, returned-injective, Result-cases,
  arith,
}
use portiq.Config.{IpAddr, MiddlewareConfig}
use portiq.Router.{not_found, no_upstream, status_code, get_http_route, get_http_upstream}
use portiq.Runtime.{GatewayRuntime}
use portiq.Middleware.Extern.{Crates}
use portiq.Middleware.{Request, World, Middleware}
use portiq.Middleware.Registry.{init, create_chain}
use portiq.Middleware.Chain.{create_chain-cases}
use portiq.Middleware.Stages.{entering, step}
use portiq.Middleware.Stages.Tally.{entries_with, Shaped, fresh, done_with, step_from-Balanced}
use portiq.Server.{original_host, route_middlewares, response_with_status, send_upstream}
use portiq.Server.Upstreams.{send_upstream-IsSilent}
use portiq.Gateway.{first_world}
use portiq.Gateway.Flight.{
  Pending, replied, queued, begin_request, step_pending, Flight, FlightStep, begins, moves, leaves,
  proxies, prepares, stores, Flies, took_off, then_flies,
}

module _ (ext : Crates) where
  -- One for a request that its chain has answered with a status, and how many of a list are such.
  abbrev pub chained_with : ℕ → Pending ext → ℕ
  chained_with status (replied response) = 0
  chained_with status (queued ip_addr upstream c) = done_with ext status c.stage c.loggers

  unfoldable pub total_with : ℕ → List (Pending ext) → ℕ
  total_with status [] = 0
  total_with status (p ∷ ps) = chained_with status p + total_with status ps

  total_with-append :
      (status : ℕ) (ps qs : List (Pending ext))
      → total_with status (ps ++ qs) ≡ total_with status ps + total_with status qs
  unfolding total_with
  total_with-append status [] qs = omega arith
  total_with-append status (p ∷ ps) qs = omega (arith, total_with-append status ps qs)

  abbrev ShapedPending : Pending ext → Type 0
  ShapedPending (replied response) = Unit
  ShapedPending (queued ip_addr upstream c) = Shaped ext c.stage c.loggers

  created-Shaped :
      (configs : List MiddlewareConfig) (chain : List (Middleware ext)) {req : Request ext}
      → create_chain ext init configs ≡ returned chain
      → Shaped ext (entering chain req) []
  created-Shaped configs chain created = elim (create_chain-cases ext configs) [
    | inl (_, made) ↦ fresh configs (returned-injective (sym created ∙ made))
    | inr (_, panics) ↦ cc
  ]

  -- A request that has been looked up is before its chain, or has none.
  begin_request-Shaped :
      (ip_addr : IpAddr) (listener : Str) (rt : GatewayRuntime) (req : Request ext)
      {p : Pending ext} {rt' : GatewayRuntime}
      → begin_request ext ip_addr listener rt req ≡ returned (p, rt')
      → ShapedPending p × ((status : ℕ) → chained_with status p ≡ 0)
  unfolding begin_request
  begin_request-Shaped ip_addr listener rt req h =
      let (host, h₁, _) = >>=-returned_inv (original_host ext req) _ h in
      elim (Result-cases (get_http_route rt.router host (ext.path req.uri) listener)) [
        | inl (not_found, e) ↦
            let (_, h₂, _) =
              >>=-returned_inv (response_with_status ext (status_code not_found)) _ (rw e at h₁) in
            rw (← (returned-state h₂).0) (tt, λ status. refl)
        | inl (no_upstream, e) ↦ cc (rw e at h₁)
        | inr (route, e) ↦
            let ((found, router'), h₂, at) =
              >>=-returned_inv (get_http_upstream rt.router route.service) _ (rw e at h₁) in
            elim (Result-cases found) [
              | inl (er, e') ↦
                  let (_, h₃, _) =
                    >>=-returned_inv (response_with_status ext 503) _ (rw e' at h₂) in
                  rw (← (returned-state h₃).0) (tt, λ status. refl)
              | inr (upstream, e') ↦
                  let configs =
                    route_middlewares rt.applied_config.http.middlewares route.middlewares in
                  let (chain, h₃, created) =
                    >>=-returned_inv (create_chain ext init configs) _ (rw e' at h₂) in
                  rw (← (returned-state h₃).0)
                    (created-Shaped configs chain created, λ status. refl)
            ]
      ]

  step_pending-Balanced :
      (p : Pending ext) (w : World ext) {p' : Pending ext} {w' : World ext}
      → ShapedPending p
      → step_pending ext p w ≡ returned (p', w')
      → ShapedPending p'
        × ((status : ℕ)
            → entries_with status w'.access_log + chained_with status p
              ≡ entries_with status w.access_log + chained_with status p')
  unfolding step_pending
  step_pending-Balanced (replied response) w shaped h =
      let (same, same') = returned-state h in rw (← same, ← same') (tt, λ status. refl)
  step_pending-Balanced (queued ip_addr upstream c) w shaped h =
      let handler = send_upstream ext upstream.target ip_addr in
      let ((c', w₁), h', e) = >>=-returned_inv (step ext handler c w) _ h in
      let (same, same') = returned-state h' in
      rw (← same, ← same')
        (step_from-Balanced ext handler c.stage c.loggers w
          (send_upstream-IsSilent ext upstream.target ip_addr) shaped e)

  -- Every request is where a created chain has it, and the log has as many entries of each status as
  -- there are requests that a chain has answered with it.
  pub record IsTallied (f : Flight ext) : Type 0 where
    pub shaped : All ShapedPending f.pending
    pub tallied :
        (status : ℕ)
        → entries_with status f.world.access_log
          ≡ total_with status f.pending + total_with status f.answered

  -- A step that touches neither log nor requests.
  still-IsTallied :
      {s t : Flight ext}
      → t.world ≡ s.world
      → t.pending ≡ s.pending
      → t.answered ≡ s.answered
      → IsTallied s
      → IsTallied t
  still-IsTallied e e' e₃ v = record {
    shaped = rw e' v.shaped;
    tallied = λ status. rw (e, e', e₃) (v.tallied status);
  }

  FlightStep-IsTallied :
      {path : Option Str} {s t : Flight ext} → FlightStep ext path s t → IsTallied s → IsTallied t
  unfolding total_with
  FlightStep-IsTallied {s} {t} (begins ip_addr listener req p e quiet added same _) v =
      let (shaped, undone) = begin_request-Shaped ip_addr listener s.runtime req e in
      record {
        shaped = rw added (All-append ShapedPending s.pending (p ∷ []) v.shaped (shaped, tt));
        tallied = λ status.
            rw (quiet, added, same)
              (omega (
                arith,
                v.tallied status,
                undone status,
                total_with-append status s.pending (p ∷ []),
              ));
      }
  FlightStep-IsTallied {s} {t} (moves before p p' after split e quiet moved same _) v =
      let (left, (own, right)) =
        All-append_inv ShapedPending before (p ∷ after) (rw split at v.shaped) in
      let (own', balance) = step_pending-Balanced p s.world own e in
      record {
        shaped = rw moved (All-append ShapedPending before (p' ∷ after) left (own', right));
        tallied = λ status.
            rw (moved, same)
              (omega (
                arith,
                balance status,
                rw split at (v.tallied status),
                total_with-append status before (p ∷ after),
                total_with-append status before (p' ∷ after),
              ));
      }
  FlightStep-IsTallied {s} {t} (leaves before p after r split _ quiet still removed left_with _) v =
      let (left, (own, right)) =
        All-append_inv ShapedPending before (p ∷ after) (rw split at v.shaped) in
      record {
        shaped = rw removed (All-append ShapedPending before after left right);
        tallied = λ status.
            rw (still, removed, left_with)
              (omega (
                arith,
                rw split at (v.tallied status),
                total_with-append status before (p ∷ after),
                total_with-append status before after,
                total_with-append status s.answered (p ∷ []),
              ));
      }
  FlightStep-IsTallied (proxies network listener tls_acceptor result e quiet same same' _) v =
      still-IsTallied quiet same same' v
  FlightStep-IsTallied (prepares read new fits e quiet still same same' _) v =
      still-IsTallied still same same' v
  FlightStep-IsTallied (stores before new after split put still same same' _) v =
      still-IsTallied still same same' v

  Flies-IsTallied :
      {path : Option Str} {start f : Flight ext}
      → start.world.access_log ≡ []
      → start.pending ≡ []
      → start.answered ≡ []
      → Flies ext path start f
      → IsTallied f
  unfolding total_with entries_with
  Flies-IsTallied e e' e₃ took_off = record {
    shaped = rw e' tt;
    tallied = λ status. rw (e, e', e₃) refl;
  }
  Flies-IsTallied e e' e₃ (then_flies flies step) =
      FlightStep-IsTallied step (Flies-IsTallied e e' e₃ flies)

  -- From the first world, however requests, by the steps of their chains, and reloads overlap with one
  -- another and with TCP connections: for every status the access log has as many entries with it as
  -- there are requests that a chain of middlewares has answered with it, whether the answer has left
  -- or not.
  pub first_world-IsTallied :
      (rt : GatewayRuntime) (path : Option Str) {f : Flight ext} (status : ℕ)
      → Flies ext path
          (record {
            runtime = rt;
            world = first_world ext;
            pending = [];
            answered = [];
            prepared = [];
          })
          f
      → entries_with status f.world.access_log
        ≡ total_with status f.pending + total_with status f.answered
  first_world-IsTallied rt path status flies = (Flies-IsTallied refl refl refl flies).tallied status
