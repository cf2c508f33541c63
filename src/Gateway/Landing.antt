-- ===== src/Gateway/Landing.antt =====
-- A request in flight (`next.run(request).await` in src/server/http.rs) comes to its answer, whatever
-- others do to the state between its steps.
use portiq.Base.{
  ℕ, suc, ◌-◌, ◌≤◌, ◌≡◌, inl, inr, refl, List, [], ◌∷◌, some, text, Exec, returned, ◌>>=◌, All,
  length, Bool-cases, arith,
}
use portiq.RateLimiter.{allow, retry_after}
use portiq.Middleware.Extern.{Crates, IsHyper}
use portiq.Middleware.{
  Request, Response, World, HandlerFunc, Middleware, request_id, access_logger, add_prefix,
  rate_limiter, limit_key, or_else, too_many_requests,
}
use portiq.Middleware.Keys.{enter_request_id-Identified}
use portiq.Middleware.Stages.{
  Stage, entering, refused, leaving, Call, enter_add_prefix, enter, step_from,
}
use portiq.Middleware.Stages.Whole.{steps_left, step-steps_left}
use portiq.Server.{send_upstream}
use portiq.Server.Total.{IsReadable}
use portiq.Server.Chained.{IsUri, Works, Serves, Identified-IsReadable, prefixed-IsReadable}
use portiq.Server.Answered.{Arrives, send_upstream-Serves}
use portiq.Gateway.Flight.{Pending, replied, queued, step_pending, answer_from, answer_of}
use portiq.Gateway.Split.{pending_left}

module _ (ext : Crates) where
  -- What is left of the chain works, and the request can be read.
  abbrev pub Steady : Stage ext → Type 0
  Steady (entering middlewares req) = All (Works ext) middlewares × IsReadable ext req
  Steady (refused key) = Unit
  Steady (leaving response) = Unit

  abbrev pub SteadyPending : Pending ext → Type 0
  SteadyPending (replied response) = Unit
  SteadyPending (queued ip_addr upstream c) = Steady c.stage

  module _ (laws : IsHyper ext) (uris : IsUri ext) where
    too_many_requests_total :
        (seconds : ℕ) → (r : Response ext) × (too_many_requests ext seconds ≡ returned r)
    unfolding too_many_requests
    too_many_requests_total seconds =
        let (v, e) = laws.from_str-visible (text "portiq") (omega arith) in
        (
          record {
            status = 429;
            headers = (text "Server", v) ∷ (text "Retry-After", ext.from_u64 seconds) ∷ [];
            body = [];
          },
          rw e refl,
        )

    enter_total :
        (m : Middleware ext) (rest : List (Middleware ext)) (req : Request ext)
        (loggers : List (Request ext × ℕ)) (w : World ext)
        → Works ext m
        → All (Works ext) rest
        → IsReadable ext req
        → (c : Call ext) × (w' : World ext) × (enter ext m rest req loggers w ≡ returned (c, w'))
          × Steady c.stage
    unfolding enter enter_add_prefix
    enter_total request_id rest req loggers w work works readable =
        let (req', identified, e) = enter_request_id-Identified ext laws req w in
        (
          record { stage = entering rest req'; loggers = loggers },
          record w { ids = suc w.ids },
          rw e refl,
          (works, Identified-IsReadable ext laws req req' identified readable),
        )
    enter_total access_logger rest req loggers w work works readable =
        (_, _, refl, (works, readable))
    enter_total (add_prefix prefix) rest req loggers w work works readable =
        let (pq, uri', e, e', readable') = prefixed-IsReadable ext uris prefix work req readable in
        (
          record { stage = entering rest (record req { uri = uri' }); loggers = loggers },
          w,
          rw (e, e') refl,
          (works, readable'),
        )
    enter_total (rate_limiter limiter) rest req loggers w work works readable =
        let key = limit_key ext limiter.source req in
        let called =
          allow ext.float limiter w.store key (ext.instant w.instants)
            (ext.instant (suc w.instants)) in
        let w' : World ext = record w { store = called.1; instants = suc (suc w.instants) } in
        elim (Bool-cases called.0) [
          | inl e ↦ (
            record { stage = entering rest req; loggers = loggers },
            w',
            rw e refl,
            (works, readable),
          )
          | inr e ↦ (record { stage = refused key; loggers = loggers }, w', rw e refl, tt)
        ]

    step_from_total :
        (handler : HandlerFunc ext) (stage : Stage ext) (loggers : List (Request ext × ℕ))
        (w : World ext)
        → Serves ext handler
        → Steady stage
        → (c : Call ext) × (w' : World ext) × (step_from ext handler stage loggers w
            ≡ returned (c, w'))
          × Steady c.stage
    unfolding step_from
    step_from_total handler (entering [] req) loggers w serves (_, readable) =
        let (r, w', e) = serves req w readable in
        (record { stage = leaving r; loggers = loggers }, w', rw e refl, tt)
    step_from_total handler (entering (m ∷ rest) req) loggers w serves (works, readable) =
        enter_total m rest req loggers w works.0 works.1 readable
    step_from_total handler (refused key) loggers w serves steady =
        let (r, e) = too_many_requests_total (or_else (retry_after ext.float w.store key) 0) in
        (record { stage = leaving r; loggers = loggers }, w, rw e refl, tt)
    step_from_total handler (leaving response) [] w serves steady = (_, _, refl, tt)
    step_from_total handler (leaving response) (logger ∷ loggers) w serves steady = (_, _, refl, tt)

    step_pending_total :
        (arrives : Arrives ext) (p : Pending ext) (w : World ext)
        → SteadyPending p
        → (p' : Pending ext) × (w' : World ext) × (step_pending ext p w ≡ returned (p', w'))
          × SteadyPending p'
          × (pending_left ext p' ≤ pending_left ext p - 1)
    unfolding step_pending
    step_pending_total arrives (replied response) w steady =
        (replied response, w, refl, tt, omega arith)
    step_pending_total arrives (queued ip_addr upstream c) w steady =
        let handler = send_upstream ext upstream.target ip_addr in
        let (c', w', e, steady') =
          step_from_total handler c.stage c.loggers w
            (send_upstream-Serves ext laws uris arrives upstream.target ip_addr) steady in
        (
          queued ip_addr upstream c',
          w',
          rw e refl,
          steady',
          step-steps_left ext handler c.stage c.loggers w e,
        )

  -- The steps of a request, with what others do to the state before each.
  unfoldable pub settle_among :
      List (World ext → World ext) → Pending ext × World ext → Exec (Pending ext × World ext)
  settle_among [] (p, w) = returned (p, w)
  settle_among (others ∷ rest) (p, w) = step_pending ext p (others w) >>= settle_among rest

  answer_from_total :
      (stage : Stage ext) (loggers : List (Request ext × ℕ))
      → steps_left ext stage loggers ≤ 0
      → (r : Response ext) × (answer_from ext stage loggers ≡ some r)
  unfolding steps_left
  answer_from_total (entering middlewares req) loggers h = absurd (omega arith)
  answer_from_total (refused key) loggers h = absurd (omega arith)
  answer_from_total (leaving response) [] h = (response, refl)
  answer_from_total (leaving response) (logger ∷ loggers) h = absurd (omega arith)

  answer_of_total :
      (p : Pending ext) → pending_left ext p ≤ 0 → (r : Response ext) × (answer_of ext p ≡ some r)
  answer_of_total (replied response) h = (response, refl)
  answer_of_total (queued ip_addr upstream c) h = answer_from_total c.stage c.loggers h

  -- If http and its URIs behave as documented and the bodies of upstreams arrive, a request in flight
  -- that can be read, with what is left of its chain working, comes to an answer without a panic within
  -- as many steps as it has left at most, whatever others do to the state before each of them.
  pub settle_among_total :
      (laws : IsHyper ext) (uris : IsUri ext) (arrives : Arrives ext) (p : Pending ext)
      (w : World ext) (others : List (World ext → World ext))
      → SteadyPending p
      → pending_left ext p ≤ length others
      → (p' : Pending ext) × (w' : World ext) × (r : Response ext) × (settle_among others (p, w)
          ≡ returned (p', w'))
        × (answer_of ext p' ≡ some r)
  unfolding settle_among
  settle_among_total laws uris arrives p w [] steady h =
      let (r, e) = answer_of_total p h in (p, w, r, refl, e)
  settle_among_total laws uris arrives p w (other ∷ others) steady h =
      let (p₁, w₁, e, steady', fewer) = step_pending_total laws uris arrives p (other w) steady in
      let (p', w', r, e', answers) =
        settle_among_total laws uris arrives p₁ w₁ others steady' (omega arith) in
      (p', w', r, rw e e', answers)
