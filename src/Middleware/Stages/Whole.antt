-- ===== src/Middleware/Stages/Whole.antt =====
-- The steps of a request through its middlewares are what `Next::run` (src/middleware/mod.rs) does, and
-- they come to an end.
use portiq.Base.{
  ℕ, zero, suc, ◌+◌, ◌-◌, ◌*◌, ◌≤◌, ◌≡◌, refl, List, [], ◌∷◌, ◌++◌, Exec, returned, ◌>>=◌,
  >>=_assoc, >>=-returned, Bool-cases, Option-cases, Exec-cases, sym, >>=-returned_inv,
  returned-state, inl, inr, length, arith,
}
use portiq.Config.Validate.{is_none}
use portiq.RateLimiter.{allow, retry_after}
use portiq.Middleware.Extern.{Crates}
use portiq.Middleware.{
  Request, Response, World, HandlerFunc, Middleware, request_id, access_logger, add_prefix,
  rate_limiter, request_id_header, query_params, limit_key, too_many_requests, or_else, call,
  call_request_id, call_access_logger, call_add_prefix, call_rate_limiter, run,
}
use portiq.Middleware.Stages.{
  Stage, entering, refused, leaving, Call, log_answer, enter_request_id, enter_add_prefix, enter,
  step_from, step,
}

module _ (ext : Crates) where
  -- What is left of a request, in one go.
  pub unwind : List (Request ext × ℕ) → Response ext → World ext → World ext
  unwind [] response w = w
  unwind ((req, start) ∷ loggers) response w =
      unwind loggers response (log_answer ext req start response w)

  abbrev pub unwind_all :
      List (Request ext × ℕ) → Response ext × World ext → Exec (Response ext × World ext)
  unwind_all loggers (response, w) = returned (response, unwind loggers response w)

  pub complete_from :
      HandlerFunc ext
      → Stage ext
      → List (Request ext × ℕ)
      → World ext
      → Exec (Response ext × World ext)
  complete_from handler (entering middlewares req) loggers w =
      run ext handler middlewares req w >>= unwind_all loggers
  complete_from handler (refused key) loggers w =
      too_many_requests ext (or_else (retry_after ext.float w.store key) 0) >>= λ response.
      unwind_all loggers (response, w)
  complete_from handler (leaving response) loggers w = unwind_all loggers (response, w)

  abbrev pub complete : HandlerFunc ext → Call ext × World ext → Exec (Response ext × World ext)
  complete handler (c, w) = complete_from handler c.stage c.loggers w

  -- A request before its chain has the whole chain left.
  pub complete-entering :
      (handler : HandlerFunc ext) (middlewares : List (Middleware ext)) (req : Request ext)
      (w : World ext)
      → complete handler (record { stage = entering middlewares req; loggers = [] }, w)
        ≡ run ext handler middlewares req w
  unfolding complete_from unwind
  complete-entering handler middlewares req w = >>=-returned (run ext handler middlewares req w)

  enter-complete :
      (handler : HandlerFunc ext) (m : Middleware ext) (rest : List (Middleware ext))
      (req : Request ext) (loggers : List (Request ext × ℕ)) (w : World ext)
      → (enter ext m rest req loggers w >>= complete handler)
        ≡ (call ext m (run ext handler rest) req w >>= unwind_all loggers)
  unfolding enter complete_from call call_request_id call_access_logger call_add_prefix
      call_rate_limiter enter_request_id enter_add_prefix unwind log_answer
  enter-complete handler request_id rest req loggers w =
      elim (Bool-cases (is_none (ext.get req.headers request_id_header))) [
        | inl e ↦ elim (Option-cases (ext.from_str (ext.new_v4 w.ids))) [
          | inl fails ↦ rw (e, fails) refl
          | inr (value, made) ↦ rw (e, made) refl
        ]
        | inr e ↦ rw e refl
      ]
  enter-complete handler access_logger rest req loggers w =
      sym (>>=_assoc (run ext handler rest req (record w { instants = suc w.instants })) _ _)
  enter-complete handler (add_prefix prefix) rest req loggers w =
      let whole = (prefix ++ ext.path req.uri) ++ query_params ext (ext.query req.uri) in
      elim (Option-cases (ext.parse_path_and_query whole)) [
        | inl fails ↦ rw fails refl
        | inr (pq, parsed) ↦ elim (Option-cases (ext.with_path_and_query req.uri pq)) [
          | inl fails ↦ rw (parsed, fails) refl
          | inr (uri, made) ↦ rw (parsed, made) refl
        ]
      ]
  enter-complete handler (rate_limiter limiter) rest req loggers w =
      elim (Bool-cases
        (allow ext.float limiter w.store (limit_key ext limiter.source req) (ext.instant w.instants)
          (ext.instant (suc w.instants))).0) [
            | inl e ↦ rw e refl
            | inr e ↦ rw e (sym (>>=_assoc (too_many_requests ext _) _ _))
          ]

  step-complete :
      (handler : HandlerFunc ext) (stage : Stage ext) (loggers : List (Request ext × ℕ))
      (w : World ext)
      → (step_from ext handler stage loggers w >>= complete handler)
        ≡ complete_from handler stage loggers w
  unfolding step_from complete_from run unwind
  step-complete handler (entering [] req) loggers w = >>=_assoc (handler req w) _ _
  step-complete handler (entering (current ∷ rest) req) loggers w =
      enter-complete handler current rest req loggers w
  step-complete handler (refused key) loggers w = >>=_assoc (too_many_requests ext _) _ _
  step-complete handler (leaving response) [] w = refl
  step-complete handler (leaving response) ((req, start) ∷ loggers) w = refl

  -- How many steps are left at most.
  unfoldable pub steps_left : Stage ext → List (Request ext × ℕ) → ℕ
  steps_left (entering middlewares req) loggers = 2 * length middlewares + length loggers + 2
  steps_left (refused key) loggers = length loggers + 1
  steps_left (leaving response) loggers = length loggers

  enter-steps_left :
      (m : Middleware ext) (rest : List (Middleware ext)) (req : Request ext)
      (loggers : List (Request ext × ℕ)) (w : World ext) {c : Call ext} {w' : World ext}
      → enter ext m rest req loggers w ≡ returned (c, w')
      → steps_left c.stage c.loggers ≤ 2 * length rest + length loggers + 3
  unfolding enter steps_left
  enter-steps_left request_id rest req loggers w h =
      let (_, h', _) = >>=-returned_inv (enter_request_id ext req w) _ h in
      rw (← (returned-state h').0) (omega arith)
  enter-steps_left access_logger rest req loggers w h = rw (← (returned-state h).0) (omega arith)
  enter-steps_left (add_prefix prefix) rest req loggers w h =
      let (_, h', _) = >>=-returned_inv (enter_add_prefix ext prefix req w) _ h in
      rw (← (returned-state h').0) (omega arith)
  enter-steps_left (rate_limiter limiter) rest req loggers w h =
      elim (Bool-cases
        (allow ext.float limiter w.store (limit_key ext limiter.source req) (ext.instant w.instants)
          (ext.instant (suc w.instants))).0) [
            | inl e ↦ rw (← (returned-state (rw e at h)).0) (omega arith)
            | inr e ↦ rw (← (returned-state (rw e at h)).0) (omega arith)
          ]

  -- Each step is one less, until none is left.
  pub step-steps_left :
      (handler : HandlerFunc ext) (stage : Stage ext) (loggers : List (Request ext × ℕ))
      (w : World ext) {c : Call ext} {w' : World ext}
      → step_from ext handler stage loggers w ≡ returned (c, w')
      → steps_left c.stage c.loggers ≤ steps_left stage loggers - 1
  unfolding step_from steps_left
  step-steps_left handler (entering [] req) loggers w h =
      let (_, h', _) = >>=-returned_inv (handler req w) _ h in
      rw (← (returned-state h').0) (omega arith)
  step-steps_left handler (entering (current ∷ rest) req) loggers w h =
      omega (arith, enter-steps_left current rest req loggers w h)
  step-steps_left handler (refused key) loggers w h =
      let (_, h', _) = >>=-returned_inv (too_many_requests ext _) _ h in
      rw (← (returned-state h').0) (omega arith)
  step-steps_left handler (leaving response) [] w h = rw (← (returned-state h).0) (omega arith)
  step-steps_left handler (leaving response) ((req, start) ∷ loggers) w h =
      rw (← (returned-state h).0) (omega arith)

  -- So many steps of one request, with nothing in between.
  unfoldable pub settle : HandlerFunc ext → ℕ → Call ext × World ext → Exec (Call ext × World ext)
  settle handler zero (c, w) = returned (c, w)
  settle handler (suc n) (c, w) = step ext handler c w >>= settle handler n

  abbrev pub finished : Response ext → Call ext
  finished response = record { stage = leaving response; loggers = [] }

  settle-done :
      (handler : HandlerFunc ext) (stage : Stage ext) (loggers : List (Request ext × ℕ))
      (w : World ext)
      → steps_left stage loggers ≤ 0
      → Path
          (Exec (Call ext × World ext))
          (returned (record { stage = stage; loggers = loggers }, w))
          (complete_from handler stage loggers w >>= λ x. returned (finished x.0, x.1))
  unfolding steps_left complete_from unwind
  settle-done handler (entering middlewares req) loggers w h = absurd (omega arith)
  settle-done handler (refused key) loggers w h = absurd (omega arith)
  settle-done handler (leaving response) [] w h = refl
  settle-done handler (leaving response) (logger ∷ loggers) w h = absurd (omega arith)

  -- Enough steps with nothing in between are the rest of the chain in one go.
  pub settle-complete :
      (handler : HandlerFunc ext) (n : ℕ) (c : Call ext) (w : World ext)
      → steps_left c.stage c.loggers ≤ n
      → settle handler n (c, w) ≡ (complete handler (c, w) >>= λ x. returned (finished x.0, x.1))
  unfolding settle
  settle-complete handler zero c w h = settle-done handler c.stage c.loggers w h
  settle-complete handler (suc n) c w h = elim (Exec-cases (step ext handler c w)) [
    | inl panics ↦ rw (panics, ← step-complete handler c.stage c.loggers w, panics) refl
    | inr ((c', w'), e) ↦
        let fewer = step-steps_left handler c.stage c.loggers w e in
        rw (e, ← step-complete handler c.stage c.loggers w, e)
          (settle-complete handler n c' w' (omega arith))
  ]
