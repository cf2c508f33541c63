-- ===== src/Middleware/Stages/Tally.antt =====
-- The access log (src/middleware/access_logger.rs) while requests overlap: each has one entry, with the
-- status of its answer, from when it is done.
use portiq.Base.{
  one_if, ℕ, suc, ◌+◌, ◌≡◌, inl, inr, refl, sym, ap, List, [], ◌∷◌, ◌++◌, map, Str, eqb, returned,
  unwrap, >>=-returned_inv, returned-state, Bool-cases, arith,
}
use portiq.Config
use portiq.Config.{MiddlewareConfig}
use portiq.Config.Validate.{is_none}
use portiq.RateLimiter.{Limiter, allow}
use portiq.Middleware.Extern.{Crates}
use portiq.Middleware.{
  Request, Response, World, HandlerFunc, Middleware, request_id, access_logger, request_id_header,
  AccessEntry, limit_key, too_many_requests,
}
use portiq.Middleware.Registry.{middleware_of}
use portiq.Middleware.Logged.{IsSilent}
use portiq.Middleware.Stages.{
  Stage, entering, refused, leaving, Call, log_answer, enter_request_id, enter_add_prefix, enter,
  step_from,
}

-- How many entries have a status.
unfoldable pub entries_with : ℕ → List AccessEntry → ℕ
entries_with status [] = 0
entries_with status (entry ∷ entries) =
    one_if (eqb entry.status status) + entries_with status entries

pub entries_with-append :
    (status : ℕ) (xs ys : List AccessEntry)
    → entries_with status (xs ++ ys) ≡ entries_with status xs + entries_with status ys
unfolding entries_with
entries_with-append status [] ys = omega arith
entries_with-append status (x ∷ xs) ys = omega (arith, entries_with-append status xs ys)

module _ (ext : Crates) where
  abbrev configured : List MiddlewareConfig → List (Middleware ext)
  configured configs = map (middleware_of ext) configs

  -- Where a request through a created chain may be.
  pub data Shaped : Stage ext → List (Request ext × ℕ) → Type 0 where
    fresh :
        {middlewares : List (Middleware ext)} {req : Request ext} (configs : List MiddlewareConfig)
        → middlewares ≡ request_id ∷ access_logger ∷ configured configs
        → Shaped (entering middlewares req) []
    identified :
        {middlewares : List (Middleware ext)} {req : Request ext} (configs : List MiddlewareConfig)
        → middlewares ≡ access_logger ∷ configured configs
        → Shaped (entering middlewares req) []
    logged :
        {middlewares : List (Middleware ext)} {req : Request ext} {logger : Request ext × ℕ}
        (configs : List MiddlewareConfig)
        → middlewares ≡ configured configs
        → Shaped (entering middlewares req) (logger ∷ [])
    limited : {key : Str} {logger : Request ext × ℕ} → Shaped (refused key) (logger ∷ [])
    answered :
        {response : Response ext} {logger : Request ext × ℕ}
        → Shaped (leaving response) (logger ∷ [])
    done : {response : Response ext} → Shaped (leaving response) []

  -- One for a request that is done with a status.
  abbrev pub done_with : ℕ → Stage ext → List (Request ext × ℕ) → ℕ
  done_with status (leaving response) [] = one_if (eqb response.status status)
  done_with status stage loggers = 0

  -- A step that leaves the log, after which the request is not done; and one of which the log gains
  -- what is done.
  abbrev Quiet : World ext → Call ext → World ext → Type 0
  Quiet w c w' =
      Shaped c.stage c.loggers
      × (w'.access_log ≡ w.access_log)
      × ((status : ℕ) → done_with status c.stage c.loggers ≡ 0)

  abbrev pub Balanced :
      Stage ext → List (Request ext × ℕ) → World ext → Call ext → World ext → Type 0
  Balanced stage loggers w c w' =
      Shaped c.stage c.loggers
      × ((status : ℕ)
          → entries_with status w'.access_log + done_with status stage loggers
            ≡ entries_with status w.access_log + done_with status c.stage c.loggers)

  enter_request_id-Quiet :
      (configs : List MiddlewareConfig) (req : Request ext) (w : World ext) {c : Call ext}
      {w' : World ext}
      → enter ext request_id (access_logger ∷ configured configs) req [] w ≡ returned (c, w')
      → Quiet w c w'
  unfolding enter enter_request_id
  enter_request_id-Quiet configs req w h =
      let ((req', w₁), h', e) = >>=-returned_inv (enter_request_id ext req w) _ h in
      let (same, same') = returned-state h' in
      let log : w₁.access_log ≡ w.access_log =
        elim (Bool-cases (is_none (ext.get req.headers request_id_header))) [
          | inl absent ↦
              let (_, made, _) =
                >>=-returned_inv (unwrap (ext.from_str (ext.new_v4 w.ids))) _ (rw absent at e) in
              ap (λ x. x.access_log) (sym (returned-state made).1)
          | inr present ↦ ap (λ x. x.access_log) (sym (returned-state (rw present at e)).1)
        ] in
      rw (← same, ← same') (identified configs refl, log, λ status. refl)

  -- Into a middleware of the configuration.
  enter-configured-Quiet :
      (config : MiddlewareConfig) (configs : List MiddlewareConfig) (req : Request ext)
      (logger : Request ext × ℕ) (w : World ext) {c : Call ext} {w' : World ext}
      → enter ext (middleware_of ext config) (configured configs) req (logger ∷ []) w
        ≡ returned (c, w')
      → Quiet w c w'
  unfolding enter enter_add_prefix
  enter-configured-Quiet (Config.add_prefix cfg) configs req logger w h =
      let ((req', w₁), h', e) = >>=-returned_inv (enter_add_prefix ext cfg.prefix req w) _ h in
      let (_, e₁, _) = >>=-returned_inv (unwrap (ext.parse_path_and_query _)) _ e in
      let (_, e₂, _) = >>=-returned_inv (unwrap (ext.with_path_and_query req.uri _)) _ e₁ in
      let (same, same') = returned-state h' in
      rw (← same, ← same')
        (logged configs refl, ap (λ x. x.access_log) (sym (returned-state e₂).1), λ status. refl)
  enter-configured-Quiet (Config.rate_limit cfg) configs req logger w h =
      let key = limit_key ext cfg.source req in
      let limiter : Limiter ext.float = record {
        source = cfg.source;
        limit = cfg.limit;
        duration = cfg.period;
      } in
      elim (Bool-cases
        (allow ext.float limiter w.store key (ext.instant w.instants)
          (ext.instant (suc w.instants))).0) [
            | inl e ↦
                let (same, same') = returned-state (rw e at h) in
                rw (← same, ← same') (logged configs refl, refl, λ status. refl)
            | inr e ↦
                let (same, same') = returned-state (rw e at h) in
                rw (← same, ← same') (limited, refl, λ status. refl)
          ]

  -- A step of a request through a created chain: the log gains an entry, with the status of the answer,
  -- exactly if the request is done by it.
  pub step_from-Balanced :
      (handler : HandlerFunc ext) (stage : Stage ext) (loggers : List (Request ext × ℕ))
      (w : World ext) {c : Call ext} {w' : World ext}
      → IsSilent ext handler
      → Shaped stage loggers
      → step_from ext handler stage loggers w ≡ returned (c, w')
      → Balanced stage loggers w c w'
  unfolding step_from enter log_answer entries_with
  step_from-Balanced handler stage loggers w silent (fresh {req} configs e) h =
      let (shaped, log, undone) = enter_request_id-Quiet configs req w (rw e at h) in
      (shaped, λ status. rw (log, undone status) refl)
  step_from-Balanced handler stage loggers w silent (identified {req} configs e) h =
      let (same, same') = returned-state (rw e at h) in
      rw (← same, ← same') (logged configs refl, λ status. refl)
  step_from-Balanced handler stage loggers w silent (logged {req} {logger} [] e) h =
      let ((r, w₁), h', run) = >>=-returned_inv (handler req w) _ (rw e at h) in
      let (same, same') = returned-state h' in
      let log = silent req w r w₁ run in rw (← same, ← same') (answered, λ status. rw log refl)
  step_from-Balanced handler stage loggers w silent (logged {req} {logger} (config ∷ configs) e) h =
      let (shaped, log, undone) = enter-configured-Quiet config configs req logger w (rw e at h) in
      (shaped, λ status. rw (log, undone status) refl)
  step_from-Balanced handler stage loggers w silent (limited {key} {logger}) h =
      let (_, h', _) = >>=-returned_inv (too_many_requests ext _) _ h in
      let (same, same') = returned-state h' in rw (← same, ← same') (answered, λ status. refl)
  step_from-Balanced handler stage loggers w silent (answered {response} {logger}) h =
      let (same, same') = returned-state h in
      rw (← same, ← same') (done, λ status. omega (arith, entries_with-append status w.access_log))
  step_from-Balanced handler stage loggers w silent (done {response}) h =
      let (same, same') = returned-state h in rw (← same, ← same') (done, λ status. refl)
