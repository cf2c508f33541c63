-- ===== src/Middleware/Stages.antt =====
-- A chain of middlewares (src/middleware) as the steps between which other requests may come: every
-- middleware on the way in, the lookup of a refused request's waiting time, which takes the lock of the
-- store again, and the entries of the access log on the way out.
pub mod Whole
pub mod Kept
pub mod Tally
use portiq.Base.{
  ℕ, zero, suc, ◌+◌, ◌-◌, ◌*◌, ◌≤◌, ◌<◌, ◌≡◌, refl, ap, ◌∙◌, List, [], ◌∷◌, ◌++◌, Option, none,
  some, Str, Exec, returned, panicked, ◌>>=◌, unwrap, if◌then◌else◌, >>=_assoc, >>=-congr,
  Bool-cases, Option-cases, Exec-cases, sym, >>=-returned_inv, returned-state, inl, inr, length,
  arith,
}
use portiq.Config.Validate.{is_none}
use portiq.RateLimiter.{Limiter, allow, retry_after}
use portiq.Middleware.Extern.{Crates}
use portiq.Middleware.{
  Request, Response, World, HandlerFunc, Middleware, request_id, access_logger, add_prefix,
  rate_limiter, request_id_header, entry_of, query_params, limit_key, too_many_requests, or_else,
  call, call_request_id, call_access_logger, call_add_prefix, call_rate_limiter, run,
}

module _ (ext : Crates) where
  -- Where a request is: before the middlewares that are left, refused under a key, or answered.
  pub data Stage : Type 0 where
    entering : List (Middleware ext) → Request ext → Stage
    refused : Str → Stage
    leaving : Response ext → Stage

  -- With the access loggers that it has entered: the request and the instant they have kept.
  pub record Call : Type 0 where
    pub stage : Stage
    pub loggers : List (Request ext × ℕ)

  -- What an access logger does with an answer.
  unfoldable pub log_answer : Request ext → ℕ → Response ext → World ext → World ext
  log_answer req start response w =
      let elapsed = ext.instant w.instants - start in
      record w {
        access_log = w.access_log ++ entry_of ext req response.status elapsed ∷ [];
        instants = suc w.instants;
      }

  unfoldable pub enter_request_id : Request ext → World ext → Exec (Request ext × World ext)
  enter_request_id req w =
      let fresh = ext.new_v4 w.ids in
      let w' = record w { ids = suc w.ids } in
      if is_none (ext.get req.headers request_id_header)
      then (do
        value ← unwrap (ext.from_str fresh)
        returned (record req { headers = ext.insert req.headers request_id_header value }, w'))
      else returned (req, w')

  unfoldable pub enter_add_prefix : Str → Request ext → World ext → Exec (Request ext × World ext)
  enter_add_prefix prefix req w = do
    let prefixed_path = prefix ++ ext.path req.uri
    path_and_query ←
        unwrap (ext.parse_path_and_query (prefixed_path ++ query_params ext (ext.query req.uri)))
    new_uri ← unwrap (ext.with_path_and_query req.uri path_and_query)
    returned (record req { uri = new_uri }, w)

  -- One step into a middleware.
  unfoldable pub enter :
      Middleware ext
      → List (Middleware ext)
      → Request ext
      → List (Request ext × ℕ)
      → World ext
      → Exec (Call × World ext)
  unfolding enter_request_id enter_add_prefix
  enter request_id rest req loggers w = do
    (req', w') ← enter_request_id req w
    returned (record { stage = entering rest req'; loggers = loggers }, w')
  enter access_logger rest req loggers w =
      let start = ext.instant w.instants in
      returned (
        record { stage = entering rest req; loggers = (req, start) ∷ loggers },
        record w { instants = suc w.instants },
      )
  enter (add_prefix prefix) rest req loggers w = do
    (req', w') ← enter_add_prefix prefix req w
    returned (record { stage = entering rest req'; loggers = loggers }, w')
  enter (rate_limiter limiter) rest req loggers w =
      let key = limit_key ext limiter.source req in
      let created = ext.instant w.instants in
      let now = ext.instant (suc w.instants) in
      let (allowed, store') = allow ext.float limiter w.store key created now in
      let w' = record w { store = store'; instants = suc (suc w.instants) } in
      let next = if allowed then entering rest req else refused key in
      returned (record { stage = next; loggers = loggers }, w')

  -- One step of a request; one that has left all its loggers is done, and stays as it is.
  unfoldable pub step_from :
      HandlerFunc ext → Stage → List (Request ext × ℕ) → World ext → Exec (Call × World ext)
  unfolding enter log_answer
  step_from handler (entering [] req) loggers w = do
    (response, w') ← handler req w
    returned (record { stage = leaving response; loggers = loggers }, w')
  step_from handler (entering (current ∷ rest) req) loggers w = enter current rest req loggers w
  step_from handler (refused key) loggers w = do
    response ← too_many_requests ext (or_else (retry_after ext.float w.store key) 0)
    returned (record { stage = leaving response; loggers = loggers }, w)
  step_from handler (leaving response) [] w =
      returned (record { stage = leaving response; loggers = [] }, w)
  step_from handler (leaving response) ((req, start) ∷ loggers) w =
      returned
        (record { stage = leaving response; loggers = loggers }, log_answer req start response w)

  abbrev pub step : HandlerFunc ext → Call → World ext → Exec (Call × World ext)
  step handler c w = step_from handler c.stage c.loggers w
