-- ===== src/Middleware/Keeps.antt =====
-- A rule for what the middlewares (src/middleware) leave of the state: a relation that holds across each
-- of their own changes and across the handler holds across the chain.
use portiq.Base.{
  ℕ, suc, ◌≡◌, inl, inr, subst, List, [], ◌∷◌, map, Str, returned, unwrap, >>=-returned_inv,
  returned-state, Bool-cases,
}
use portiq.Config
use portiq.Config.{MiddlewareConfig}
use portiq.Config.Validate.{is_none}
use portiq.RateLimiter.{Limiter, allow}
use portiq.Middleware.Extern.{Crates}
use portiq.Middleware.{
  Request, Response, World, HandlerFunc, Middleware, request_id, access_logger, add_prefix,
  rate_limiter, AccessEntry, request_id_header, limit_key, call, call_request_id,
  call_access_logger, call_add_prefix, call_rate_limiter, too_many_requests, run,
}
use portiq.Middleware.Registry.{middleware_of}

module _ (ext : Crates) where
  -- The relation is transitive, and holds when an identifier is drawn and when a key is counted.
  pub record IsKept (R : World ext → World ext → Type 0) : Type 0 where
    pub trans : (a b c : World ext) → R a b → R b c → R a c
    pub draws : (w : World ext) → R w (record w { ids = suc w.ids })
    pub counts :
        (w : World ext) (limiter : Limiter ext.float) (key : Str) (created now : ℕ)
        → R w (record w {
          store = (allow ext.float limiter w.store key created now).1;
          instants = suc (suc w.instants);
        })

  -- It also holds when the clock is read, and when an event is logged at a reading.
  pub record IsLogKept (R : World ext → World ext → Type 0) : Type 0 where
    pub reads : (w : World ext) → R w (record w { instants = suc w.instants })
    pub logs :
        (w : World ext) (entries : List AccessEntry)
        → R w (record w { access_log = entries; instants = suc w.instants })

  abbrev pub Keeps : (World ext → World ext → Type 0) → HandlerFunc ext → Type 0
  Keeps R handler =
      (req : Request ext) (w : World ext) (r : Response ext) (w' : World ext)
      → handler req w ≡ returned (r, w')
      → R w w'

  module _ (R : World ext → World ext → Type 0) (kept : IsKept R) (next : HandlerFunc ext)
      (keeps : Keeps R next) where
    call_request_id-Keeps : Keeps R (call_request_id ext next)
    unfolding call_request_id
    call_request_id-Keeps req w r w' h =
        kept.trans w (record w { ids = suc w.ids }) w' (kept.draws w)
          (elim (Bool-cases (is_none (ext.get req.headers request_id_header))) [
            | inl e ↦
                let (_, h', _) =
                  >>=-returned_inv (unwrap (ext.from_str (ext.new_v4 w.ids))) _ (rw e at h) in
                keeps _ _ r w' h'
            | inr e ↦ keeps req _ r w' (rw e at h)
          ])

    call_add_prefix-Keeps : (prefix : Str) → Keeps R (call_add_prefix ext prefix next)
    unfolding call_add_prefix
    call_add_prefix-Keeps prefix req w r w' h =
        let (_, h₁, _) = >>=-returned_inv (unwrap (ext.parse_path_and_query _)) _ h in
        let (_, h₂, _) = >>=-returned_inv (unwrap (ext.with_path_and_query req.uri _)) _ h₁ in
        keeps _ w r w' h₂

    call_rate_limiter-Keeps :
        (limiter : Limiter ext.float) → Keeps R (call_rate_limiter ext limiter next)
    unfolding call_rate_limiter
    call_rate_limiter-Keeps limiter req w r w' h =
        let key = limit_key ext limiter.source req in
        let created = ext.instant w.instants in
        let now = ext.instant (suc w.instants) in
        let counted = kept.counts w limiter key created now in
        elim (Bool-cases (allow ext.float limiter w.store key created now).0) [
          | inl e ↦ kept.trans w _ w' counted (keeps req _ r w' (rw e at h))
          | inr e ↦
              let (_, ended, _) = >>=-returned_inv (too_many_requests ext _) _ (rw e at h) in
              subst (R w) (returned-state ended).1 counted
        ]

    call_access_logger-Keeps : IsLogKept R → Keeps R (call_access_logger ext next)
    unfolding call_access_logger
    call_access_logger-Keeps log_kept req w r w' h =
        let ((r₁, w₁), same, h') = >>=-returned_inv (next req _) _ h in
        kept.trans w _ w' (log_kept.reads w) (
          kept.trans _ w₁ w' (keeps req _ r₁ w₁ h')
            (subst (R w₁) (returned-state same).1 (log_kept.logs w₁ _)))

    call_configured-Keeps :
        (config : MiddlewareConfig) → Keeps R (call ext (middleware_of ext config) next)
    unfolding call
    call_configured-Keeps (Config.add_prefix cfg) = call_add_prefix-Keeps cfg.prefix
    call_configured-Keeps (Config.rate_limit cfg) = call_rate_limiter-Keeps _

    call-Keeps : IsLogKept R → (m : Middleware ext) → Keeps R (call ext m next)
    unfolding call
    call-Keeps log_kept request_id = call_request_id-Keeps
    call-Keeps log_kept access_logger = call_access_logger-Keeps log_kept
    call-Keeps log_kept (add_prefix prefix) = call_add_prefix-Keeps prefix
    call-Keeps log_kept (rate_limiter limiter) = call_rate_limiter-Keeps limiter

  module _ (R : World ext → World ext → Type 0) (kept : IsKept R) (handler : HandlerFunc ext)
      (keeps : Keeps R handler) where
    pub run_configured-Keeps :
        (configs : List MiddlewareConfig)
        → Keeps R (run ext handler (map (middleware_of ext) configs))
    unfolding run
    run_configured-Keeps [] req w r w' h = keeps req w r w' h
    run_configured-Keeps (config ∷ configs) req w r w' h =
        call_configured-Keeps R kept (run ext handler (map (middleware_of ext) configs))
          (run_configured-Keeps configs) config req w r w' h

    pub run-Keeps : IsLogKept R → (chain : List (Middleware ext)) → Keeps R (run ext handler chain)
    unfolding run
    run-Keeps log_kept [] req w r w' h = keeps req w r w' h
    run-Keeps log_kept (m ∷ chain) req w r w' h =
        call-Keeps R kept (run ext handler chain) (run-Keeps log_kept chain) log_kept m req w r w' h
