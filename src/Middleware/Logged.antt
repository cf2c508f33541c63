-- ===== src/Middleware/Logged.antt =====
-- The access log (src/middleware/access_logger.rs) of a created chain (src/middleware/registry.rs): an
-- entry for each answered request.
use portiq.Base.{
  ℕ, ◌-◌, ◌≡◌, inl, inr, refl, sym, ap, ◌∙◌, List, [], ◌∷◌, ◌++◌, map, some, text, returned,
  >>=-returned_inv, returned-state, returned-injective,
}
use portiq.Config.{MiddlewareConfig}
use portiq.Middleware.Extern.{Crates, IsHyper}
use portiq.Middleware.{
  Request, Response, World, HandlerFunc, Middleware, AccessEntry, entry_of, header_text, is_success,
  or_else, request_id_header, call, call_access_logger, run,
}
use portiq.Middleware.Registry.{init, create_chain, middleware_of}
use portiq.Middleware.Chain.{create_chain-cases}
use portiq.Middleware.Keeps.{IsKept, Keeps, run_configured-Keeps}
use portiq.Middleware.Keys.{Identified, call_request_id-Identified}

module _ (ext : Crates) where
  abbrev pub SameLog : World ext → World ext → Type 0
  SameLog w w' = w'.access_log ≡ w.access_log

  -- The handler writes nothing to the access log.
  abbrev pub IsSilent : HandlerFunc ext → Type 0
  IsSilent = Keeps ext SameLog

  SameLog-IsKept : IsKept ext SameLog
  SameLog-IsKept = record {
    trans = λ a b c p q. q ∙ p;
    draws = λ w. refl;
    counts = λ w limiter key created now. refl;
  }

  -- The configured middlewares of a route write nothing to the access log.
  run_configured-IsSilent :
      (handler : HandlerFunc ext) (configs : List MiddlewareConfig)
      → IsSilent handler
      → IsSilent (run ext handler (map (middleware_of ext) configs))
  run_configured-IsSilent handler configs silent =
      run_configured-Keeps ext SameLog SameLog-IsKept handler silent configs

  -- The log has grown by one entry, which is of this request and its response.
  pub record IsLogged (laws : IsHyper ext) (req : Request ext) (w : World ext) (r : Response ext)
      (w' : World ext) : Type 0 where
    pub entry : AccessEntry
    pub logged : w'.access_log ≡ w.access_log ++ entry ∷ []
    pub status : entry.status ≡ r.status
    pub success : entry.success ≡ is_success ext r.status
    pub method : entry.method ≡ req.method
    pub path : entry.path ≡ ext.path req.uri
    pub seen : Request ext
    pub identified : Identified ext laws req seen
    pub request_id : entry.request_id ≡ or_else (ext.to_str identified.value) (text "-")

  call_access_logger-entry :
      (next : HandlerFunc ext) (silent : IsSilent next) (req : Request ext) (w : World ext)
      (r : Response ext) (w' : World ext)
      → call_access_logger ext next req w ≡ returned (r, w')
      → (elapsed : ℕ) × (w'.access_log ≡ w.access_log ++ entry_of ext req r.status elapsed ∷ [])
  unfolding call_access_logger
  call_access_logger-entry next silent req w r w' h =
      let ((r₁, w₁), same, h') = >>=-returned_inv (next req _) _ h in
      let (e, e') = returned-state same in
      let elapsed : ℕ = ext.instant w₁.instants - ext.instant w.instants in
      (
        elapsed,
        sym (ap (λ x. x.access_log) e')
            ∙ ap (λ l. l ++ entry_of ext req r₁.status elapsed ∷ []) (silent req _ r₁ w₁ h')
            ∙ ap (λ x. w.access_log ++ entry_of ext req x.status elapsed ∷ []) e,
      )

  entry_request_id :
      (req : Request ext) (v : ext.HeaderValue)
      → ext.get req.headers request_id_header ≡ some v
      → or_else (header_text ext req request_id_header) (text "-")
        ≡ or_else (ext.to_str v) (text "-")
  unfolding header_text
  entry_request_id req v e = rw (header_text, e) refl

  -- Where the handler writes nothing to the access log, a request that the chain of a route answers adds
  -- one entry: with the status of the answer, the method and path of the request as it came, and the
  -- identifier that the handler sees.
  pub run_created-IsLogged :
      (laws : IsHyper ext) (handler : HandlerFunc ext) (configs : List MiddlewareConfig)
      (chain : List (Middleware ext)) (req : Request ext) (w : World ext) {r : Response ext}
      {w' : World ext}
      → IsSilent handler
      → create_chain ext init configs ≡ returned chain
      → run ext handler chain req w ≡ returned (r, w')
      → IsLogged laws req w r w'
  unfolding run call
  run_created-IsLogged laws handler configs chain req w {r} {w'} silent created h =
      elim (create_chain-cases ext configs) [
        | inr (_, failed) ↦ cc
        | inl (_, made) ↦
            let same = returned-injective (sym created ∙ made) in
            let rest = run ext handler (map (middleware_of ext) configs) in
            let (req', identified, passes) =
              call_request_id-Identified ext laws (call_access_logger ext rest) req w in
            let (elapsed, logged) =
              call_access_logger-entry rest (run_configured-IsSilent handler configs silent) req' _
                r w' (sym passes ∙ rw same at h) in
            record {
              entry = entry_of ext req' r.status elapsed;
              logged = logged;
              status = refl;
              success = refl;
              method = identified.same.method;
              path = ap ext.path identified.uri;
              seen = req';
              identified = identified;
              request_id =
                  entry_request_id req' identified.value
                    (identified.present request_id_header refl);
            }
      ]
