-- ===== src/Middleware/Answers.antt =====
-- What a chain of middlewares (`Next::run`, src/middleware/mod.rs) does with a request: it comes to the
-- handler at most once, or a rate limiter answers.
use portiq.Base.{
  ℕ, ◌≡◌, inl, inr, refl, sym, ap, ◌∙◌, suc, List, [], ◌∷◌, ◌++◌, Option, none, some, Str, text,
  returned, unwrap, unwrap-returned_inv, >>=-returned_inv, returned-state, returned-injective,
  Bool-cases,
}
use portiq.Config.Validate.{is_none}
use portiq.RateLimiter.{Limiter, allow}
use portiq.Middleware.Extern.{Crates}
use portiq.Middleware.{
  Request, Response, World, HandlerFunc, Middleware, request_id, access_logger, add_prefix,
  rate_limiter, request_id_header, limit_key, call, call_request_id, call_access_logger,
  call_add_prefix, call_rate_limiter, too_many_requests, query_params, run,
}

module _ (ext : Crates) where
  -- The request as it was, but for its headers and its URI.
  pub record Same (req req' : Request ext) : Type 0 where
    pub method : req'.method ≡ req.method
    pub client_ip : req'.client_ip ≡ req.client_ip
    pub body : req'.body ≡ req.body

  -- Where a chain of middlewares moves a URI: each prefix stands before the path.
  abbrev pub prefix_uri : Str → ext.Uri → Option ext.Uri
  prefix_uri prefix uri =
      elim (ext.parse_path_and_query
        ((prefix ++ ext.path uri) ++ query_params ext (ext.query uri))) [
          | none ↦ none
          | some path_and_query ↦ ext.with_path_and_query uri path_and_query
        ]

  abbrev pub step_uri : Middleware ext → ext.Uri → Option ext.Uri
  step_uri request_id uri = some uri
  step_uri access_logger uri = some uri
  step_uri (add_prefix prefix) uri = prefix_uri prefix uri
  step_uri (rate_limiter limiter) uri = some uri

  abbrev pub moved_uri : List (Middleware ext) → ext.Uri → Option ext.Uri
  moved_uri [] uri = some uri
  moved_uri (m ∷ chain) uri = elim (step_uri m uri) [
    | none ↦ none
    | some uri' ↦ moved_uri chain uri'
  ]

  -- The handler was given the request and its response is the answer, or the answer is 429; beyond
  -- the handler nothing was sent.
  pub data Answer (handler : HandlerFunc ext) (moves : ext.Uri → Option ext.Uri) (req : Request ext)
      (w : World ext) (r : Response ext) (w' : World ext) : Type 0 where
    passed :
        (req' : Request ext) (w₁ w₂ : World ext)
        → Same req req'
        → moves req.uri ≡ some req'.uri
        → w₁.sent ≡ w.sent
        → handler req' w₁ ≡ returned (r, w₂)
        → w'.sent ≡ w₂.sent
        → Answer handler moves req w r w'
    refused : r.status ≡ 429 → w'.sent ≡ w.sent → Answer handler moves req w r w'

  too_many_requests-status :
      (seconds : ℕ) {r : Response ext} → too_many_requests ext seconds ≡ returned r → r.status ≡ 429
  unfolding too_many_requests
  too_many_requests-status seconds h =
      let (_, made, _) = >>=-returned_inv (unwrap (ext.from_str (text "portiq"))) _ h in
      ap (λ x. x.status) (sym (returned-injective made))

  module _ (next : HandlerFunc ext) (req : Request ext) (w : World ext) {r : Response ext}
      {w' : World ext} where
    call_request_id-Answer :
        call_request_id ext next req w ≡ returned (r, w') → Answer next some req w r w'
    unfolding call_request_id
    call_request_id-Answer h = elim (Bool-cases (is_none (ext.get req.headers request_id_header))) [
      | inl e ↦
          let (_, h', _) =
            >>=-returned_inv (unwrap (ext.from_str (ext.new_v4 w.ids))) _ (rw e at h) in
          passed _ _ w' (record { method = refl; client_ip = refl; body = refl }) refl refl h' refl
      | inr e ↦
          passed req _ w' (record { method = refl; client_ip = refl; body = refl }) refl refl
            (rw e at h) refl
    ]

    call_access_logger-Answer :
        call_access_logger ext next req w ≡ returned (r, w') → Answer next some req w r w'
    unfolding call_access_logger
    call_access_logger-Answer h =
        let ((r₁, w₁), same, h') = >>=-returned_inv (next req _) _ h in
        let (e, e') = returned-state same in
        passed req _ w₁ (record { method = refl; client_ip = refl; body = refl }) refl refl
          (h' ∙ ap (λ x. returned (x, w₁)) e) (ap (λ w. w.sent) (sym e'))

    call_add_prefix-Answer :
        (prefix : Str)
        → call_add_prefix ext prefix next req w ≡ returned (r, w')
        → Answer next (prefix_uri prefix) req w r w'
    unfolding call_add_prefix
    call_add_prefix-Answer prefix h =
        let (_, h₁, parsed) = >>=-returned_inv (unwrap (ext.parse_path_and_query _)) _ h in
        let (_, h₂, placed) = >>=-returned_inv (unwrap (ext.with_path_and_query req.uri _)) _ h₁ in
        passed _ w w' (record { method = refl; client_ip = refl; body = refl })
          (rw (prefix_uri, unwrap-returned_inv _ parsed) (unwrap-returned_inv _ placed)) refl h₂
          refl

    call_rate_limiter-Answer :
        (limiter : Limiter ext.float)
        → call_rate_limiter ext limiter next req w ≡ returned (r, w')
        → Answer next some req w r w'
    unfolding call_rate_limiter
    call_rate_limiter-Answer limiter h =
        elim (Bool-cases
          (allow ext.float limiter w.store (limit_key ext limiter.source req)
            (ext.instant w.instants) (ext.instant (suc w.instants))).0) [
              | inl e ↦
                  passed req _ w' (record { method = refl; client_ip = refl; body = refl }) refl
                    refl (rw e at h) refl
              | inr e ↦
                  let (_, ended, built) =
                    >>=-returned_inv (too_many_requests ext _) _ (rw e at h) in
                  let (same, same') = returned-state ended in
                  refused (sym (ap (λ x. x.status) same) ∙ too_many_requests-status _ built)
                    (ap (λ x. x.sent) (sym same'))
            ]

    call-Answer :
        (m : Middleware ext)
        → call ext m next req w ≡ returned (r, w')
        → Answer next (step_uri m) req w r w'
    unfolding call
    call-Answer request_id h = call_request_id-Answer h
    call-Answer access_logger h = call_access_logger-Answer h
    call-Answer (add_prefix prefix) h = call_add_prefix-Answer prefix h
    call-Answer (rate_limiter limiter) h = call_rate_limiter-Answer limiter h

  -- A chain that returns has given the request to its handler once, whose response is the answer, or
  -- the answer is 429; and the middlewares have sent nothing themselves.
  pub run-Answer :
      (handler : HandlerFunc ext) (middlewares : List (Middleware ext)) (req : Request ext)
      (w : World ext) {r : Response ext} {w' : World ext}
      → run ext handler middlewares req w ≡ returned (r, w')
      → Answer handler (moved_uri middlewares) req w r w'
  unfolding run
  run-Answer handler [] req w {w' = w'} h =
      passed req w w' (record { method = refl; client_ip = refl; body = refl }) refl refl h refl
  run-Answer handler (current ∷ rest) req w h =
      elim (call-Answer (run ext handler rest) req w current h) [
        | refused status quiet ↦ refused status quiet
        | passed req₁ w₁ w₂ same moved quiet h₁ quiet' ↦ elim (run-Answer handler rest req₁ w₁ h₁) [
          | refused status quiet₁ ↦ refused status (quiet' ∙ quiet₁ ∙ quiet)
          | passed req₃ w₃ w₄ same₁ moved₁ quiet₁ h₃ quiet₂ ↦
              passed req₃ w₃ w₄
                (record {
                  method = same₁.method ∙ same.method;
                  client_ip = same₁.client_ip ∙ same.client_ip;
                  body = same₁.body ∙ same.body;
                })
                (rw (moved_uri, moved) moved₁) (quiet₁ ∙ quiet) h₃ (quiet' ∙ quiet₂)
        ]
      ]
