-- ===== src/Middleware/Keys.antt =====
-- Request identifiers (src/middleware/request_id.rs), and the keys and refusals of the rate limiter
-- (src/middleware/rate_limiter/token_bucket.rs).
use portiq.Base.{
  suc, ◌≡◌, ◌≢◌, inl, inr, refl, ap, sym, ◌∙◌, false, Option, none, some, Str, text, Map, get, [],
  ◌∷◌, returned, ◌>>=◌, Option-cases, some-injective, arith,
}
use portiq.Config.{ip_source}
use portiq.Config.Validate.{show_number}
use portiq.RateLimiter.Store.{retry_after-refused}
use portiq.RateLimiter.{TokenBucket, Limiter, allow}
use portiq.Middleware.Extern.{Crates, IsHyper, IsName, to_ascii_lowercase}
use portiq.Middleware.{
  Request, World, HandlerFunc, request_id_header, limit_key, call_request_id, call_rate_limiter,
  too_many_requests, show_ip,
}
use portiq.Middleware.Answers.{Same}
use portiq.Middleware.Stages.{enter_request_id}

request_id_header-IsName : IsName request_id_header
request_id_header-IsName = ((λ e. cc), omega arith, omega arith)

module _ (ext : Crates) (laws : IsHyper ext) where
  -- The request with an identifier, however the name of the header is spelled: the one that the client
  -- sent, if any, with all else as it was.
  pub record Identified (req req' : Request ext) : Type 0 where
    pub value : ext.HeaderValue
    pub same : Same ext req req'
    pub uri : req'.uri ≡ req.uri
    pub present :
        (name : Str)
        → to_ascii_lowercase name ≡ request_id_header
        → ext.get req'.headers name ≡ some value
    pub kept : (v : ext.HeaderValue) → ext.get req.headers request_id_header ≡ some v → value ≡ v
    pub others :
        (name : Str)
        → to_ascii_lowercase name ≢ request_id_header
        → ext.get req'.headers name ≡ ext.get req.headers name

  spelled :
      (headers : ext.HeaderMap) {v : ext.HeaderValue}
      → ext.get headers request_id_header ≡ some v
      → (name : Str) → to_ascii_lowercase name ≡ request_id_header
      → ext.get headers name ≡ some v
  spelled headers e name same = laws.get-lower headers name ∙ ap (ext.get headers) same ∙ e

  pub enter_request_id-Identified :
      (req : Request ext) (w : World ext)
      → (req' : Request ext) × Identified req req'
        × (enter_request_id ext req w ≡ returned (req', record w { ids = suc w.ids }))
  unfolding enter_request_id
  enter_request_id-Identified req w = elim (Option-cases (ext.get req.headers request_id_header)) [
    | inl e ↦
        let (v, e') = laws.from_str-visible (ext.new_v4 w.ids) (laws.new_v4-visible w.ids) in
        (
          record req { headers = ext.insert req.headers request_id_header v },
          record {
            value = v;
            same = record { method = refl; client_ip = refl; body = refl };
            uri = refl;
            present =
                spelled (ext.insert req.headers request_id_header v)
                  (laws.get-insert req.headers request_id_header v request_id_header-IsName);
            kept = λ v' sent. cc;
            others = λ name ne.
                laws.get-insert_ne req.headers request_id_header name v request_id_header-IsName ne;
          },
          rw (e, e') refl,
        )
    | inr (v, e) ↦ (
      req,
      record {
        value = v;
        same = record { method = refl; client_ip = refl; body = refl };
        uri = refl;
        present = spelled req.headers e;
        kept = λ v' sent. some-injective (sym e ∙ sent);
        others = λ name ne. refl;
      },
      rw e refl,
    )
  ]

  call_request_id-enter :
      (next : HandlerFunc ext) (req : Request ext) (w : World ext)
      → call_request_id ext next req w ≡ (enter_request_id ext req w >>= λ x. next x.0 x.1)
  unfolding call_request_id enter_request_id
  call_request_id-enter next req w = elim (Option-cases (ext.get req.headers request_id_header)) [
    | inl absent ↦ elim (Option-cases (ext.from_str (ext.new_v4 w.ids))) [
      | inl fails ↦ rw (absent, fails) refl
      | inr (v, made) ↦ rw (absent, made) refl
    ]
    | inr (v, present) ↦ rw present refl
  ]

  -- If header maps and values behave as documented, the request id middleware does not panic
  -- and goes on with the request as it was, but with an identifier under x-request-id in
  -- whatever case it is spelled, the one that the client sent, if any.
  pub call_request_id-Identified :
      (next : HandlerFunc ext) (req : Request ext) (w : World ext)
      → (req' : Request ext) × Identified req req'
        × (call_request_id ext next req w ≡ next req' (record w { ids = suc w.ids }))
  call_request_id-Identified next req w =
      let (req', identified, e) = enter_request_id-Identified req w in
      (req', identified, rw (call_request_id-enter next req w, e) refl)

module _ (ext : Crates) where
  -- Where no address stands among the extensions of a request, nor in the header that a limiter by IP
  -- names, if any, the key is that of the local host, whoever the client is.
  pub limit_key-no_address :
      (header : Option Str) (req : Request ext)
      → req.client_ip ≡ none
      → ((name : Str) → header ≡ some name → ext.get req.headers name ≡ none)
      → limit_key ext (ip_source header) req ≡ text "127.0.0.1"
  unfolding limit_key show_ip show_number
  limit_key-no_address none req e h = rw e refl
  limit_key-no_address (some name) req e h = rw (limit_key, h name refl, e) refl

  -- What a refusal leaves: the store and the clock have moved on, and nothing else.
  abbrev pub after_refusal : World ext → Map (TokenBucket ext.float) → World ext
  after_refusal w store' = record w { store = store'; instants = suc (suc w.instants) }

  -- If header values behave as documented, a request whose key the bucket refuses is answered
  -- with 429 and, as Retry-After, the seconds in which the bucket that is stored under the key
  -- then gains what it lacks of a token, and only the store and the clock have moved.
  pub call_rate_limiter-refused :
      (laws : IsHyper ext) (limiter : Limiter ext.float) (next : HandlerFunc ext)
      (req : Request ext) (w : World ext)
      → (allow ext.float limiter w.store
          (limit_key ext limiter.source req)
          (ext.instant w.instants)
          (ext.instant (suc w.instants))).0
        ≡ false
      → (server : ext.HeaderValue) × (bucket : TokenBucket ext.float) × (get
            (limit_key ext limiter.source req)
            (allow ext.float limiter w.store
              (limit_key ext limiter.source req)
              (ext.instant w.instants)
              (ext.instant (suc w.instants))).1
          ≡ some bucket)
        × (call_rate_limiter ext limiter next req w
            ≡ returned (
              record {
                status = 429;
                headers =
                    (text "Server", server)
                    ∷ (
                      text "Retry-After",
                      ext.from_u64 (
                          ext.float.ceil_u64 (
                            ext.float.div
                              (ext.float.sub ext.float.one bucket.available_tokens)
                              bucket.refill_rate)),
                    )
                    ∷ [];
                body = [];
              },
              after_refusal w
                  (allow ext.float limiter w.store
                    (limit_key ext limiter.source req)
                    (ext.instant w.instants)
                    (ext.instant (suc w.instants))).1,
            ))
  unfolding call_rate_limiter too_many_requests
  call_rate_limiter-refused laws limiter next req w refuses =
      let (server, e) = laws.from_str-visible (text "portiq") (omega arith) in
      let (bucket, stored, wait) =
        retry_after-refused ext.float limiter w.store (limit_key ext limiter.source req)
          (ext.instant w.instants) (ext.instant (suc w.instants)) refuses in
      (server, bucket, stored, rw (refuses, e, wait) refl)
