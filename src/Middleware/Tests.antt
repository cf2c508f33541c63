-- ===== src/Middleware/Tests.antt =====
-- src/middleware on concrete requests.
use portiq.Base.{
  ◌*◌, ◌≡◌, ◌⊎◌, refl, List, [], ◌∷◌, none, some, Str, text, ◌==◌, get, insert, returned, panicked,
  All, Any, true, false,
}
use portiq.Config.{v4, ip_source, rate_limit, RateLimitConfig}
use portiq.Config.Validate.{show_number}
use portiq.RateLimiter.Billionths.{billionths, unit}
use portiq.RateLimiter.{Limiter, TokenBucket, allow, take_token, refill}
use portiq.Middleware.Plain.{plain, plain-IsHyper, no_headers}
use portiq.Middleware.{
  Request, Response, World, HandlerFunc, Middleware, request_id, access_logger, add_prefix,
  rate_limiter, limit_key, call_request_id, call_access_logger, call_add_prefix, call_rate_limiter,
  call, run, show_ip, header_text,
}
use portiq.Middleware.Registry.{init, create_chain, Starts}
use portiq.Middleware.Chain.{create_chain-cases}
use portiq.Middleware.Keys.{
  Identified, call_request_id-Identified, limit_key-no_address, after_refusal,
  call_rate_limiter-refused,
}

abbrev a_request : Request plain
a_request = record {
  method = text "GET";
  uri = record { scheme = none; host = none; path = text "/v1/api" };
  headers = (text "host", text "api.example.com") ∷ [];
  client_ip = none;
  body = some [];
}

abbrev a_response : Response plain
a_response = record { status = 200; headers = no_headers; body = text "ok" }

abbrev start : World plain
start = record { store = []; access_log = []; sent = []; instants = 0; ids = 0 }

abbrev a_handler : HandlerFunc plain
a_handler = λ req w. returned (a_response, w)

abbrev a_limit : RateLimitConfig
a_limit = record { source = ip_source none; limit = 2; period = 10 * unit }

abbrev a_limiter : Limiter billionths
a_limiter = record { source = ip_source none; limit = 2; duration = 10 * unit }

abbrev a_chain : List (Middleware plain)
a_chain = request_id ∷ access_logger ∷ add_prefix (text "/api") ∷ []

create_chain-cases_example :
    (All (Starts plain) (rate_limit a_limit ∷ [])
      × (create_chain plain init (rate_limit a_limit ∷ [])
          ≡ returned (request_id ∷ access_logger ∷ rate_limiter a_limiter ∷ [])))
    ⊎ (Any (λ c. ¬ Starts plain c) (rate_limit a_limit ∷ [])
        × (create_chain plain init (rate_limit a_limit ∷ []) ≡ panicked))
create_chain-cases_example = create_chain-cases plain (rate_limit a_limit ∷ [])

abbrev logged : World plain
logged = record {
  store = [];
  access_log =
      record {
        success = true;
        status = 200;
        method = text "GET";
        path = text "/v1/api";
        duration_ms = 0;
        client_ip = v4 127 0 0 1;
        user_agent = text "-";
        request_id = text "67e55044-10b1-426f";
      }
      ∷ [];
  sent = [];
  instants = 2;
  ids = 1;
}

run-logged : run plain a_handler a_chain a_request start ≡ returned (a_response, logged)
unfolding run call call_request_id call_access_logger call_add_prefix get ◌==◌ header_text insert
run-logged = refl

call_request_id-Identified_example :
    (req' : Request plain) × Identified plain plain-IsHyper a_request req'
    × (call_request_id plain a_handler a_request start ≡ a_handler req' (record start { ids = 1 }))
call_request_id-Identified_example =
    call_request_id-Identified plain plain-IsHyper a_handler a_request start

limit_key_of_test : limit_key plain (ip_source none) a_request ≡ text "127.0.0.1"
limit_key_of_test = limit_key-no_address plain none a_request refl (λ name e. cc)

abbrev spent_bucket : TokenBucket billionths
spent_bucket = record {
  capacity = 2;
  refill_rate = 200000000;
  available_tokens = 0;
  last_refill = 1000;
}

abbrev spent : World plain
spent = record start { store = (text "127.0.0.1", spent_bucket) ∷ [] }

spent-refuses :
    (allow billionths a_limiter spent.store
      (limit_key plain a_limiter.source a_request)
      1000
      1000).0
    ≡ false
unfolding allow take_token refill get ◌==◌ limit_key show_ip show_number
spent-refuses = refl

call_rate_limiter-refused_example :
    (server : Str) × (bucket : TokenBucket billionths) × (get
        (limit_key plain a_limiter.source a_request)
        (allow billionths a_limiter spent.store
          (limit_key plain a_limiter.source a_request)
          1000
          1000).1
      ≡ some bucket)
    × (call_rate_limiter plain a_limiter a_handler a_request spent
        ≡ returned (
          record {
            status = 429;
            headers =
                (text "Server", server)
                ∷ (
                  text "Retry-After",
                  plain.from_u64 (
                      billionths.ceil_u64 (
                        billionths.div
                          (billionths.sub billionths.one bucket.available_tokens)
                          bucket.refill_rate)),
                )
                ∷ [];
            body = [];
          },
          after_refusal plain spent
              (allow billionths a_limiter spent.store
                (limit_key plain a_limiter.source a_request)
                1000
                1000).1,
        ))
call_rate_limiter-refused_example =
    call_rate_limiter-refused plain plain-IsHyper a_limiter a_handler a_request spent spent-refuses
