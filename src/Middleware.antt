-- ===== src/Middleware.antt =====
-- src/middleware: the four middlewares, and `Next::run`, which gives a request to the first of a chain
-- with the rest of the chain as what comes next. The crates http, hyper and uuid are the parameter
-- `Crates`; what a request changes besides is the state `World`.
pub mod Extern
pub mod Plain
pub mod Registry
pub mod Chain
pub mod Answers
pub mod Stages
pub mod Keys
pub mod Keeps
pub mod Logged
mod Tests
use portiq.Base.{
  ℕ, suc, ◌+◌, ◌-◌, ◌/◌, Bool, true, false, ◌&&◌, List, [], ◌∷◌, ◌++◌, Option, none, some, Str,
  text, Map, Exec, returned, ◌>>=◌, unwrap, leb, ltb, if◌then◌else◌,
}
use portiq.Config.{IpAddr, v4, v6, RateLimitKeySource, ip_source, request_header}
use portiq.Config.Validate.{show_number, is_none}
use portiq.RateLimiter.{TokenBucket, Limiter, allow, retry_after}
use portiq.Middleware.Extern.{Crates, Outgoing}

abbrev pub request_id_header : Str
request_id_header = text "x-request-id"

abbrev pub user_agent_header : Str
user_agent_header = text "user-agent"

abbrev pub local_host : IpAddr
local_host = v4 127 0 0 1

-- One event of the target `access`; `success` tells `info!` from `error!`.
pub record AccessEntry : Type 0 where
  pub success : Bool
  pub status : ℕ
  pub method : Str
  pub path : Str
  pub duration_ms : ℕ
  pub client_ip : IpAddr
  pub user_agent : Str
  pub request_id : Str

abbrev pub or_else {ℓ} : {A : Type ℓ} → Option A → A → A
or_else none a = a
or_else (some a) _ = a

module _ (ext : Crates) where
  -- `body` is what collecting it gives; `client_ip` is the `IpAddr` among the extensions.
  pub record Request : Type 0 where
    pub method : Str
    pub uri : ext.Uri
    pub headers : ext.HeaderMap
    pub client_ip : Option IpAddr
    pub body : Option Str

  pub record Response : Type 0 where
    pub status : ℕ
    pub headers : List (Str × ext.HeaderValue)
    pub body : Str

  -- The bucket store, the events of the target `access`, the requests that were sent, and how many
  -- instants and identifiers were drawn.
  pub record World : Type 0 where
    pub store : Map (TokenBucket ext.float)
    pub access_log : List AccessEntry
    pub sent : List Outgoing
    pub instants : ℕ
    pub ids : ℕ

  -- `HandlerFunc`. Its `Result` has no errors.
  abbrev pub HandlerFunc : Type 0
  HandlerFunc = Request → World → Exec (Response × World)

  pub data Middleware : Type 0 where
    request_id access_logger : Middleware
    add_prefix : Str → Middleware
    rate_limiter : Limiter ext.float → Middleware

  -- `Display` for `IpAddr`.
  unfoldable pub show_ip : IpAddr → Str
  show_ip (v4 a b c d) =
      show_number a
      ++ text "."
      ++ show_number b
      ++ text "."
      ++ show_number c
      ++ text "."
      ++ show_number d
  show_ip (v6 segments) = ext.show_v6 segments

  -- `headers().get(name).and_then(|v| v.to_str().ok())`.
  unfoldable pub header_text : Request → Str → Option Str
  header_text req name = elim (ext.get req.headers name) [ none ↦ none | some v ↦ ext.to_str v ]

  unfoldable pub call_request_id : HandlerFunc → HandlerFunc
  call_request_id next req w =
      let fresh = ext.new_v4 w.ids in
      let w' = record w { ids = suc w.ids } in
      if is_none (ext.get req.headers request_id_header)
      then (do
        value ← unwrap (ext.from_str fresh)
        next (record req { headers = ext.insert req.headers request_id_header value }) w')
      else next req w'

  -- `StatusCode::is_success`.
  abbrev pub is_success : ℕ → Bool
  is_success status = leb 200 status && ltb status 300

  abbrev pub entry_of : Request → ℕ → ℕ → AccessEntry
  entry_of req status elapsed = record {
    success = is_success status;
    status = status;
    method = req.method;
    path = ext.path req.uri;
    duration_ms = elapsed / 1000000;
    client_ip = or_else req.client_ip local_host;
    user_agent = or_else (header_text req user_agent_header) (text "-");
    request_id = or_else (header_text req request_id_header) (text "-");
  }

  unfoldable pub call_access_logger : HandlerFunc → HandlerFunc
  call_access_logger next req w = do
    let start = ext.instant w.instants
    (response, w') ← next req (record w { instants = suc w.instants })
    let elapsed = ext.instant w'.instants - start
    returned (
      response,
      record w' {
        access_log = w'.access_log ++ entry_of req response.status elapsed ∷ [];
        instants = suc w'.instants;
      },
    )

  abbrev pub query_params : Option Str → Str
  query_params none = []
  query_params (some q) = text "?" ++ q

  unfoldable pub call_add_prefix : Str → HandlerFunc → HandlerFunc
  call_add_prefix prefix next req w = do
    let prefixed_path = prefix ++ ext.path req.uri
    path_and_query ←
        unwrap (ext.parse_path_and_query (prefixed_path ++ query_params (ext.query req.uri)))
    new_uri ← unwrap (ext.with_path_and_query req.uri path_and_query)
    next (record req { uri = new_uri }) w

  -- The key of a request for a limiter.
  unfoldable pub limit_key : RateLimitKeySource → Request → Str
  limit_key (ip_source (some header)) req = elim (ext.get req.headers header) [
    | some v ↦ or_else (ext.to_str v) []
    | none ↦ show_ip (or_else req.client_ip local_host)
  ]
  limit_key (ip_source none) req = show_ip (or_else req.client_ip local_host)
  limit_key (request_header header) req = or_else (header_text req header) (text "-")

  -- `Response::builder()` with its headers, in order; the header values are there already.
  unfoldable pub too_many_requests : ℕ → Exec Response
  too_many_requests seconds = do
    server ← unwrap (ext.from_str (text "portiq"))
    returned (record {
      status = 429;
      headers = (text "Server", server) ∷ (text "Retry-After", ext.from_u64 seconds) ∷ [];
      body = [];
    })

  -- Two instants are drawn: what a new bucket reads, if one is made, and what `refill` reads.
  unfoldable pub call_rate_limiter : Limiter ext.float → HandlerFunc → HandlerFunc
  call_rate_limiter limiter next req w =
      let key = limit_key limiter.source req in
      let created = ext.instant w.instants in
      let now = ext.instant (suc w.instants) in
      let (allowed, store') = allow ext.float limiter w.store key created now in
      let w' = record w { store = store'; instants = suc (suc w.instants) } in
      if allowed then next req w' else (do
        response ← too_many_requests (or_else (retry_after ext.float store' key) 0)
        returned (response, w'))

  unfoldable pub call : Middleware → HandlerFunc → HandlerFunc
  call request_id next = call_request_id next
  call access_logger next = call_access_logger next
  call (add_prefix prefix) next = call_add_prefix prefix next
  call (rate_limiter limiter) next = call_rate_limiter limiter next

  -- `Next::run`, with the handler and the middlewares that are left.
  unfoldable pub run : HandlerFunc → List Middleware → HandlerFunc
  run handler [] req w = handler req w
  run handler (current ∷ rest) req w = call current (run handler rest) req w
