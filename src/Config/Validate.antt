-- ===== src/Config/Validate.antt =====
-- `GatewayConfig::validate` (src/config.rs). Its `Err(String)` is a constructor for each message, with
-- what the message is formatted from; `message` is the text.
use portiq.Base.{
  ℕ, zero, suc, ◌+◌, ◌/◌, ◌%◌, Bool, true, false, not, ◌&&◌, List, [], ◌∷◌, ◌++◌, Option, none,
  some, Str, text, Result, ok, err, Map, get, keys, contains, length, keep, ltb, eqb, if◌then◌else◌,
}
use portiq.Config.{
  GatewayConfig, TlsConfig, Listener, Protocol, https, RouteConfig, MiddlewareConfig,
}

pub data ConfigError : Type 0 where
  bad_version : ConfigError
  default_tls_count : ℕ → ConfigError
  duplicate_listener tls_required : Str → ConfigError
  duplicate_service : Str → ConfigError
  no_hosts_or_path : Str → ConfigError
  undefined_listener undefined_service undefined_middleware : Str → ConfigError

-- `usize` in decimal. Each round takes off a digit, so a number is enough fuel for itself.
show_digits : ℕ → ℕ → Str
show_digits zero n = []
show_digits (suc fuel) n =
    let higher = show_digits fuel (n / 10) in
    if ltb n 10 then (b'0' + n) ∷ [] else higher ++ (b'0' + n % 10) ∷ []

unfoldable pub show_number : ℕ → Str
unfolding show_digits
show_number n = show_digits (suc n) n

unfoldable pub message : ConfigError → Str
message bad_version = text "version value must be 1"
message (default_tls_count count) =
    text "Exactly one TLS config must be marked as default, found " ++ show_number count
message (duplicate_listener name) = text "Duplicate listener name " ++ name
message (tls_required name) = text "TLS config is required to spawn listener " ++ name
message (duplicate_service key) = text "Duplicate service name " ++ key
message (no_hosts_or_path service) =
    text "At least one of hosts or path is required for matching route against service " ++ service
message (undefined_listener listener) = text "Undefined listener " ++ listener
message (undefined_service service) = text "Undefined service " ++ service
message (undefined_middleware middleware) =
    text "Middleware " ++ (middleware ++ text " is not defined")

infixl 5 ◌>>=◌ ◌>>◌
abbrev pub ◌>>=◌ :
    {A B : Type 0} → Result A ConfigError → (A → Result B ConfigError) → Result B ConfigError
err error >>= next = err error
ok value >>= next = next value

abbrev pub ◌>>◌ :
    {B : Type 0} → Result (Unit {0}) ConfigError → Result B ConfigError → Result B ConfigError
check >> rest = check >>= λ _. rest

-- `if test { return Err(error) }`.
abbrev pub fail_if : Bool → ConfigError → Result (Unit {0}) ConfigError
fail_if true error = err error
fail_if false error = ok tt

abbrev pub is_none {ℓ} : {A : Type ℓ} → Option A → Bool
is_none none = true
is_none (some a) = false

abbrev pub is_https : Protocol → Bool
is_https https = true
is_https _ = false

abbrev pub default_count : List TlsConfig → ℕ
default_count tls_config = length (keep (λ cfg. cfg.default) tls_config)

unfoldable pub check_tls : Option (List TlsConfig) → Result (Unit {0}) ConfigError
check_tls none = ok tt
check_tls (some tls_config) =
    fail_if (not (eqb (default_count tls_config) 1)) (default_tls_count (default_count tls_config))

-- The loop over the listeners; `seen` is `seen_listeners`, and comes back as it is after the loop.
unfoldable pub check_listeners : Bool → List Listener → List Str → Result (List Str) ConfigError
check_listeners no_tls [] seen = ok seen
check_listeners no_tls (listener ∷ listeners) seen = do
  fail_if (contains seen listener.name) (duplicate_listener listener.name)
  fail_if (is_https listener.protocol && no_tls) (tls_required listener.name)
  check_listeners no_tls listeners (listener.name ∷ seen)

-- The loop over the services' names.
unfoldable pub check_services : List Str → List Str → Result (List Str) ConfigError
check_services [] seen = ok seen
check_services (key ∷ names) seen = do
  fail_if (contains seen key) (duplicate_service key)
  check_services names (key ∷ seen)

unfoldable pub check_route_listeners : List Str → List Str → Result (Unit {0}) ConfigError
check_route_listeners seen [] = ok tt
check_route_listeners seen (listener ∷ listeners) = do
  fail_if (not (contains seen listener)) (undefined_listener listener)
  check_route_listeners seen listeners

unfoldable pub check_middlewares : Map MiddlewareConfig → List Str → Result (Unit {0}) ConfigError
check_middlewares defined [] = ok tt
check_middlewares defined (middleware ∷ route_middlewares) = do
  fail_if (is_none (get middleware defined)) (undefined_middleware middleware)
  check_middlewares defined route_middlewares

unfoldable pub check_route_middlewares :
    Map MiddlewareConfig → Option (List Str) → Result (Unit {0}) ConfigError
unfolding check_middlewares
check_route_middlewares defined none = ok tt
check_route_middlewares defined (some route_middlewares) =
    check_middlewares defined route_middlewares

-- One round of the loop over the routes.
unfoldable pub check_route :
    List Str → List Str → Map MiddlewareConfig → RouteConfig → Result (Unit {0}) ConfigError
check_route seen_listeners seen_services middlewares route = do
  fail_if (is_none route.hosts && is_none route.path) (no_hosts_or_path route.service)
  check_route_listeners seen_listeners route.listeners
  fail_if (not (contains seen_services route.service)) (undefined_service route.service)
  check_route_middlewares middlewares route.middlewares

unfoldable pub check_routes :
    List Str → List Str → Map MiddlewareConfig → List RouteConfig → Result (Unit {0}) ConfigError
check_routes seen_listeners seen_services middlewares [] = ok tt
check_routes seen_listeners seen_services middlewares (route ∷ routes) = do
  check_route seen_listeners seen_services middlewares route
  check_routes seen_listeners seen_services middlewares routes

unfoldable pub validate : GatewayConfig → Result (Unit {0}) ConfigError
validate cfg = do
  fail_if (not (eqb cfg.version 1)) bad_version
  check_tls cfg.tls
  seen_listeners ← check_listeners (is_none cfg.tls) cfg.listeners []
  seen_services ← check_services (keys cfg.http.services) []
  check_routes seen_listeners seen_services cfg.http.middlewares cfg.http.routes
