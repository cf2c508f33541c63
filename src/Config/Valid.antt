-- ===== src/Config/Valid.antt =====
-- What `GatewayConfig::validate` (src/config.rs) accepts, said without its loops and sets.
use portiq.Base.{
  ◌≡◌, ◌≢◌, ◌↔◌, ◌⊎◌, inl, inr, refl, false, not, ◌&&◌, List, [], ◌∷◌, Option, none, some, Str, ok,
  Map, get, keys, contains, eqb, All, All-imp, arith, some-injective,
}
use portiq.Config.{
  GatewayConfig, TcpConfig, TlsConfig, Listener, Protocol, http, https, tcp, RouteConfig,
  MiddlewareConfig,
}
use portiq.Config.Seen.{Named, Distinct, onto, contains-onto_iff, FreshFrom-nil_iff}
use portiq.Config.Validate.{
  is_none, is_https, default_count, check_tls, check_listeners, check_services,
  check_route_listeners, check_route_middlewares, check_route, check_routes, validate,
}
use portiq.Config.Loops.{
  names, TlsFits, is_none-false, is_none_of_ne, fail_if-ok, >>-ok, >>=-eq-ok, check_listeners_sound,
  check_listeners_complete, check_services_sound, check_services_complete,
  check_route_listeners_sound, check_route_listeners_complete, check_middlewares_sound,
  check_middlewares_complete,
}

-- A route names something to match, and only what the configuration defines.
pub record IsValidRoute (cfg : GatewayConfig) (route : RouteConfig) : Type 0 where
  pub matches_something : (route.hosts ≢ none) ⊎ (route.path ≢ none)
  pub listeners : All (λ l. Named l (names cfg.listeners)) route.listeners
  pub service : Named route.service (keys cfg.http.services)
  pub middlewares :
      (ms : List Str)
      → route.middlewares ≡ some ms
      → All (λ m. get m cfg.http.middlewares ≢ none) ms

-- The services' names are the keys of a `HashMap`, so they are distinct in any case.
pub record IsValidConfig (cfg : GatewayConfig) : Type 0 where
  pub version : cfg.version ≡ 1
  pub one_default : (tls : List TlsConfig) → cfg.tls ≡ some tls → default_count tls ≡ 1
  pub listeners : Distinct (names cfg.listeners)
  pub https_has_tls : All (λ l. l.protocol ≡ https → cfg.tls ≢ none) cfg.listeners
  pub services : Distinct (keys cfg.http.services)
  pub routes : All (IsValidRoute cfg) cfg.http.routes

check_tls_sound :
    (o : Option (List TlsConfig))
    → check_tls o ≡ ok tt
    → (tls : List TlsConfig) → o ≡ some tls
    → default_count tls ≡ 1
unfolding check_tls
check_tls_sound none h tls e = cc
check_tls_sound (some t) h tls e = rw (← some-injective e) (ground arith)

check_tls_complete :
    (o : Option (List TlsConfig))
    → ((tls : List TlsConfig) → o ≡ some tls → default_count tls ≡ 1)
    → check_tls o ≡ ok tt
unfolding check_tls
check_tls_complete none h = refl
check_tls_complete (some t) h = ground (arith, h t refl)

TlsFits-sound :
    (o : Option (List TlsConfig)) (l : Listener)
    → TlsFits (is_none o) l
    → l.protocol ≡ https
    → o ≢ none
TlsFits-sound o l h e = is_none-false o (rw e at h)

TlsFits_complete :
    (o : Option (List TlsConfig)) (p : Protocol)
    → (p ≡ https → o ≢ none)
    → (is_https p && is_none o) ≡ false
TlsFits_complete o https h = is_none_of_ne o (h refl)
TlsFits_complete o http h = refl
TlsFits_complete o tcp h = refl

something_sound :
    (hosts : Option (List Str)) (path : Option Str)
    → (is_none hosts && is_none path) ≡ false
    → (hosts ≢ none) ⊎ (path ≢ none)
something_sound none path h = inr (is_none-false path h)
something_sound (some hs) path h = inl (is_none-false (some hs) refl)

something_complete :
    (hosts : Option (List Str)) (path : Option Str)
    → (hosts ≢ none) ⊎ (path ≢ none)
    → (is_none hosts && is_none path) ≡ false
something_complete none path (inl n) = absurd (n refl)
something_complete none path (inr n) = is_none_of_ne path n
something_complete (some hs) path n = refl

check_route_middlewares_sound :
    (defined : Map MiddlewareConfig) (o : Option (List Str))
    → check_route_middlewares defined o ≡ ok tt
    → (ms : List Str) → o ≡ some ms
    → All (λ m. get m defined ≢ none) ms
unfolding check_route_middlewares
check_route_middlewares_sound defined none h ms e = cc
check_route_middlewares_sound defined (some xs) h ms e =
    rw (← some-injective e) (check_middlewares_sound defined xs h)

check_route_middlewares_complete :
    (defined : Map MiddlewareConfig) (o : Option (List Str))
    → ((ms : List Str) → o ≡ some ms → All (λ m. get m defined ≢ none) ms)
    → check_route_middlewares defined o ≡ ok tt
unfolding check_route_middlewares
check_route_middlewares_complete defined none h = refl
check_route_middlewares_complete defined (some xs) h =
    check_middlewares_complete defined xs (h xs refl)

module _ (cfg : GatewayConfig) where
  check_route_sound :
      (route : RouteConfig)
      → check_route
          (onto (names cfg.listeners) [])
          (onto (keys cfg.http.services) [])
          cfg.http.middlewares
          route
        ≡ ok tt
      → IsValidRoute cfg route
  unfolding check_route
  check_route_sound route h =
      let (something, h₁) = fail_if-ok (is_none route.hosts && is_none route.path) _ _ h in
      let (known, h₂) = >>-ok (check_route_listeners _ route.listeners) _ h₁ in
      let (served, h₃) =
        fail_if-ok (not (contains (onto (keys cfg.http.services) []) route.service)) _ _ h₂ in
      record {
        matches_something = something_sound route.hosts route.path something;
        listeners = check_route_listeners_sound (names cfg.listeners) route.listeners known;
        service = (contains-onto_iff route.service (keys cfg.http.services)).0 (ground arith);
        middlewares = check_route_middlewares_sound cfg.http.middlewares route.middlewares h₃;
      }

  check_route_complete :
      (route : RouteConfig)
      → IsValidRoute cfg route
      → check_route
          (onto (names cfg.listeners) [])
          (onto (keys cfg.http.services) [])
          cfg.http.middlewares
          route
        ≡ ok tt
  unfolding check_route
  check_route_complete route v = rw (
    something_complete route.hosts route.path v.matches_something,
    check_route_listeners_complete (names cfg.listeners) route.listeners v.listeners,
    (contains-onto_iff route.service (keys cfg.http.services)).1 v.service,
    check_route_middlewares_complete cfg.http.middlewares route.middlewares v.middlewares,
  )

  check_routes_sound :
      (routes : List RouteConfig)
      → check_routes
          (onto (names cfg.listeners) [])
          (onto (keys cfg.http.services) [])
          cfg.http.middlewares
          routes
        ≡ ok tt
      → All (IsValidRoute cfg) routes
  unfolding check_routes
  check_routes_sound [] h = tt
  check_routes_sound (r ∷ rs) h =
      let (first, later) = >>-ok (check_route _ _ _ r) _ h in
      (check_route_sound r first, check_routes_sound rs later)

  check_routes_complete :
      (routes : List RouteConfig)
      → All (IsValidRoute cfg) routes
      → check_routes
          (onto (names cfg.listeners) [])
          (onto (keys cfg.http.services) [])
          cfg.http.middlewares
          routes
        ≡ ok tt
  unfolding check_routes
  check_routes_complete [] v = refl
  check_routes_complete (r ∷ rs) v = rw (check_route_complete r v.0) (check_routes_complete rs v.1)

  validate_sound : validate cfg ≡ ok tt → IsValidConfig cfg
  unfolding validate
  validate_sound h =
      let (version, h₁) = fail_if-ok (not (eqb cfg.version 1)) _ _ h in
      let (tls, h₂) = >>-ok (check_tls cfg.tls) _ h₁ in
      let (seen, h₃, e) = >>=-eq-ok (check_listeners (is_none cfg.tls) cfg.listeners []) _ h₂ in
      let (seen', h₄, e') = >>=-eq-ok (check_services (keys cfg.http.services) []) _ h₃ in
      let (fresh, fits, same) = check_listeners_sound (is_none cfg.tls) cfg.listeners [] seen e in
      let (fresh', same') = check_services_sound (keys cfg.http.services) [] seen' e' in
      record {
        version = ground arith;
        one_default = check_tls_sound cfg.tls tls;
        listeners = (FreshFrom-nil_iff (names cfg.listeners)).0 fresh;
        https_has_tls =
            All-imp (TlsFits (is_none cfg.tls)) (λ l. l.protocol ≡ https → cfg.tls ≢ none)
              (TlsFits-sound cfg.tls) cfg.listeners fits;
        services = (FreshFrom-nil_iff (keys cfg.http.services)).0 fresh';
        routes = check_routes_sound cfg.http.routes (rw (same, same') at h₄);
      }

  validate_complete : IsValidConfig cfg → validate cfg ≡ ok tt
  unfolding validate
  validate_complete v =
      rw
        (
          v.version,
          check_tls_complete cfg.tls v.one_default,
          check_listeners_complete (is_none cfg.tls) cfg.listeners []
              ((FreshFrom-nil_iff (names cfg.listeners)).1 v.listeners)
              (All-imp (λ l. l.protocol ≡ https → cfg.tls ≢ none) (TlsFits (is_none cfg.tls))
                (λ l. TlsFits_complete cfg.tls l.protocol) cfg.listeners v.https_has_tls),
          check_services_complete (keys cfg.http.services) []
              ((FreshFrom-nil_iff (keys cfg.http.services)).1 v.services),
        )
        (check_routes_complete cfg.http.routes v.routes)

-- `validate` accepts exactly the valid configurations.
pub validate_iff : (cfg : GatewayConfig) → (validate cfg ≡ ok tt) ↔ IsValidConfig cfg
validate_iff cfg = (validate_sound cfg, validate_complete cfg)

-- It does not look at the TCP section: what it says of a configuration it says with any other one.
pub validate-tcp :
    (cfg : GatewayConfig) (other : TcpConfig) → validate (record cfg { tcp = other }) ≡ validate cfg
unfolding validate
validate-tcp cfg other = refl
