-- ===== src/Config/Faults.antt =====
-- What the errors of `GatewayConfig::validate` (src/config.rs) say is so.
use portiq.Base.{
  ◌≡◌, ◌≢◌, inl, inr, refl, subst, false, not, ◌&&◌, List, [], ◌∷◌, ◌++◌, none, some, Str, err, get,
  keys, contains, here, there, Has, arith, Option-cases, eqb,
}
use portiq.Config.{GatewayConfig, TlsConfig, Listener, https, RouteConfig}
use portiq.Config.Seen.{Named, onto, contains-onto_iff}
use portiq.Config.Loops.{names, check_listeners_sound, check_services_sound}
use portiq.Config.Validate.{
  ConfigError, bad_version, default_tls_count, duplicate_listener, tls_required, duplicate_service,
  no_hosts_or_path, undefined_listener, undefined_service, undefined_middleware, is_none,
  default_count, check_tls, check_listeners, check_services, check_route_listeners,
  check_route_middlewares, check_route, check_routes, validate,
}
use portiq.Config.Errors.{
  fail_if-err, fail_if_inv, >>-err, >>=-err, is_none_inv, repeats, lacks_tls,
  check_listeners-ListenerFault, check_services-ServiceFault, check_route_listeners-err,
  check_middlewares-err,
}

-- What is wrong where an error is reported.
pub data Fault (cfg : GatewayConfig) : ConfigError → Type 0 where
  wrong_version : cfg.version ≢ 1 → Fault cfg bad_version
  wrong_defaults :
      (tls : List TlsConfig)
      → cfg.tls ≡ some tls
      → default_count tls ≢ 1
      → Fault cfg (default_tls_count (default_count tls))
  repeated_listener :
      (before : List Listener) (l : Listener) (after : List Listener)
      → cfg.listeners ≡ before ++ l ∷ after
      → Named l.name (names before)
      → Fault cfg (duplicate_listener l.name)
  https_without_tls :
      (l : Listener)
      → Has l cfg.listeners
      → l.protocol ≡ https
      → cfg.tls ≡ none
      → Fault cfg (tls_required l.name)
  repeated_service :
      (before : List Str) (name : Str) (after : List Str)
      → keys cfg.http.services ≡ before ++ name ∷ after
      → Named name before
      → Fault cfg (duplicate_service name)
  matches_nothing :
      (route : RouteConfig)
      → Has route cfg.http.routes
      → route.hosts ≡ none
      → route.path ≡ none
      → Fault cfg (no_hosts_or_path route.service)
  missing_listener :
      (route : RouteConfig) (name : Str)
      → Has route cfg.http.routes
      → Named name route.listeners
      → ¬ Named name (names cfg.listeners)
      → Fault cfg (undefined_listener name)
  missing_service :
      (route : RouteConfig)
      → Has route cfg.http.routes
      → ¬ Named route.service (keys cfg.http.services)
      → Fault cfg (undefined_service route.service)
  missing_middleware :
      (route : RouteConfig) (ms : List Str) (name : Str)
      → Has route cfg.http.routes
      → route.middlewares ≡ some ms
      → Named name ms
      → get name cfg.http.middlewares ≡ none
      → Fault cfg (undefined_middleware name)

module _ (cfg : GatewayConfig) where
  not_seen : (xs : List Str) (k : Str) → contains (onto xs []) k ≡ false → ¬ Named k xs
  not_seen xs k h m = ground (arith, (contains-onto_iff k xs).1 m)

  check_route-Fault :
      (route : RouteConfig) {e : ConfigError}
      → Has route cfg.http.routes
      → check_route
          (onto (names cfg.listeners) [])
          (onto (keys cfg.http.services) [])
          cfg.http.middlewares
          route
        ≡ err e
      → Fault cfg e
  unfolding check_route check_route_middlewares
  check_route-Fault route listed h =
      elim (fail_if-err (is_none route.hosts && is_none route.path) _ _ h) [
        | inl (is, same) ↦ subst (Fault cfg) same (
            matches_nothing route listed (is_none_inv route.hosts (ground (arith, is)))
              (is_none_inv route.path (ground (arith, is))))
        | inr (_, h₁) ↦ elim (>>-err (check_route_listeners _ route.listeners) _ h₁) [
          | inl bad ↦
              let (name, m, missing, same) = check_route_listeners-err _ route.listeners bad in
              subst (Fault cfg) same
                (missing_listener route name listed m (not_seen (names cfg.listeners) name missing))
          | inr h₂ ↦
              elim (fail_if-err (not (contains (onto (keys cfg.http.services) []) route.service)) _
                _ h₂) [
                  | inl (is, same) ↦ subst (Fault cfg) same (
                      missing_service route listed
                        (not_seen (keys cfg.http.services) route.service (ground (arith, is))))
                  | inr (_, h₃) ↦ elim (Option-cases route.middlewares) [
                    | inl e ↦ cc (rw e at h₃)
                    | inr (ms, e) ↦
                        let (name, m, missing, same) =
                          check_middlewares-err cfg.http.middlewares ms (rw e at h₃) in
                        subst (Fault cfg) same (missing_middleware route ms name listed e m missing)
                  ]
                ]
        ]
      ]

  check_routes-Fault :
      (routes : List RouteConfig) {e : ConfigError}
      → ((route : RouteConfig) → Has route routes → Has route cfg.http.routes)
      → check_routes
          (onto (names cfg.listeners) [])
          (onto (keys cfg.http.services) [])
          cfg.http.middlewares
          routes
        ≡ err e
      → Fault cfg e
  unfolding check_routes
  check_routes-Fault [] inside h = cc
  check_routes-Fault (route ∷ routes) inside h = elim (>>-err (check_route _ _ _ route) _ h) [
    | inl bad ↦ check_route-Fault route (inside route (here refl)) bad
    | inr h₁ ↦ check_routes-Fault routes (λ r m. inside r (there m)) h₁
  ]

  check_tls-Fault : {e : ConfigError} → check_tls cfg.tls ≡ err e → Fault cfg e
  unfolding check_tls
  check_tls-Fault h = elim (Option-cases cfg.tls) [
    | inl e ↦ cc (rw e at h)
    | inr (tls, e) ↦
        let (is, same) = fail_if_inv (not (eqb (default_count tls) 1)) _ (rw e at h) in
        subst (Fault cfg) same (wrong_defaults tls e (λ one. ground (arith, is, one)))
  ]

  -- The error that `validate` reports is a fault of the configuration, and is about what it names.
  pub validate-Fault : {e : ConfigError} → validate cfg ≡ err e → Fault cfg e
  unfolding validate
  validate-Fault h = elim (fail_if-err (not (eqb cfg.version 1)) _ _ h) [
    | inl (is, same) ↦ subst (Fault cfg) same (wrong_version (λ v. ground (arith, is, v)))
    | inr (_, h₁) ↦ elim (>>-err (check_tls cfg.tls) _ h₁) [
      | inl bad ↦ check_tls-Fault bad
      | inr h₂ ↦ elim (>>=-err (check_listeners (is_none cfg.tls) cfg.listeners []) _ h₂) [
        | inl bad ↦ elim (check_listeners-ListenerFault (is_none cfg.tls) cfg.listeners [] bad) [
          | repeats before l after split (inl m) same ↦
              subst (Fault cfg) same (repeated_listener before l after split m)
          | repeats before l after split (inr m) same ↦ elim m [ ]
          | lacks_tls l m is no_tls same ↦
              subst (Fault cfg) same (https_without_tls l m is (is_none_inv cfg.tls no_tls))
        ]
        | inr (seen, passed, h₃) ↦
            let (_, _, all_seen) =
              check_listeners_sound (is_none cfg.tls) cfg.listeners [] seen passed in
            elim (>>=-err (check_services (keys cfg.http.services) []) _ h₃) [
              | inl bad ↦
                  let (before, k, after, split, m, same) =
                    check_services-ServiceFault (keys cfg.http.services) [] bad in
                  elim m [
                    | inl earlier ↦
                        subst (Fault cfg) same (repeated_service before k after split earlier)
                    | inr never ↦ elim never [ ]
                  ]
              | inr (services, passed', h₄) ↦
                  let (_, all_services) =
                    check_services_sound (keys cfg.http.services) [] services passed' in
                  check_routes-Fault cfg.http.routes (λ r m. m) (rw (all_seen, all_services) at h₄)
            ]
      ]
    ]
  ]
