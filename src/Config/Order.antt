-- ===== src/Config/Order.antt =====
-- `GatewayConfig::validate` (src/config.rs) and the order of its `HashMap`s: `http.services` and
-- `http.middlewares` are iterated and looked up in an order that differs from run to run.
use portiq.Base.{
  ◌≡◌, ◌≢◌, refl, sym, not, eqb, Result, err, List, [], ◌∷◌, Option, none, some, Str, ◌==◌, eq_to,
  eq_iff, ok, Map, get, keys, contains, here, there, eq_of_iff, Bool-cases, inl, inr,
}
use portiq.Config.{GatewayConfig, HttpServiceConfig, RouteConfig, MiddlewareConfig}
use portiq.Config.Seen.{Named, Distinct, onto, contains-onto_iff, FreshFrom-nil_iff}
use portiq.Config.Loops.{check_services_complete}
use portiq.Config.Validate.{
  ConfigError, ◌>>=◌, bad_version, fail_if, is_none, check_tls, check_listeners, check_services,
  check_middlewares, check_route_middlewares, check_route, check_routes, validate,
}

-- Two lists of entries of one `HashMap`: no key twice, and the same value at each key.
pub record IsReordered {ℓ} {V : Type ℓ} (m m' : Map V) : Type ℓ where
  pub distinct : Distinct (keys m)
  pub distinct' : Distinct (keys m')
  pub same : (k : Str) → get k m ≡ get k m'

get_Named : {V : Type 0} (k : Str) (m : Map V) → get k m ≢ none → Named k (keys m)
unfolding get
get_Named k [] h = absurd (h refl)
get_Named k ((j, v) ∷ m) h = elim (Bool-cases (j == k)) [
  | inl hit ↦ here (eq_to j k hit)
  | inr miss ↦ there (get_Named k m (rw miss at h))
]

Named_get : {V : Type 0} (k : Str) (m : Map V) → Named k (keys m) → get k m ≢ none
unfolding get
Named_get k [] n = elim n [ ]
Named_get k ((j, v) ∷ m) (here e) = rw ((eq_iff j k).1 e) (λ h. cc)
Named_get k ((j, v) ∷ m) (there n) = elim (Bool-cases (j == k)) [
  | inl hit ↦ rw hit (λ h. cc)
  | inr miss ↦ rw miss (Named_get k m n)
]

module _ {V : Type 0} (m m' : Map V) (again : IsReordered m m') where
  onto_same : (k : Str) → contains (onto (keys m) []) k ≡ contains (onto (keys m') []) k
  onto_same k = eq_of_iff _ _ (
    λ h. (contains-onto_iff k (keys m')).1 (
        get_Named k m' (rw (again.same k) at (Named_get k m ((contains-onto_iff k (keys m)).0 h)))),
    λ h. (contains-onto_iff k (keys m)).1 (
        get_Named k m
          (rw (← again.same k) at (Named_get k m' ((contains-onto_iff k (keys m')).0 h)))),
  )

check_middlewares-same :
    (m m' : Map MiddlewareConfig) (xs : List Str)
    → ((k : Str) → get k m ≡ get k m')
    → check_middlewares m xs ≡ check_middlewares m' xs
unfolding check_middlewares
check_middlewares-same m m' [] same = refl
check_middlewares-same m m' (x ∷ xs) same = rw (same x, check_middlewares-same m m' xs same) refl

check_route_middlewares-same :
    (m m' : Map MiddlewareConfig) (o : Option (List Str))
    → ((k : Str) → get k m ≡ get k m')
    → check_route_middlewares m o ≡ check_route_middlewares m' o
unfolding check_route_middlewares
check_route_middlewares-same m m' none same = refl
check_route_middlewares-same m m' (some xs) same = check_middlewares-same m m' xs same

check_routes-same :
    (listeners s s' : List Str) (m m' : Map MiddlewareConfig) (routes : List RouteConfig)
    → ((k : Str) → contains s k ≡ contains s' k)
    → ((k : Str) → get k m ≡ get k m')
    → check_routes listeners s m routes ≡ check_routes listeners s' m' routes
unfolding check_routes check_route
check_routes-same listeners s s' m m' [] known same = refl
check_routes-same listeners s s' m m' (r ∷ rs) known same =
    rw
      (
        known r.service,
        check_route_middlewares-same m m' r.middlewares same,
        check_routes-same listeners s s' m m' rs known same,
      )
      refl

>>=-same :
    {A B : Type 0} (m : Result A ConfigError) {f g : A → Result B ConfigError}
    → ((v : A) → f v ≡ g v)
    → m >>= f ≡ m >>= g
>>=-same (ok v) same = same v
>>=-same (err e) same = refl

check_services-Distinct : (ks : List Str) → Distinct ks → check_services ks [] ≡ ok (onto ks [])
check_services-Distinct ks d = check_services_complete ks [] ((FreshFrom-nil_iff ks).1 d)

abbrev pub reordered : GatewayConfig → Map HttpServiceConfig → Map MiddlewareConfig → GatewayConfig
reordered cfg services middlewares = record cfg {
  http = record (cfg.http) { services = services; middlewares = middlewares };
}

-- Where the services and the middlewares of a configuration come out of their maps in other orders, no
-- key twice and the same value at each key, `validate` says the same of it, with the same error where
-- it is one.
pub validate-reordered :
    (cfg : GatewayConfig) (services : Map HttpServiceConfig) (middlewares : Map MiddlewareConfig)
    → IsReordered cfg.http.services services
    → IsReordered cfg.http.middlewares middlewares
    → validate (reordered cfg services middlewares) ≡ validate cfg
unfolding validate
validate-reordered cfg services middlewares again again' =
    rw
      (
        check_services-Distinct (keys services) again.distinct',
        check_services-Distinct (keys cfg.http.services) again.distinct,
      )
      (>>=-same (fail_if (not (eqb cfg.version 1)) bad_version) (λ t.
        >>=-same (check_tls cfg.tls) (λ t'.
          >>=-same (check_listeners (is_none cfg.tls) cfg.listeners []) (λ seen. sym (
            check_routes-same seen (onto (keys cfg.http.services) []) (onto (keys services) [])
              cfg.http.middlewares middlewares cfg.http.routes
              (onto_same cfg.http.services services again) again'.same)))))
