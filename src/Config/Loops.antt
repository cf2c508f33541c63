-- ===== src/Config/Loops.antt =====
-- The loops of `GatewayConfig::validate` (src/config.rs), one by one.
use portiq.Base.{
  ◌≡◌, ◌≢◌, refl, Bool, true, false, not, ◌&&◌, List, [], ◌∷◌, map, Option, none, some, Str, Result,
  ok, err, Map, get, contains, All, arith,
}
use portiq.Config.{Listener, MiddlewareConfig}
use portiq.Config.Seen.{Named, onto, FreshFrom, contains-false_iff, contains-onto_iff}
use portiq.Config.Validate.{
  ConfigError, ◌>>=◌, ◌>>◌, fail_if, is_none, is_https, check_listeners, check_services,
  check_route_listeners, check_middlewares,
}

abbrev pub names : List Listener → List Str
names = map (λ l. l.name)

pub is_none-false {ℓ} : {A : Type ℓ} (o : Option A) → is_none o ≡ false → o ≢ none
is_none-false none h = λ _. cc
is_none-false (some a) h = λ e. cc

pub is_none_of_ne {ℓ} : {A : Type ℓ} (o : Option A) → o ≢ none → is_none o ≡ false
is_none_of_ne none h = absurd (h refl)
is_none_of_ne (some a) h = refl

-- A passed test, and what comes after it.
pub fail_if-ok :
    {B : Type 0} (test : Bool) (e : ConfigError) (k : Result B ConfigError) {r : B}
    → (fail_if test e >> k) ≡ ok r
    → (test ≡ false) × (k ≡ ok r)
fail_if-ok true e k h = cc
fail_if-ok false e k h = (refl, h)

pub >>-ok :
    {B : Type 0} (m : Result (Unit {0}) ConfigError) (k : Result B ConfigError) {r : B}
    → (m >> k) ≡ ok r
    → (m ≡ ok tt) × (k ≡ ok r)
>>-ok (ok tt) k h = (refl, h)
>>-ok (err e) k h = cc

pub >>=-eq-ok :
    {A B : Type 0} (check : Result A ConfigError) (next : A → Result B ConfigError) {out : B}
    → check >>= next ≡ ok out
    → (v : A) × (next v ≡ ok out) × (check ≡ ok v)
>>=-eq-ok (err e) next passed = cc
>>=-eq-ok (ok v) next passed = (v, passed, refl)

abbrev pub TlsFits : Bool → Listener → Type 0
TlsFits no_tls l = (is_https l.protocol && no_tls) ≡ false

pub check_listeners_sound :
    (no_tls : Bool) (ls : List Listener) (seen seen' : List Str)
    → check_listeners no_tls ls seen ≡ ok seen'
    → FreshFrom seen (names ls) × All (TlsFits no_tls) ls × (seen' ≡ onto (names ls) seen)
unfolding check_listeners onto
check_listeners_sound no_tls [] seen seen' h = (tt, tt, ground arith)
check_listeners_sound no_tls (l ∷ ls) seen seen' h =
    let (fresh, h₁) = fail_if-ok (contains seen l.name) _ _ h in
    let (fits, h₂) = fail_if-ok (is_https l.protocol && no_tls) _ _ h₁ in
    let (later, all, same) = check_listeners_sound no_tls ls (l.name ∷ seen) seen' h₂ in
    (((contains-false_iff seen l.name).0 fresh, later), (fits, all), same)

pub check_listeners_complete :
    (no_tls : Bool) (ls : List Listener) (seen : List Str)
    → FreshFrom seen (names ls)
    → All (TlsFits no_tls) ls
    → check_listeners no_tls ls seen ≡ ok (onto (names ls) seen)
unfolding check_listeners onto
check_listeners_complete no_tls [] seen f t = refl
check_listeners_complete no_tls (l ∷ ls) seen f t =
    rw ((contains-false_iff seen l.name).1 f.0, t.0)
      (check_listeners_complete no_tls ls (l.name ∷ seen) f.1 t.1)

pub check_services_sound :
    (ks seen seen' : List Str)
    → check_services ks seen ≡ ok seen'
    → FreshFrom seen ks × (seen' ≡ onto ks seen)
unfolding check_services onto
check_services_sound [] seen seen' h = (tt, ground arith)
check_services_sound (k ∷ ks) seen seen' h =
    let (fresh, h₁) = fail_if-ok (contains seen k) _ _ h in
    let (later, same) = check_services_sound ks (k ∷ seen) seen' h₁ in
    (((contains-false_iff seen k).0 fresh, later), same)

pub check_services_complete :
    (ks seen : List Str) → FreshFrom seen ks → check_services ks seen ≡ ok (onto ks seen)
unfolding check_services onto
check_services_complete [] seen f = refl
check_services_complete (k ∷ ks) seen f =
    rw ((contains-false_iff seen k).1 f.0) (check_services_complete ks (k ∷ seen) f.1)

-- The loops over what a route names.
module _ (defined : List Str) where
  pub check_route_listeners_sound :
      (ls : List Str)
      → check_route_listeners (onto defined []) ls ≡ ok tt
      → All (λ l. Named l defined) ls
  unfolding check_route_listeners
  check_route_listeners_sound [] h = tt
  check_route_listeners_sound (l ∷ ls) h =
      let (known, h₁) = fail_if-ok (not (contains (onto defined []) l)) _ _ h in
      ((contains-onto_iff l defined).0 (ground arith), check_route_listeners_sound ls h₁)

  pub check_route_listeners_complete :
      (ls : List Str)
      → All (λ l. Named l defined) ls
      → check_route_listeners (onto defined []) ls ≡ ok tt
  unfolding check_route_listeners
  check_route_listeners_complete [] h = refl
  check_route_listeners_complete (l ∷ ls) h =
      rw ((contains-onto_iff l defined).1 h.0) (check_route_listeners_complete ls h.1)

module _ (defined : Map MiddlewareConfig) where
  pub check_middlewares_sound :
      (ms : List Str) → check_middlewares defined ms ≡ ok tt → All (λ m. get m defined ≢ none) ms
  unfolding check_middlewares
  check_middlewares_sound [] h = tt
  check_middlewares_sound (m ∷ ms) h =
      let (known, h₁) = fail_if-ok (is_none (get m defined)) _ _ h in
      (is_none-false (get m defined) known, check_middlewares_sound ms h₁)

  pub check_middlewares_complete :
      (ms : List Str) → All (λ m. get m defined ≢ none) ms → check_middlewares defined ms ≡ ok tt
  unfolding check_middlewares
  check_middlewares_complete [] h = refl
  check_middlewares_complete (m ∷ ms) h =
      rw (is_none_of_ne (get m defined) h.0) (check_middlewares_complete ms h.1)
