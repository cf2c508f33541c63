-- ===== src/Config/Errors.antt =====
-- Where the loops of `GatewayConfig::validate` (src/config.rs) stop with an error.
use portiq.Base.{
  ◌≡◌, ◌⊎◌, inl, inr, refl, ap, Bool, true, false, not, ◌&&◌, List, [], ◌∷◌, ◌++◌, Option, none,
  some, Str, Result, ok, err, Map, get, contains, here, there, Has, arith,
}
use portiq.Config.{Listener, Protocol, http, https, tcp, MiddlewareConfig}
use portiq.Config.Seen.{Named, contains_iff}
use portiq.Config.Loops.{names}
use portiq.Config.Validate.{
  ConfigError, duplicate_listener, tls_required, duplicate_service, undefined_listener,
  undefined_middleware, ◌>>=◌, ◌>>◌, fail_if, is_none, is_https, check_listeners, check_services,
  check_route_listeners, check_middlewares,
}

-- An error of a check comes from its test, or from what comes after it.
pub fail_if-err :
    {B : Type 0} (test : Bool) (e' : ConfigError) (k : Result B ConfigError) {e : ConfigError}
    → (fail_if test e' >> k) ≡ err e
    → ((test ≡ true) × (e' ≡ e)) ⊎ ((test ≡ false) × (k ≡ err e))
fail_if-err true e' k h = inl (refl, cc)
fail_if-err false e' k h = inr (refl, h)

pub fail_if_inv :
    (test : Bool) (e' : ConfigError) {e : ConfigError}
    → fail_if test e' ≡ err e
    → (test ≡ true) × (e' ≡ e)
fail_if_inv true e' h = (refl, cc)
fail_if_inv false e' h = cc

pub >>-err :
    {B : Type 0} (m : Result (Unit {0}) ConfigError) (k : Result B ConfigError) {e : ConfigError}
    → (m >> k) ≡ err e
    → (m ≡ err e) ⊎ (k ≡ err e)
>>-err (ok tt) k h = inr h
>>-err (err e') k h = inl (cc)

pub >>=-err :
    {A B : Type 0} (m : Result A ConfigError) (next : A → Result B ConfigError) {e : ConfigError}
    → m >>= next ≡ err e
    → (m ≡ err e) ⊎ ((v : A) × (m ≡ ok v) × (next v ≡ err e))
>>=-err (err e') next h = inl (cc)
>>=-err (ok v) next h = inr (v, refl, h)

pub is_none_inv {ℓ} : {A : Type ℓ} (o : Option A) → is_none o ≡ true → o ≡ none
is_none_inv none h = refl
is_none_inv (some a) h = cc

is_https_inv : (p : Protocol) → is_https p ≡ true → p ≡ https
is_https_inv https h = refl
is_https_inv http h = cc
is_https_inv tcp h = cc

-- The loop over the listeners, from the names that were seen before.
pub data ListenerFault (no_tls : Bool) (ls : List Listener) (seen : List Str) (e : ConfigError)
    : Type 0 where
  repeats :
      (before : List Listener) (l : Listener) (after : List Listener)
      → ls ≡ before ++ l ∷ after
      → Named l.name (names before) ⊎ Named l.name seen
      → duplicate_listener l.name ≡ e
      → ListenerFault no_tls ls seen e
  lacks_tls :
      (l : Listener)
      → Has l ls
      → l.protocol ≡ https
      → no_tls ≡ true
      → tls_required l.name ≡ e
      → ListenerFault no_tls ls seen e

ListenerFault-cons :
    {no_tls : Bool} {first : Listener} {ls : List Listener} {seen : List Str} {e : ConfigError}
    → ListenerFault no_tls ls (first.name ∷ seen) e
    → ListenerFault no_tls (first ∷ ls) seen e
ListenerFault-cons {first = first} (repeats before l after split (inl m) same) =
    repeats (first ∷ before) l after (ap (◌∷◌ first) split) (inl (there m)) same
ListenerFault-cons {first = first} (repeats before l after split (inr (here m)) same) =
    repeats (first ∷ before) l after (ap (◌∷◌ first) split) (inl (here m)) same
ListenerFault-cons {first = first} (repeats before l after split (inr (there m)) same) =
    repeats (first ∷ before) l after (ap (◌∷◌ first) split) (inr m) same
ListenerFault-cons (lacks_tls l m is none_there same) = lacks_tls l (there m) is none_there same

pub check_listeners-ListenerFault :
    (no_tls : Bool) (ls : List Listener) (seen : List Str) {e : ConfigError}
    → check_listeners no_tls ls seen ≡ err e
    → ListenerFault no_tls ls seen e
unfolding check_listeners
check_listeners-ListenerFault no_tls [] seen h = cc
check_listeners-ListenerFault no_tls (l ∷ ls) seen h =
    elim (fail_if-err (contains seen l.name) _ _ h) [
      | inl (is, same) ↦ repeats [] l ls refl (inr ((contains_iff seen l.name).0 is)) same
      | inr (_, h₁) ↦ elim (fail_if-err (is_https l.protocol && no_tls) _ _ h₁) [
        | inl (is, same) ↦
            lacks_tls l (here refl) (is_https_inv l.protocol (ground (arith, is)))
              (ground (arith, is)) same
        | inr (_, h₂) ↦
            ListenerFault-cons (check_listeners-ListenerFault no_tls ls (l.name ∷ seen) h₂)
      ]
    ]

-- The loop over the services likewise.
abbrev pub ServiceFault : List Str → List Str → ConfigError → Type 0
ServiceFault names seen e =
    (before : List Str) × (name : Str) × (after : List Str) × (names ≡ before ++ name ∷ after)
    × (Named name before ⊎ Named name seen)
    × (duplicate_service name ≡ e)

pub check_services-ServiceFault :
    (names seen : List Str) {e : ConfigError}
    → check_services names seen ≡ err e
    → ServiceFault names seen e
unfolding check_services
check_services-ServiceFault [] seen h = cc
check_services-ServiceFault (name ∷ names) seen h = elim (fail_if-err (contains seen name) _ _ h) [
  | inl (is, same) ↦ ([], name, names, refl, inr ((contains_iff seen name).0 is), same)
  | inr (_, h₁) ↦
      let (before, k, after, split, m, same) = check_services-ServiceFault names (name ∷ seen) h₁ in
      (
        name ∷ before,
        k,
        after,
        ap (◌∷◌ name) split,
        elim m [
          | inl earlier ↦ inl (there earlier)
          | inr (here p) ↦ inl (here p)
          | inr (there p) ↦ inr p
        ],
        same,
      )
]

pub check_route_listeners-err :
    (seen listeners : List Str) {e : ConfigError}
    → check_route_listeners seen listeners ≡ err e
    → (name : Str) × Named name listeners
      × (contains seen name ≡ false)
      × (undefined_listener name ≡ e)
unfolding check_route_listeners
check_route_listeners-err seen [] h = cc
check_route_listeners-err seen (l ∷ listeners) h =
    elim (fail_if-err (not (contains seen l)) _ _ h) [
      | inl (is, same) ↦ (l, here refl, ground (arith, is), same)
      | inr (_, h₁) ↦
          let (name, m, missing, same) = check_route_listeners-err seen listeners h₁ in
          (name, there m, missing, same)
    ]

pub check_middlewares-err :
    (defined : Map MiddlewareConfig) (ms : List Str) {e : ConfigError}
    → check_middlewares defined ms ≡ err e
    → (name : Str) × Named name ms × (get name defined ≡ none) × (undefined_middleware name ≡ e)
unfolding check_middlewares
check_middlewares-err defined [] h = cc
check_middlewares-err defined (m ∷ ms) h = elim (fail_if-err (is_none (get m defined)) _ _ h) [
  | inl (is, same) ↦ (m, here refl, is_none_inv (get m defined) is, same)
  | inr (_, h₁) ↦
      let (name, named, missing, same) = check_middlewares-err defined ms h₁ in
      (name, there named, missing, same)
]
