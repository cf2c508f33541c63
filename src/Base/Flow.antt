-- ===== src/Base/Flow.antt =====
-- Rust's `Result`, and calls that may panic.
use mathlib.Core.Path.{◌≡◌, refl}
use mathlib.Core.Logic.{◌⊎◌, inl, inr}
use mathlib.Core.Option.{Option, none, some}

pub data Result {ℓ κ} (A : Type ℓ) (E : Type κ) : Type (ℓ ⊔ κ) where
  err : E → Result A E
  ok : A → Result A E

-- `Option::ok_or`.
abbrev pub ok_or {ℓ κ} : {A : Type ℓ} {E : Type κ} → Option A → E → Result A E
ok_or none e = err e
ok_or (some a) e = ok a

pub ok-injective {ℓ κ} :
    {A : Type ℓ} {E : Type κ} {a b : A} → Path (Result A E) (ok a) (ok b) → a ≡ b
ok-injective e = cc

pub Result-cases {ℓ κ} :
    {A : Type ℓ} {E : Type κ} (r : Result A E) → ((e : E) × (r ≡ err e)) ⊎ ((a : A) × (r ≡ ok a))
Result-cases (ok a) = inr (a, refl)
Result-cases (err e) = inl (e, refl)

-- A call returns, or panics: a failed assertion, `unwrap` of nothing, an index out of range.
pub data Exec {ℓ} (A : Type ℓ) : Type ℓ where
  returned : A → Exec A
  panicked : Exec A

infixl 5 ◌>>=◌
abbrev pub ◌>>=◌ {ℓ κ} : {A : Type ℓ} {B : Type κ} → Exec A → (A → Exec B) → Exec B
panicked >>= next = panicked
returned value >>= next = next value

-- `Option::unwrap` and `expect`, and indexing of a slice by `get_elem?`.
abbrev pub unwrap {ℓ} : {A : Type ℓ} → Option A → Exec A
unwrap none = panicked
unwrap (some a) = returned a

-- A chain of calls that returns has returned at each of them.
pub >>=-returned_inv {ℓ κ} :
    {A : Type ℓ} {B : Type κ} (call : Exec A) (next : A → Exec B) {out : B}
    → call >>= next ≡ returned out
    → (v : A) × (next v ≡ returned out) × (call ≡ returned v)
>>=-returned_inv panicked next h = cc
>>=-returned_inv (returned v) next h = (v, h, refl)

pub unwrap-returned_inv {ℓ} :
    {A : Type ℓ} (o : Option A) {v : A} → unwrap o ≡ returned v → o ≡ some v
unwrap-returned_inv none h = cc
unwrap-returned_inv (some a) h = cc

pub >>=_assoc {ℓ κ μ} :
    {A : Type ℓ} {B : Type κ} {C : Type μ} (m : Exec A) (f : A → Exec B) (g : B → Exec C)
    → ((m >>= f) >>= g) ≡ (m >>= λ a. f a >>= g)
>>=_assoc (returned a) f g = refl
>>=_assoc panicked f g = refl

pub >>=-returned {ℓ} : {A : Type ℓ} (m : Exec A) → (m >>= returned) ≡ m
>>=-returned (returned a) = refl
>>=-returned panicked = refl

-- Two ways on agree where they agree on what is returned.
pub >>=-congr {ℓ κ} :
    {A : Type ℓ} {B : Type κ} (m : Exec A) {f g : A → Exec B}
    → ((a : A) → f a ≡ g a)
    → (m >>= f) ≡ (m >>= g)
>>=-congr (returned a) h = h a
>>=-congr panicked h = refl

-- What one call returns is one value: both parts agree.
pub returned-state {ℓ κ} :
    {A : Type ℓ} {S : Type κ} {a a' : A} {s s' : S}
    → Path (Exec (A × S)) (returned (a, s)) (returned (a', s'))
    → (a ≡ a') × (s ≡ s')
returned-state e = (cc, cc)

pub returned-injective {ℓ} :
    {A : Type ℓ} {a b : A} → Path (Exec A) (returned a) (returned b) → a ≡ b
returned-injective e = cc

pub Exec-cases {ℓ} : {A : Type ℓ} (m : Exec A) → (m ≡ panicked) ⊎ ((a : A) × (m ≡ returned a))
Exec-cases panicked = inl refl
Exec-cases (returned a) = inr (a, refl)
