-- ===== src/Base/Members.antt =====
-- Predicates of all and of some elements of a list.
use Prim.Native.Nat.{ℕ, zero, suc, ◌<◌}
use mathlib.Core.Path.{subst, sym, ◌≡◌}
use mathlib.Core.Logic.{◌⊎◌, inl, inr}
use mathlib.Core.List.{map, List, [], ◌∷◌, ◌++◌}
use mathlib.Core.Option.{some}
use native.Mathlib.Omega.{arith}
use portiq.Base.Lists.{get_elem?, set, replicate, take, drop, take-append-drop}

module _ {ℓ κ} {A : Type ℓ} (P : A → Type κ) where
  abbrev pub All : List A → Type κ
  All [] = Unit
  All (x ∷ xs) = P x × All xs

  -- Membership with a place: some element has the property.
  pub data Any : List A → Type (ℓ ⊔ κ) where
    here : {x : A} {xs : List A} → P x → Any (x ∷ xs)
    there : {x : A} {xs : List A} → Any xs → Any (x ∷ xs)

  pub not-Any-cons : {x : A} {xs : List A} → ¬ P x → ¬ Any xs → Any (x ∷ xs) → ⊥
  not-Any-cons neither none_of (here p) = neither p
  not-Any-cons neither none_of (there m) = none_of m

  pub All-append : (xs ys : List A) → All xs → All ys → All (xs ++ ys)
  All-append [] ys h k = k
  All-append (x ∷ xs) ys h k = (h.0, All-append xs ys h.1 k)

  pub All-get_elem? : (xs : List A) (i : ℕ) {a : A} → All xs → get_elem? xs i ≡ some a → P a
  All-get_elem? [] i h e = cc
  All-get_elem? (x ∷ xs) zero h e = ground (arith, h.0)
  All-get_elem? (x ∷ xs) (suc i) h e = All-get_elem? xs i h.1 e

  pub All-set : (xs : List A) (i : ℕ) {v : A} → All xs → P v → All (set xs i v)
  All-set [] i h p = tt
  All-set (x ∷ xs) zero h p = (p, h.1)
  All-set (x ∷ xs) (suc i) h p = (h.0, All-set xs i h.1 p)

  pub All-replicate : (n : ℕ) {v : A} → P v → All (replicate n v)
  All-replicate zero p = tt
  All-replicate (suc n) p = (p, All-replicate n p)

module _ {ℓ κ μ} {A : Type ℓ} (P : A → Type κ) (Q : A → Type μ) (f : (a : A) → P a → Q a) where
  pub All-imp : (xs : List A) → All P xs → All Q xs
  All-imp [] h = tt
  All-imp (x ∷ xs) h = (f x h.0, All-imp xs h.1)

pub All-map {ℓ κ μ} :
    {A : Type ℓ} {B : Type κ} (P : B → Type μ) (f : A → B) (xs : List A)
    → All (λ x. P (f x)) xs
    → All P (map f xs)
All-map P f [] h = tt
All-map P f (x ∷ xs) h = (h.0, All-map P f xs h.1)

-- What holds of all fails of none.
pub All-refutes {ℓ κ} :
    {A : Type ℓ} (P : A → Type κ) (xs : List A) → All P xs → Any (λ x. ¬ P x) xs → ⊥
All-refutes P [] h any = elim any [ ]
All-refutes P (x ∷ xs) h (here n) = n h.0
All-refutes P (x ∷ xs) h (there m) = All-refutes P xs h.1 m

module _ {ℓ κ} {A : Type ℓ} (P : A → Type κ) where
  pub Any-append_left : (xs ys : List A) → Any P xs → Any P (xs ++ ys)
  Any-append_left (x ∷ xs) ys (here p) = here p
  Any-append_left (x ∷ xs) ys (there m) = there (Any-append_left xs ys m)
  Any-append_left [] ys m = elim m [ ]

  pub Any-append_right : (xs ys : List A) → Any P ys → Any P (xs ++ ys)
  Any-append_right [] ys m = m
  Any-append_right (x ∷ xs) ys m = there (Any-append_right xs ys m)

  Any-append_swap : (xs ys : List A) → Any P (xs ++ ys) → Any P (ys ++ xs)
  Any-append_swap [] ys m = Any-append_left ys [] m
  Any-append_swap (x ∷ xs) ys (here p) = Any-append_right ys (x ∷ xs) (here p)
  Any-append_swap (x ∷ xs) ys (there m) = insert_there ys (Any-append_swap xs ys m)
    where
      insert_there : (zs : List A) → Any P (zs ++ xs) → Any P (zs ++ x ∷ xs)
      insert_there [] n = there n
      insert_there (z ∷ zs) (here p) = here p
      insert_there (z ∷ zs) (there n) = there (insert_there zs n)

  -- What a list has, it has from any place on and around.
  pub Any-rotate : (k : ℕ) (xs : List A) → Any P xs → Any P (drop k xs ++ take k xs)
  Any-rotate k xs m =
      Any-append_swap (take k xs) (drop k xs) (subst (Any P) (sym (take-append-drop k xs)) m)

abbrev pub Has {ℓ} : {A : Type ℓ} → A → List A → Type ℓ
Has a xs = Any (λ x. x ≡ a) xs

pub get_elem?-Has {ℓ} :
    {A : Type ℓ} (xs : List A) (k : ℕ) {a : A} → get_elem? xs k ≡ some a → Has a xs
get_elem?-Has [] k e = cc
get_elem?-Has (x ∷ xs) zero e = here (cc e)
get_elem?-Has (x ∷ xs) (suc k) e = there (get_elem?-Has xs k e)

pub Any-append_inv {ℓ κ} :
    {A : Type ℓ} (P : A → Type κ) (xs ys : List A) → Any P (xs ++ ys) → Any P xs ⊎ Any P ys
Any-append_inv P [] ys m = inr m
Any-append_inv P (x ∷ xs) ys (here p) = inl (here p)
Any-append_inv P (x ∷ xs) ys (there m) = elim (Any-append_inv P xs ys m) [
  | inl left ↦ inl (there left)
  | inr right ↦ inr right
]

pub Has-replicate_inv {ℓ} :
    {A : Type ℓ} (n : ℕ) (a : A) {b : A} → Has b (replicate n a) → (0 < n) × (a ≡ b)
Has-replicate_inv zero a m = elim m [ ]
Has-replicate_inv (suc n) a (here e) = (omega arith, e)
Has-replicate_inv (suc n) a (there m) = (omega arith, (Has-replicate_inv n a m).1)

pub All-append_inv {ℓ κ} :
    {A : Type ℓ} (P : A → Type κ) (xs ys : List A) → All P (xs ++ ys) → All P xs × All P ys
All-append_inv P [] ys h = (tt, h)
All-append_inv P (x ∷ xs) ys h =
    let (left, right) = All-append_inv P xs ys h.1 in ((h.0, left), right)
