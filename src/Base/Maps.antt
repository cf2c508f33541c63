-- ===== src/Base/Maps.antt =====
-- `HashMap<String, V>` as its entries in the order of iteration, which is not specified: what holds
-- for every list holds for every order.
use mathlib.Core.Path.{◌≡◌, refl}
use mathlib.Core.Bool.{Bool, true, false}
use mathlib.Core.List.{List, [], ◌∷◌}
use mathlib.Core.Option.{Option, none, some}
use native.Mathlib.Omega.{arith}
use portiq.Base.Bools.{if◌then◌else◌}
use portiq.Base.Text.{Str, ◌==◌, eq_iff}

module _ {ℓ} where
  abbrev pub Map : Type ℓ → Type ℓ
  Map V = List (Str × V)

  -- `HashMap::get`.
  unfoldable pub get : {V : Type ℓ} → Str → Map V → Option V
  get key [] = none
  get key (entry ∷ rest) = if entry.0 == key then some entry.1 else get key rest

  -- `HashMap::insert`.
  unfoldable pub insert : {V : Type ℓ} → Str → V → Map V → Map V
  insert key new [] = (key, new) ∷ []
  insert key new (entry ∷ rest) =
      if entry.0 == key then (key, new) ∷ rest else entry ∷ insert key new rest

  abbrev pub keys : {V : Type ℓ} → Map V → List Str
  keys [] = []
  keys ((k, v) ∷ m) = k ∷ keys m

  pub get-insert :
      {V : Type ℓ} (key other : Str) (new : V) (m : Map V)
      → get other (insert key new m) ≡ (if key == other then some new else get other m)
  unfolding get insert
  get-insert key other new [] = refl
  get-insert key other new ((at, old) ∷ rest) =
      let again = get-insert key other new rest in
      ground (arith, eq_iff at key, eq_iff at other, eq_iff key other, again)

-- `HashSet::contains` and `Vec`'s, of the elements in any order.
unfoldable pub contains : List Str → Str → Bool
contains [] k = false
contains (j ∷ s) k = if j == k then true else contains s k
