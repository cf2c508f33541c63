-- ===== src/LoadBalancer/Runs.antt =====
-- Runs of calls of `select` (src/load_balancer/mod.rs), taken apart.
use native.Mathlib.Nat.{mod-eq_of_lt, mod_self, zero-add}
use portiq.Base.{
  ℕ, zero, suc, ◌+◌, ◌%◌, ◌<◌, ◌≡◌, refl, sym, ap, ◌∙◌, List, [], ◌∷◌, ◌++◌, map, Option, some,
  returned, length, get_elem?, true, false, arith, ◌>>=◌, >>=_assoc, >>=-returned, >>=-congr,
}
use portiq.LoadBalancer.{usize_mod, WeightedRoundRobin, is_empty, select, selects}
use Prim.Native.Nat.add

pub length-map {ℓ κ} :
    {A : Type ℓ} {B : Type κ} (f : A → B) (xs : List A) → length (map f xs) ≡ length xs
length-map f [] = refl
length-map f (x ∷ xs) = ap suc (length-map f xs)

-- Where two lists agree under a lookup and `some`, so do their entries.
pub get_elem?-resolves {ℓ} :
    {A : Type ℓ} (look : ℕ → Option A) (is : List ℕ) (xs : List A) (k : ℕ) (x : A)
    → map look is ≡ map some xs
    → get_elem? xs k ≡ some x
    → (i : ℕ) × (get_elem? is k ≡ some i) × (look i ≡ some x)
get_elem?-resolves look [] [] k x e h = cc
get_elem?-resolves look [] (y ∷ ys) k x e h = cc
get_elem?-resolves look (i ∷ is) [] k x e h = cc
get_elem?-resolves look (i ∷ is) (y ∷ ys) zero x e h = (i, refl, cc)
get_elem?-resolves look (i ∷ is) (y ∷ ys) (suc k) x e h = get_elem?-resolves look is ys k x (cc) h

pub is_empty_of_pos {ℓ} : {A : Type ℓ} (xs : List A) → 0 < length xs → is_empty xs ≡ false
is_empty_of_pos [] h = absurd (omega arith)
is_empty_of_pos (y ∷ ys) h = refl

pub lt_of_get_elem? {ℓ} :
    {A : Type ℓ} (xs : List A) (k : ℕ) {x : A} → get_elem? xs k ≡ some x → 0 < length xs
lt_of_get_elem? [] k h = cc
lt_of_get_elem? (y ∷ ys) k h = omega arith

pub is_empty_of_length {ℓ} : {A : Type ℓ} (xs : List A) → length xs ≡ 0 → is_empty xs ≡ true
is_empty_of_length [] h = refl
is_empty_of_length (x ∷ xs) h = absurd (omega arith)

-- Where `x + 1` does not overflow, the cursor moves on by one, and wraps at the end.
pub next_within : (k len : ℕ) → len < usize_mod → k + 1 < len → (k + 1) % usize_mod % len ≡ k + 1
next_within k len s h = rw (mod-eq_of_lt {n = k + 1} {m = usize_mod} (omega arith)) (mod-eq_of_lt h)

pub next_wraps : (k len : ℕ) → len < usize_mod → k + 1 ≡ len → (k + 1) % usize_mod % len ≡ 0
next_wraps k len s h = rw (mod-eq_of_lt {n = k + 1} {m = usize_mod} (omega arith), h) (mod_self len)

-- The same balancer with its cursor at `k`.
abbrev pub at : WeightedRoundRobin → ℕ → WeightedRoundRobin
at lb k = record lb { next_index = k }

-- `m + n` calls are `m` calls, then `n`.
pub selects_add :
    (m n : ℕ) (lb : WeightedRoundRobin)
    → selects (m + n) lb ≡ (selects m lb >>= λ r. selects n r.1 >>= λ q. returned (r.0 ++ q.0, q.1))
unfolding selects
selects_add zero n lb = rw (zero-add n) (sym (>>=-returned (selects n lb)))
selects_add (suc m) n lb = rw (add.suc m n) (
    >>=-congr (select lb) (λ c. rw (selects_add m n c.1) (
      >>=_assoc (selects m c.1) _ _
      ∙ >>=-congr (selects m c.1) (λ r. >>=_assoc (selects n r.1) _ _)
      ∙ sym (>>=_assoc (selects m c.1) _ _)))
    ∙ sym (>>=_assoc (select lb) _ _))
