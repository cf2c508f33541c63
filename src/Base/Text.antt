-- ===== src/Base/Text.antt =====
-- Rust's `str` as its UTF-8 bytes, with the operations of `str` that the program calls. Every
-- literal of the program is ASCII, where code points and bytes agree.
use Prim.Native.Nat.{ℕ}
use Prim.Native.Char.{code}
use Prim.Native.String.{String}
use mathlib.Core.Path.{◌≡◌, refl, ap, sym, ◌∙◌}
use mathlib.Core.Logic.{◌↔◌, inl, inr}
use mathlib.Core.Bool.{Bool, true, false, ◌&&◌, ◌||◌}
use mathlib.Core.List.{List, [], ◌∷◌, ◌++◌}
use mathlib.Core.Option.{Option, none, some}
use native.Mathlib.Omega.{arith}
use portiq.Base.Bools.{eqb, Bool-cases, if◌then◌else◌}

abbrev pub Str : Type 0
Str = List ℕ

abbrev pub text : String → Str
text String.[] = []
text (String.◌∷◌ c s) = code c ∷ text s

infix 50 ◌==◌
unfoldable pub ◌==◌ : Str → Str → Bool
[] == [] = true
[] == (b ∷ t) = false
(a ∷ s) == [] = false
(a ∷ s) == (b ∷ t) = eqb a b && s == t

pub eq_to : (s t : Str) → (s == t) ≡ true → s ≡ t
unfolding ◌==◌
eq_to [] [] h = refl
eq_to [] (b ∷ t) h = cc
eq_to (a ∷ s) [] h = cc
eq_to (a ∷ s) (b ∷ t) h = ground (arith, eq_to s t)

pub eq_refl : (s : Str) → (s == s) ≡ true
unfolding ◌==◌
eq_refl [] = refl
eq_refl (a ∷ s) = ground (arith, eq_refl s)

pub eq_iff : (s t : Str) → ((s == t) ≡ true) ↔ (s ≡ t)
eq_iff s t = (eq_to s t, λ e. ap (λ u. s == u) (sym e) ∙ eq_refl s)

-- `str::strip_prefix`, the pattern first.
unfoldable pub strip_prefix : Str → Str → Option Str
strip_prefix [] s = some s
strip_prefix (a ∷ p) [] = none
strip_prefix (a ∷ p) (b ∷ s) = if eqb a b then strip_prefix p s else none

-- `str::starts_with`, the pattern last.
unfoldable pub starts_with : Str → Str → Bool
starts_with s [] = true
starts_with [] (a ∷ p) = false
starts_with (b ∷ s) (a ∷ p) = eqb a b && starts_with s p

-- `str::ends_with`, the pattern last.
unfoldable pub ends_with : Str → Str → Bool
unfolding ◌==◌
ends_with [] p = [] == p
ends_with (b ∷ s) p = (b ∷ s) == p || ends_with s p

pub strip_prefix_iff : (p s t : Str) → (strip_prefix p s ≡ some t) ↔ (s ≡ p ++ t)
unfolding strip_prefix
strip_prefix_iff [] s t = ((λ e. cc), λ e. cc)
strip_prefix_iff (a ∷ p) [] t = ((λ e. cc), λ e. cc)
strip_prefix_iff (a ∷ p) (b ∷ s) t = ground (arith, strip_prefix_iff p s t)

pub starts_with_to : (s p : Str) → starts_with s p ≡ true → (t : Str) × (s ≡ p ++ t)
unfolding starts_with
starts_with_to s [] h = (s, refl)
starts_with_to [] (a ∷ p) h = cc
starts_with_to (b ∷ s) (a ∷ p) h =
    let (t, e) = starts_with_to s p (ground arith) in (t, ground arith)

pub starts_with-append : (p t : Str) → starts_with (p ++ t) p ≡ true
unfolding starts_with
starts_with-append [] t = refl
starts_with-append (a ∷ p) t = ground (arith, starts_with-append p t)

pub ends_with_to : (s p : Str) → ends_with s p ≡ true → (t : Str) × (s ≡ t ++ p)
unfolding ends_with
ends_with_to [] p h = ([], ground (arith, eq_iff [] p))
ends_with_to (b ∷ s) p h = elim (Bool-cases ((b ∷ s) == p)) [
  | inl e ↦ ([], eq_to (b ∷ s) p e)
  | inr n ↦ let (t, e) = ends_with_to s p (ground arith) in (b ∷ t, ap (◌∷◌ b) e)
]

pub ends_with-append : (t p : Str) → ends_with (t ++ p) p ≡ true
unfolding ends_with
ends_with-append [] [] = refl
ends_with-append [] (a ∷ p) = ground (arith, eq_refl (a ∷ p))
ends_with-append (b ∷ t) p = ground (arith, ends_with-append t p)
