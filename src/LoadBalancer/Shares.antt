-- ===== src/LoadBalancer/Shares.antt =====
-- What `WeightedRoundRobin::new` builds (src/load_balancer/mod.rs), against an independent list: each
-- upstream as often as its weight.
use mathlib.Core.List.{map-append}
use native.Mathlib.Nat.{mod-eq_of_lt}
use portiq.Base.{
  Has, Any-append_inv, Has-replicate_inv, inl, inr, here, there, subst, ℕ, zero, suc, ◌+◌, ◌*◌, ◌%◌,
  ◌≤◌, ◌<◌, max, ◌≡◌, refl, sym, ap, ap₂, ◌∙◌, List, [], ◌∷◌, ◌++◌, map, Option, some, append_assoc,
  returned, length, get_elem?, replicate, All, length-append, length-replicate, arith, le→leb,
}
use portiq.Config.{Upstream}
use portiq.LoadBalancer.{
  u16_max, u16_mod, u32_mod, usize_mod, WeightedRoundRobin, push_weights, new,
}

abbrev pub shares : List Upstream → List Upstream
shares [] = []
shares (u ∷ us) = replicate u.weight u ++ shares us

-- One of these upstreams, with a weight.
abbrev pub Weighs : Upstream → List Upstream → Type 0
Weighs u us = Has u us × (0 < u.weight)

pub shares-Weighs : (us : List Upstream) (u : Upstream) → Has u (shares us) → Weighs u us
shares-Weighs [] u m = elim m [ ]
shares-Weighs (v ∷ us) u m =
    elim (Any-append_inv (λ x. x ≡ u) (replicate v.weight v) (shares us) m) [
      | inl own ↦
          let (some_weight, same) = Has-replicate_inv v.weight v own in
          (here same, subst (λ x. 0 < x.weight) same some_weight)
      | inr other ↦ let (listed, weight) = shares-Weighs us u other in (there listed, weight)
    ]

-- The state between two calls: the indices stand for the shares, the cursor is inside them, and
-- `x + 1` does not overflow.
pub record IsValid (lb : WeightedRoundRobin) : Type 0 where
  pub resolves : map (get_elem? lb.upstreams) lb.weighted ≡ map some (shares lb.upstreams)
  pub cursor : lb.next_index < max 1 (length (shares lb.upstreams))
  pub small : length (shares lb.upstreams) < usize_mod

abbrev pub HasU32Weight : Upstream → Type 0
HasU32Weight u = u.weight < u32_mod

map-replicate {ℓ κ} :
    {A : Type ℓ} {B : Type κ} (f : A → B) (n : ℕ) (a : A)
    → map f (replicate n a) ≡ replicate n (f a)
map-replicate f zero a = refl
map-replicate f (suc n) a = ap (◌∷◌ (f a)) (map-replicate f n a)

get_elem?-append_length {ℓ} :
    {A : Type ℓ} (xs : List A) (a : A) (ys : List A) → get_elem? (xs ++ a ∷ ys) (length xs) ≡ some a
get_elem?-append_length [] a ys = refl
get_elem?-append_length (x ∷ xs) a ys = get_elem?-append_length xs a ys

-- One round of the outer loop of `new`: the indices pushed for `u` stand for its shares.
replicate-resolves :
    (before us : List Upstream) (u : Upstream)
    → length before < u16_mod
    → map (get_elem? (before ++ u ∷ us)) (replicate u.weight (length before % u16_mod))
      ≡ map some (replicate u.weight u)
replicate-resolves before us u h =
    map-replicate (get_elem? (before ++ u ∷ us)) u.weight (length before % u16_mod)
    ∙ ap (replicate u.weight)
        (ap (get_elem? (before ++ u ∷ us)) (mod-eq_of_lt h) ∙ get_elem?-append_length before u us)
    ∙ sym (map-replicate some u.weight u)

push_weights-resolves :
    (before us : List Upstream)
    → length before + length us ≤ u16_mod
    → map (get_elem? (before ++ us)) (push_weights (length before) us) ≡ map some (shares us)
unfolding push_weights
push_weights-resolves before [] h = refl
push_weights-resolves before (u ∷ us) h =
    let look : ℕ → Option Upstream = get_elem? (before ++ u ∷ us) in
    let here : List ℕ = replicate u.weight (length before % u16_mod) in
    let len : length (before ++ u ∷ []) ≡ suc (length before) =
      omega (arith, length-append before (u ∷ [])) in
    let ih = push_weights-resolves (before ++ u ∷ []) us (omega (arith, len)) in
    map-append look here (push_weights (suc (length before)) us)
    ∙ ap₂ ◌++◌ (replicate-resolves before us u (omega arith))
        (rw (append_assoc before (u ∷ []) us, len) at ih)
    ∙ sym (map-append some (replicate u.weight u) (shares us))

length-shares-le :
    (us : List Upstream) → All HasU32Weight us → length (shares us) ≤ length us * u32_mod
length-shares-le [] h = omega arith
length-shares-le (u ∷ us) h = omega (
  arith,
  length-append (replicate u.weight u) (shares us),
  length-replicate u.weight u,
  length-shares-le us h.1,
)

-- `new` accepts up to 65,535 upstreams, and starts in a valid state at the first share.
pub new-IsValid :
    (us : List Upstream)
    → length us ≤ u16_max
    → All HasU32Weight us
    → (lb : WeightedRoundRobin) × (new us ≡ returned lb)
      × IsValid lb
      × (lb.upstreams ≡ us)
      × (lb.next_index ≡ 0)
unfolding new
new-IsValid us h w = (
  record { upstreams = us; weighted = push_weights 0 us; next_index = 0 },
  rw (le→leb (length us) u16_max h),
  record {
    resolves = push_weights-resolves [] us (omega arith);
    cursor = omega arith;
    small = omega (arith, length-shares-le us w);
  },
  refl,
  refl,
)
