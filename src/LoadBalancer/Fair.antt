-- ===== src/LoadBalancer/Fair.antt =====
-- No upstream with a weight waits for ever (src/load_balancer/mod.rs).
use portiq.Base.{
  Has, ℕ, zero, suc, ◌+◌, ◌<◌, ◌≡◌, refl, sym, ap, ◌∙◌, subst, List, [], ◌∷◌, ◌++◌, map, Option,
  some, returned, length, take, drop, replicate, here, there, Any-append_left, Any-append_right,
  Any-rotate, arith,
}
use portiq.Config.{Upstream}
use portiq.LoadBalancer.{WeightedRoundRobin, selects}
use portiq.LoadBalancer.Shares.{shares, IsValid}
use portiq.LoadBalancer.Runs.{selects_add}
use portiq.LoadBalancer.Cycle.{selects-cycle, select_total}

Has-map {ℓ κ} :
    {A : Type ℓ} {B : Type κ} (f : A → B) {a : A} (xs : List A) → Has a xs → Has (f a) (map f xs)
Has-map f [] m = elim m [ ]
Has-map f (x ∷ xs) (here e) = here (ap f e)
Has-map f (x ∷ xs) (there m) = there (Has-map f xs m)

Has-replicate {ℓ} : {A : Type ℓ} (n : ℕ) (a : A) → 0 < n → Has a (replicate n a)
Has-replicate zero a h = absurd (omega arith)
Has-replicate (suc n) a h = here refl

Has-shares : (us : List Upstream) (u : Upstream) → Has u us → 0 < u.weight → Has u (shares us)
Has-shares [] u m w = elim m [ ]
Has-shares (v ∷ us) u (here e) w =
    Any-append_left (λ x. x ≡ u) (replicate v.weight v) (shares us)
      (subst (λ x. Has u (replicate x.weight x)) (sym e) (Has-replicate u.weight u w))
Has-shares (v ∷ us) u (there m) w =
    Any-append_right (λ x. x ≡ u) (replicate v.weight v) (shares us) (Has-shares us u m w)

drop-length {ℓ} : {A : Type ℓ} (xs ys : List A) → drop (length xs) (xs ++ ys) ≡ ys
drop-length [] ys = refl
drop-length (x ∷ xs) ys = drop-length xs ys

-- Any number of calls returns, one answer for each, and leaves a valid balancer of the same upstreams.
selects_total :
    (n : ℕ) (lb : WeightedRoundRobin)
    → IsValid lb
    → (rs : List (Option Upstream)) × (lb' : WeightedRoundRobin) × (selects n lb
        ≡ returned (rs, lb'))
      × (length rs ≡ n)
      × IsValid lb'
      × (lb'.upstreams ≡ lb.upstreams)
unfolding selects
selects_total zero lb v = ([], lb, refl, refl, v, refl)
selects_total (suc n) lb v =
    let (r, lb₁, e, v₁, same, _, _) = select_total lb v in
    let (rs, lb₂, e', counted, v₂, same') = selects_total n lb₁ v₁ in
    (r ∷ rs, lb₂, rw (e, e') refl, ap suc counted, v₂, same' ∙ same)

-- However many calls a valid balancer has served, an upstream that has a weight is returned within as
-- many further calls as the weights sum to.
pub selects-Has :
    (lb : WeightedRoundRobin) (n : ℕ) (u : Upstream)
    → IsValid lb
    → Has u lb.upstreams
    → 0 < u.weight
    → (rs : List (Option Upstream)) × (lb' : WeightedRoundRobin) × (selects
          (n + length (shares lb.upstreams))
          lb
        ≡ returned (rs, lb'))
      × Has (some u) (drop n rs)
selects-Has lb n u v m w =
    let (before, lb₁, e, counted, v₁, same) = selects_total n lb v in
    let cycle =
      drop lb₁.next_index (shares lb₁.upstreams) ++ take lb₁.next_index (shares lb₁.upstreams) in
    let e₁ : selects (length (shares lb.upstreams)) lb₁ ≡ returned (map some cycle, lb₁) =
      subst (λ us. selects (length (shares us)) lb₁ ≡ returned (map some cycle, lb₁)) same
        (selects-cycle lb₁ v₁) in
    (
      before ++ map some cycle,
      lb₁,
      rw (selects_add n (length (shares lb.upstreams)) lb, e, e₁) refl,
      subst (Has (some u))
          (sym (drop-length before (map some cycle))
            ∙ ap (λ k. drop k (before ++ map some cycle)) counted)
          (Has-map some cycle (
            Any-rotate (λ x. x ≡ u) lb₁.next_index (shares lb₁.upstreams)
              (subst (λ us. Has u (shares us)) (sym same) (Has-shares lb.upstreams u m w)))),
    )
