-- ===== src/LoadBalancer/Cycle.antt =====
-- Runs of `select` (src/load_balancer/mod.rs) against the list of shares.
use mathlib.Core.List.{perm_append_comm, map-append}
use mathlib.Core.List.Perm
use native.Mathlib.Nat.{mod-lt, add-zero, zero-add}
use native.Mathlib.Numerals.{add-one}
use portiq.Base.{
  some-injective, get_elem?-Has, ℕ, zero, suc, ◌+◌, ◌-◌, ◌%◌, ◌<◌, ◌≡◌, ◌↔◌, refl, sym, ap, ◌∙◌,
  List, [], ◌++◌, map, Option, none, some, returned, length, get_elem?, take, drop, Perm, drop_all,
  take-append-drop, false, take_all, drop_get, get_elem?-of_lt, arith, List-cases, inl, inr, subst,
}
use portiq.Config.{Upstream}
use portiq.LoadBalancer.{usize_mod, WeightedRoundRobin, is_empty, peek, select, selects}
use portiq.LoadBalancer.Runs.{
  selects_add, at, length-map, get_elem?-resolves, is_empty_of_pos, is_empty_of_length,
  lt_of_get_elem?, next_within, next_wraps,
}
use portiq.LoadBalancer.Shares.{Weighs, shares-Weighs, shares, IsValid}

module _ (lb : WeightedRoundRobin) (v : IsValid lb) where
  pub length-weighted : length lb.weighted ≡ length (shares lb.upstreams)
  length-weighted =
      sym (length-map (get_elem? lb.upstreams) lb.weighted)
      ∙ ap length v.resolves
      ∙ length-map some (shares lb.upstreams)

  -- At a share's place, `peek` finds the index of its upstream.
  pub peek-at :
      (k : ℕ) (u : Upstream)
      → get_elem? (shares lb.upstreams) k ≡ some u
      → (i : ℕ) × (peek (at lb k) ≡ returned i) × (get_elem? lb.upstreams i ≡ some u)
  unfolding peek
  peek-at k u h =
      let (i, p, q) =
        get_elem?-resolves (get_elem? lb.upstreams) lb.weighted (shares lb.upstreams) k u v.resolves
          h in
      (i, rw p, q)

  pub is_empty-weighted : 0 < length (shares lb.upstreams) → is_empty lb.weighted ≡ false
  is_empty-weighted p = is_empty_of_pos lb.weighted (omega (arith, length-weighted))

  -- A call at cursor `k` returns share `k` and moves the cursor on, modulo the number of shares.
  select-at :
      (k : ℕ) (u : Upstream)
      → get_elem? (shares lb.upstreams) k ≡ some u
      → select (at lb k)
        ≡ returned (some u, at lb ((k + 1) % usize_mod % length (shares lb.upstreams)))
  unfolding select
  select-at k u h =
      let (i, p, q) = peek-at k u h in
      rw (is_empty-weighted (lt_of_get_elem? (shares lb.upstreams) k h), p, q, length-weighted) refl

  -- From cursor `k` the calls return the shares from `k` on, and then start again.
  selects_to_end :
      (n k : ℕ)
      → k + suc n ≡ length (shares lb.upstreams)
      → selects (suc n) (at lb k) ≡ returned (map some (drop k (shares lb.upstreams)), at lb 0)
  unfolding selects
  selects_to_end zero k h =
      let (u, e) = get_elem?-of_lt (shares lb.upstreams) k (omega arith) in
      rw (
        select-at k u e,
        next_wraps k (length (shares lb.upstreams)) v.small (omega arith),
        drop_get (shares lb.upstreams) k u e,
        drop_all (suc k) (shares lb.upstreams) (omega arith),
      )
  selects_to_end (suc n) k h =
      let (u, e) = get_elem?-of_lt (shares lb.upstreams) k (omega arith) in
      rw (
        select-at k u e,
        next_within k (length (shares lb.upstreams)) v.small (omega arith),
        selects_to_end n (k + 1) (omega arith),
        drop_get (shares lb.upstreams) k u e,
        add-one k,
      )

  selects_within :
      (n k : ℕ)
      → k + n < length (shares lb.upstreams)
      → selects n (at lb k)
        ≡ returned (map some (take n (drop k (shares lb.upstreams))), at lb (k + n))
  unfolding selects
  selects_within zero k h = rw add-zero
  selects_within (suc n) k h =
      let (u, e) = get_elem?-of_lt (shares lb.upstreams) k (omega arith) in
      let moved : k + 1 + n ≡ k + suc n = omega arith in
      rw (
        select-at k u e,
        next_within k (length (shares lb.upstreams)) v.small (omega arith),
        selects_within n (k + 1) (omega arith),
        moved,
        drop_get (shares lb.upstreams) k u e,
        add-one k,
      )

  selects-cycle_empty :
      shares lb.upstreams ≡ []
      → selects 0 lb
        ≡ returned (
          map some (
              drop lb.next_index (shares lb.upstreams) ++ take lb.next_index (shares lb.upstreams)),
          lb,
        )
  unfolding selects
  selects-cycle_empty e = rw (
    e,
    drop_all {A = Upstream} lb.next_index [] (omega arith),
    take_all {A = Upstream} lb.next_index [] (omega arith),
  )

  selects-cycle_from :
      (m : ℕ)
      → length (shares lb.upstreams) ≡ suc m + lb.next_index
      → selects (suc m + lb.next_index) lb
        ≡ returned (
          map some (
              drop lb.next_index (shares lb.upstreams) ++ take lb.next_index (shares lb.upstreams)),
          lb,
        )
  selects-cycle_from m e = rw (
    selects_add (suc m) lb.next_index lb,
    selects_to_end m lb.next_index (omega arith),
    selects_within lb.next_index 0 (omega arith),
    zero-add lb.next_index,
    map-append some (drop lb.next_index (shares lb.upstreams))
        (take lb.next_index (shares lb.upstreams)),
  )

  -- From any place in the cycle, as many calls as there are shares return the shares from there on
  -- and then those before, and leave the balancer as it was.
  pub selects-cycle :
      selects (length (shares lb.upstreams)) lb
      ≡ returned (
        map some
            (drop lb.next_index (shares lb.upstreams) ++ take lb.next_index (shares lb.upstreams)),
        lb,
      )
  selects-cycle = elim (List-cases (shares lb.upstreams)) [
    | inl e ↦ rw (ap length e) (selects-cycle_empty e)
    | inr p ↦
        let len : length (shares lb.upstreams)
            ≡ suc (length (shares lb.upstreams) - suc lb.next_index) + lb.next_index =
          omega (arith, v.cursor) in
        subst
          (λ n.
            selects n lb
            ≡ returned (
              map some (
                  drop lb.next_index (shares lb.upstreams)
                  ++ take lb.next_index (shares lb.upstreams)),
              lb,
            ))
          (sym len) (selects-cycle_from (length (shares lb.upstreams) - suc lb.next_index) len)
  ]

  -- In a full cycle, wherever it starts, each upstream is returned as often as its weight says.
  pub selects-perm :
      (rs : List (Option Upstream)) (lb' : WeightedRoundRobin)
      → selects (length (shares lb.upstreams)) lb ≡ returned (rs, lb')
      → Perm rs (map some (shares lb.upstreams))
  selects-perm rs lb' h =
      let same : rs
          ≡ map some (
              drop lb.next_index (shares lb.upstreams)
              ++ take lb.next_index (shares lb.upstreams)) =
        cc selects-cycle in
      rw same (
        Perm.map some (
          subst (Perm _) (take-append-drop lb.next_index (shares lb.upstreams))
            (perm_append_comm (drop lb.next_index (shares lb.upstreams)) _)))

  -- A call never panics: it returns an upstream that has a weight, or nothing exactly when there is
  -- none, and leaves a valid balancer of the same upstreams.
  pub select_total :
      (r : Option Upstream) × (lb' : WeightedRoundRobin) × (select lb ≡ returned (r, lb'))
      × IsValid lb'
      × (lb'.upstreams ≡ lb.upstreams)
      × ((r ≡ none) ↔ (shares lb.upstreams ≡ []))
      × ((u : Upstream) → r ≡ some u → Weighs u lb.upstreams)
  unfolding select
  select_total = elim (List-cases (shares lb.upstreams)) [
    | inl e ↦ (
      none,
      lb,
      rw (is_empty_of_length lb.weighted (length-weighted ∙ ap length e)),
      v,
      refl,
      (λ _. e, λ _. refl),
      λ u (n : none ≡ some u). cc,
    )
    | inr p ↦
        let (u, e) =
          get_elem?-of_lt (shares lb.upstreams) lb.next_index (omega (arith, v.cursor)) in
        (
          some u,
          at lb ((lb.next_index + 1) % usize_mod % length (shares lb.upstreams)),
          select-at lb.next_index u e,
          record {
            resolves = v.resolves;
            cursor = omega (arith, mod-lt ((lb.next_index + 1) % usize_mod) p);
            small = v.small;
          },
          refl,
          (λ (n : some u ≡ none). cc, λ n. absurd (omega (arith, ap length n))),
          λ u' same.
              subst (λ x. Weighs x lb.upstreams) (some-injective same)
                (shares-Weighs lb.upstreams u
                  (get_elem?-Has (shares lb.upstreams) lb.next_index e)),
        )
  ]
