-- ===== src/LoadBalancer/Tests.antt =====
-- Runs of the balancer (src/load_balancer/mod.rs) on two upstreams of weights 2 and 1.
use portiq.Base.{
  Has, List, drop, here, there, ◌+◌, ◌%◌, ◌≡◌, ◌↔◌, refl, arith, [], ◌∷◌, Option, none, some,
  returned, length,
}
use portiq.Config.{Upstream}
use portiq.LoadBalancer.{WeightedRoundRobin, new, push_weights, select, selects}
use portiq.LoadBalancer.Shares.{Weighs, shares, IsValid}
use portiq.LoadBalancer.Runs.{at}
use portiq.LoadBalancer.Cycle.{selects-cycle, select_total}
use portiq.LoadBalancer.Fair.{selects-Has}
use portiq.LoadBalancer.Threads.{Shared, all_ready, run, run_total}
use portiq.LoadBalancer.Threads.Together.{run-together}
use portiq.Samples.{first_upstream, second_upstream, two_upstreams, sample_balancer}

abbrev turned : WeightedRoundRobin
turned = at sample_balancer 2

turned-IsValid : IsValid turned
turned-IsValid = record { resolves = refl; cursor = omega arith; small = omega arith }

new_two : new two_upstreams ≡ returned sample_balancer
unfolding new push_weights
new_two = refl

no_upstream_returns_none :
    select (record { upstreams = []; weighted = []; next_index = 0 })
    ≡ returned (none, record { upstreams = []; weighted = []; next_index = 0 })
unfolding select
no_upstream_returns_none = refl

selects-cycle_example :
    selects 3 turned
    ≡ returned (some second_upstream ∷ some first_upstream ∷ some first_upstream ∷ [], turned)
selects-cycle_example = selects-cycle turned turned-IsValid

select_total_example :
    (r : Option Upstream) × (lb' : WeightedRoundRobin) × (select turned ≡ returned (r, lb'))
    × IsValid lb'
    × (lb'.upstreams ≡ two_upstreams)
    × ((r ≡ none) ↔ (shares two_upstreams ≡ []))
    × ((u : Upstream) → r ≡ some u → Weighs u two_upstreams)
select_total_example = select_total turned turned-IsValid

run_total_example :
    (s : Shared) × (run (all_ready turned 2) (0 ∷ 1 ∷ 1 ∷ 0 ∷ 1 ∷ []) ≡ returned s)
    × IsValid s.lb
    × (s.lb.upstreams ≡ two_upstreams)
    × (s.lb.next_index ≡ (2 + length s.chosen) % 3)
run_total_example = run_total turned 2 (0 ∷ 1 ∷ 1 ∷ 0 ∷ 1 ∷ []) turned-IsValid

-- Of three threads the third and the first load, and then update the other way round.
run-together_example :
    (u : Upstream) × (s : Shared) × (run (all_ready turned 3) (2 ∷ 0 ∷ 0 ∷ 2 ∷ []) ≡ returned s)
    × (s.chosen ≡ some u ∷ some u ∷ [])
run-together_example =
    run-together turned turned-IsValid (omega arith) 3 (2 ∷ 0 ∷ []) (0 ∷ 2 ∷ [])
      (((λ e. omega (arith, e)), tt), (tt, tt)) (omega arith, (omega arith, tt))
      (((λ e. omega (arith, e)), tt), (tt, tt)) (there (here refl), (here refl, tt))

-- The upstream of the smaller weight, after five calls.
selects-Has_example :
    (rs : List (Option Upstream)) × (lb' : WeightedRoundRobin) × (selects 8 turned
      ≡ returned (rs, lb'))
    × Has (some second_upstream) (drop 5 rs)
selects-Has_example =
    selects-Has turned 5 second_upstream turned-IsValid (there (here refl)) (omega arith)
