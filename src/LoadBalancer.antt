-- ===== src/LoadBalancer.antt =====
-- src/load_balancer/mod.rs: the weighted round robin behind `LoadBalancer::get_next`.
-- `LoadBalancer` only forwards to the one strategy there is. The cursor, an `AtomicUsize`, is a field
-- of the state; `select` reads it and then writes it in two atomic operations, `peek` and `advance`,
-- which LoadBalancer/Threads.antt interleaves.
pub mod Shares
pub mod Runs
pub mod Cycle
pub mod Threads
pub mod Fair
mod Tests
use portiq.Base.{
  ℕ, zero, suc, ◌+◌, ◌%◌, Bool, true, false, List, [], ◌∷◌, ◌++◌, Option, none, some, Exec,
  returned, panicked, ◌>>=◌, unwrap, length, get_elem?, replicate, leb, if◌then◌else◌,
}
use portiq.Config.{Upstream}

abbrev pub u16_mod : ℕ
u16_mod = 65536

-- `u16::MAX`.
abbrev pub u16_max : ℕ
u16_max = 65535

abbrev pub u32_mod : ℕ
u32_mod = 4294967296

-- 2 ^ 64, for a 64-bit target.
abbrev pub usize_mod : ℕ
usize_mod = 18446744073709551616

pub record WeightedRoundRobin : Type 0 where
  pub upstreams : List Upstream
  pub weighted : List ℕ
  pub next_index : ℕ

-- The two loops of `new`: the index of each server, from `index` on, as often as its weight.
unfoldable pub push_weights : ℕ → List Upstream → List ℕ
push_weights index [] = []
push_weights index (server ∷ servers) =
    replicate server.weight (index % u16_mod) ++ push_weights (suc index) servers

unfoldable pub new : List Upstream → Exec WeightedRoundRobin
new upstreams =
    if leb (length upstreams) u16_max
    then returned
        (record { upstreams = upstreams; weighted = push_weights 0 upstreams; next_index = 0 })
    else panicked

-- `self.next_index.load(…)` and `self.weighted[next_index]`.
unfoldable pub peek : WeightedRoundRobin → Exec ℕ
peek lb = unwrap (get_elem? lb.weighted lb.next_index)

-- `self.next_index.fetch_update(…)`; its function always returns `Some`, so it cannot fail.
unfoldable pub advance : WeightedRoundRobin → WeightedRoundRobin
advance lb = record lb { next_index = (lb.next_index + 1) % usize_mod % length lb.weighted }

abbrev pub is_empty {ℓ} : {A : Type ℓ} → List A → Bool
is_empty [] = true
is_empty (x ∷ xs) = false

-- `select`, and so `LoadBalancer::get_next`, with no other thread between its steps.
unfoldable pub select : WeightedRoundRobin → Exec (Option Upstream × WeightedRoundRobin)
unfolding peek advance
select lb = if is_empty lb.weighted then returned (none, lb) else do
  upstream_index ← peek lb
  let lb' = advance lb
  upstream ← unwrap (get_elem? lb.upstreams upstream_index)
  returned (some upstream, lb')

-- A run of calls, with what each returned.
unfoldable pub selects : ℕ → WeightedRoundRobin → Exec (List (Option Upstream) × WeightedRoundRobin)
selects zero lb = returned ([], lb)
selects (suc n) lb = do
  (chosen, lb') ← select lb
  (later, lb'') ← selects n lb'
  returned (chosen ∷ later, lb'')
