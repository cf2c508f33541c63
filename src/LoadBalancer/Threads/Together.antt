-- ===== src/LoadBalancer/Threads/Together.antt =====
-- Calls of `WeightedRoundRobin::select` (src/load_balancer/mod.rs) that load the cursor before any of
-- them updates it.
use portiq.Base.{
  ℕ, zero, suc, inl, inr, Exec-cases, ◌<◌, ◌≡◌, ◌≢◌, refl, sym, ap, ◌∙◌, List, [], ◌∷◌, ◌++◌,
  append_assoc, append-nil, Option, some, returned, ◌>>=◌, length, get_elem?, get_elem?-of_lt, set,
  replicate, All, All-imp, Any, here, there, subst, arith,
}
use portiq.Config.{Upstream}
use portiq.LoadBalancer.{WeightedRoundRobin, peek, advance}
use portiq.LoadBalancer.Shares.{shares, IsValid}
use portiq.LoadBalancer.Cycle.{peek-at, is_empty-weighted}
use portiq.LoadBalancer.Threads.{Thread, ready, picked, Shared, act, step, run, all_ready}

-- No thread twice.
abbrev pub Apart : List ℕ → Type 0
Apart [] = Unit
Apart (t ∷ ts) = All (λ j. t ≢ j) ts × Apart ts

abbrev At : Thread → List Thread → ℕ → Type 0
At thread threads t = get_elem? threads t ≡ some thread

get_elem?-set :
    (threads : List Thread) (t : ℕ) {old : Thread} (new : Thread)
    → At old threads t
    → At new (set threads t new) t
get_elem?-set [] t new h = cc
get_elem?-set (x ∷ threads) zero new h = refl
get_elem?-set (x ∷ threads) (suc t) new h = get_elem?-set threads t new h

get_elem?-set_ne :
    (threads : List Thread) (t j : ℕ) (new : Thread)
    → j ≢ t
    → get_elem? (set threads t new) j ≡ get_elem? threads j
get_elem?-set_ne [] t j new ne = refl
get_elem?-set_ne (x ∷ threads) zero zero new ne = absurd (ne refl)
get_elem?-set_ne (x ∷ threads) zero (suc j) new ne = refl
get_elem?-set_ne (x ∷ threads) (suc t) zero new ne = refl
get_elem?-set_ne (x ∷ threads) (suc t) (suc j) new ne =
    get_elem?-set_ne threads t j new (λ e. ne (ap suc e))

At-set_ne :
    (thread new : Thread) (threads : List Thread) (t : ℕ) (ts : List ℕ)
    → All (λ j. t ≢ j) ts
    → All (At thread threads) ts
    → All (At thread (set threads t new)) ts
At-set_ne thread new threads t [] apart all = tt
At-set_ne thread new threads t (j ∷ ts) apart all = (
  get_elem?-set_ne threads t j new (λ e. apart.0 (sym e)) ∙ all.0,
  At-set_ne thread new threads t ts apart.1 all.1,
)

run-append :
    (first later : List ℕ) (s : Shared)
    → run s (first ++ later) ≡ (run s first >>= λ s'. run s' later)
unfolding run
run-append [] later s = refl
run-append (t ∷ first) later s = elim (Exec-cases (step s t)) [
  | inl e ↦ rw e refl
  | inr (s', e) ↦ rw e (run-append first later s')
]

get_elem?-replicate : (n t : ℕ) → t < n → At ready (replicate n ready) t
get_elem?-replicate zero t h = elim h [ ]
get_elem?-replicate (suc n) zero h = refl
get_elem?-replicate (suc n) (suc t) h = get_elem?-replicate n t (omega arith)

-- What holds of all threads of a list holds of each.
All-at : (P : ℕ → Type 0) {t : ℕ} {ts : List ℕ} → Any (λ j. j ≡ t) ts → All P ts → P t
All-at P (here e) all = subst P e all.0
All-at P (there m) all = All-at P m all.1

module _ (lb : WeightedRoundRobin) (v : IsValid lb) (p : 0 < length (shares lb.upstreams)) where
  -- The first operations of threads that are ready leave the cursor, and each thread with the index.
  loads :
      (i : ℕ) (ts : List ℕ) (threads : List Thread)
      → peek lb ≡ returned i
      → Apart ts
      → All (At ready threads) ts
      → (threads' : List Thread) × (run (record { lb = lb; threads = threads; chosen = [] }) ts
          ≡ returned (record { lb = lb; threads = threads'; chosen = [] }))
        × All (At (picked i) threads') ts
        × ((j : ℕ) → All (λ t. j ≢ t) ts → get_elem? threads' j ≡ get_elem? threads j)
  unfolding run step act
  loads i [] threads found apart all = (threads, refl, tt, λ j ne. refl)
  loads i (t ∷ ts) threads found apart all =
      let next = set threads t (picked i) in
      let (threads', e, held, kept) =
        loads i ts next found apart.1 (At-set_ne ready (picked i) threads t ts apart.0 all.1) in
      (
        threads',
        rw (all.0, step, is_empty-weighted lb v p, found) e,
        (kept t apart.0 ∙ get_elem?-set threads t (picked i) all.0, held),
        λ j ne. kept j ne.1 ∙ get_elem?-set_ne threads t j (picked i) ne.0,
      )

  -- The second operations of threads that hold an index each return its upstream.
  updates :
      (i : ℕ) (u : Upstream) (ts : List ℕ) (now : WeightedRoundRobin) (threads : List Thread)
      (chosen : List (Option Upstream))
      → get_elem? now.upstreams i ≡ some u
      → Apart ts
      → All (At (picked i) threads) ts
      → (s : Shared) × (run (record { lb = now; threads = threads; chosen = chosen }) ts
          ≡ returned s)
        × (s.chosen ≡ chosen ++ replicate (length ts) (some u))
  unfolding run step act advance
  updates i u [] now threads chosen place apart all =
      (record { lb = now; threads = threads; chosen = chosen }, refl, sym (append-nil chosen))
  updates i u (t ∷ ts) now threads chosen place apart all =
      let (s, e, given) =
        updates i u ts (advance now) (set threads t ready) (chosen ++ some u ∷ []) place apart.1
          (At-set_ne (picked i) ready threads t ts apart.0 all.1) in
      (
        s,
        rw (all.0, step, place) e,
        given ∙ append_assoc chosen (some u ∷ []) (replicate (length ts) (some u)),
      )

  -- Threads of a valid balancer with shares that load the cursor, one after another and each
  -- once, before any of them updates it are all given the same upstream, however many of them
  -- then update it and in whatever order.
  pub run-together :
      (n : ℕ) (loading updating : List ℕ)
      → Apart loading
      → All (λ t. t < n) loading
      → Apart updating
      → All (λ t. Any (λ j. j ≡ t) loading) updating
      → (u : Upstream) × (s : Shared) × (run (all_ready lb n) (loading ++ updating) ≡ returned s)
        × (s.chosen ≡ replicate (length updating) (some u))
  run-together n loading updating apart named apart' loaded =
      let (u, e) = get_elem?-of_lt (shares lb.upstreams) lb.next_index (omega (arith, v.cursor)) in
      let (i, found, place) = peek-at lb v lb.next_index u e in
      let (threads, e', held, _) = loads i loading (replicate n ready) found apart (
        All-imp (λ t. t < n) (At ready (replicate n ready)) (λ t. get_elem?-replicate n t) loading
          named) in
      let (s, e'', given) = updates i u updating lb threads [] place apart' (
        All-imp (λ t. Any (λ j. j ≡ t) loading) (At (picked i) threads)
          (λ t at. All-at (At (picked i) threads) at held) updating loaded) in
      (u, s, rw (run-append loading updating (all_ready lb n), e') e'', given)
