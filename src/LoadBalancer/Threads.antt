-- ===== src/LoadBalancer/Threads.antt =====
-- `WeightedRoundRobin::select` (src/load_balancer/mod.rs) called by several threads: the load and the
-- update of the cursor are two atomic operations, and a schedule says which thread acts next.
pub mod Together
use native.Mathlib.Nat.{add-zero, mod-add-mod, mod-eq_of_lt, mod-lt}
use portiq.Base.{
  ℕ, ◌+◌, ◌%◌, ◌<◌, max, ◌≡◌, refl, sym, ap, ◌∙◌, List, [], ◌∷◌, ◌++◌, Option, none, some, Exec,
  returned, ◌>>=◌, unwrap, length, get_elem?, set, All, All-get_elem?, All-set, All-replicate,
  replicate, length-append, arith, if◌then◌else◌, Option-cases, inl, inr, List-cases,
  get_elem?-of_lt,
}
use portiq.Config.{Upstream}
use portiq.LoadBalancer.{usize_mod, WeightedRoundRobin, peek, advance, is_empty}
use portiq.LoadBalancer.Shares.{shares, IsValid}
use portiq.LoadBalancer.Runs.{is_empty_of_length}
use portiq.LoadBalancer.Cycle.{peek-at, is_empty-weighted, length-weighted}

-- Between its two operations a thread holds `upstream_index`.
pub data Thread : Type 0 where
  ready : Thread
  picked : ℕ → Thread

-- The shared balancer, the threads, and what the calls have returned, in order.
pub record Shared : Type 0 where
  pub lb : WeightedRoundRobin
  pub threads : List Thread
  pub chosen : List (Option Upstream)

-- The next atomic operation of a thread that is at `ready` or `picked`.
act : Shared → ℕ → Thread → Exec Shared
act s t ready =
    if is_empty s.lb.weighted then returned (record s { chosen = s.chosen ++ none ∷ [] }) else do
      upstream_index ← peek s.lb
      returned (record s { threads = set s.threads t (picked upstream_index) })
act s t (picked upstream_index) = do
  let lb' = advance s.lb
  upstream ← unwrap (get_elem? lb'.upstreams upstream_index)
  returned (record s {
    lb = lb';
    threads = set s.threads t ready;
    chosen = s.chosen ++ some upstream ∷ [];
  })

-- Thread `t` acts; a number that names no thread does nothing.
unfoldable pub step : Shared → ℕ → Exec Shared
unfolding act
step s t = elim (get_elem? s.threads t) [ none ↦ returned s | some thread ↦ act s t thread ]

unfoldable pub run : Shared → List ℕ → Exec Shared
run s [] = returned s
run s (t ∷ schedule) = do s' ← step s t; run s' schedule

-- What a thread holds is the index of an upstream, of a balancer that has shares.
abbrev pub Holds : List Upstream → List ℕ → Thread → Type 0
Holds us w ready = Unit {0}
Holds us w (picked i) = (u : Upstream) × (get_elem? us i ≡ some u) × (0 < length w)

-- With `start` the cursor before any call returned.
pub record Inv (start : ℕ) (us : List Upstream) (s : Shared) : Type 0 where
  pub upstreams : s.lb.upstreams ≡ us
  pub valid : IsValid s.lb
  pub held : All (Holds s.lb.upstreams s.lb.weighted) s.threads
  pub counted : s.lb.next_index ≡ (start + length s.chosen) % max 1 (length (shares s.lb.upstreams))

counted_next :
    (start k c len : ℕ)
    → 0 < len
    → len < usize_mod
    → k ≡ (start + c) % max 1 len
    → (k + 1) % usize_mod % len ≡ (start + (c + 1)) % max 1 len
counted_next start k c len p small e =
    let one : max 1 len ≡ len = omega arith in
    let k' : k ≡ (start + c) % len = e ∙ ap (λ m. (start + c) % m) one in
    let sum : start + c + 1 ≡ start + (c + 1) = omega arith in
    rw (
      mod-eq_of_lt {n = k + 1} {m = usize_mod} (omega (arith, k', mod-lt (start + c) p)),
      one,
      k',
      mod-add-mod,
      sum,
    )

module _ (start : ℕ) (us : List Upstream) (s : Shared) (t : ℕ) (v : Inv start us s) where
  act-Inv_idle :
      shares s.lb.upstreams ≡ [] → (s' : Shared) × (act s t ready ≡ returned s') × Inv start us s'
  unfolding act
  act-Inv_idle e =
      let empty : length (shares s.lb.upstreams) ≡ 0 = ap length e in
      (
        record s { chosen = s.chosen ++ none ∷ [] },
        rw (is_empty_of_length s.lb.weighted (length-weighted s.lb v.valid ∙ empty)),
        record {
          upstreams = v.upstreams;
          valid = v.valid;
          held = v.held;
          counted = omega (arith, v.counted, empty);
        },
      )

  act-Inv_ready :
      0 < length (shares s.lb.upstreams)
      → (s' : Shared) × (act s t ready ≡ returned s') × Inv start us s'
  unfolding act
  act-Inv_ready p =
      let (u, e) =
        get_elem?-of_lt (shares s.lb.upstreams) s.lb.next_index (omega (arith, v.valid.cursor)) in
      let (i, found, place) = peek-at s.lb v.valid s.lb.next_index u e in
      let holds : Holds s.lb.upstreams s.lb.weighted (picked i) =
        (u, place, omega (arith, length-weighted s.lb v.valid)) in
      (
        record s { threads = set s.threads t (picked i) },
        rw (is_empty-weighted s.lb v.valid p, found),
        record {
          upstreams = v.upstreams;
          valid = v.valid;
          held = All-set (Holds s.lb.upstreams s.lb.weighted) s.threads t v.held holds;
          counted = v.counted;
        },
      )

  act-Inv_picked :
      (i : ℕ)
      → Holds s.lb.upstreams s.lb.weighted (picked i)
      → (s' : Shared) × (act s t (picked i) ≡ returned s') × Inv start us s'
  unfolding act advance
  act-Inv_picked i (u, place, p) =
      let len = length-weighted s.lb v.valid in
      let one_more : length (s.chosen ++ some u ∷ []) ≡ length s.chosen + 1 =
        omega (arith, length-append s.chosen (some u ∷ [])) in
      let pos : 0 < length (shares s.lb.upstreams) = omega (arith, len) in
      (
        record s {
          lb = advance s.lb;
          threads = set s.threads t ready;
          chosen = s.chosen ++ some u ∷ [];
        },
        rw place,
        record {
          upstreams = v.upstreams;
          valid = record {
            resolves = v.valid.resolves;
            cursor = rw len (omega (arith, mod-lt ((s.lb.next_index + 1) % usize_mod) pos));
            small = v.valid.small;
          };
          held = All-set (Holds s.lb.upstreams s.lb.weighted) s.threads t v.held tt;
          counted =
              rw (len, one_more)
                (counted_next start s.lb.next_index (length s.chosen) _ pos v.valid.small
                  v.counted);
        },
      )

  step-Inv : (s' : Shared) × (step s t ≡ returned s') × Inv start us s'
  unfolding step
  step-Inv = elim (Option-cases (get_elem? s.threads t)) [
    | inl e ↦ (s, rw (e, step), v)
    | inr (ready, e) ↦ elim (List-cases (shares s.lb.upstreams)) [
      | inl empty ↦ rw (e, step) (act-Inv_idle empty)
      | inr p ↦ rw (e, step) (act-Inv_ready p)
    ]
    | inr (picked i, e) ↦
        rw (e, step)
          (act-Inv_picked i
            (All-get_elem? (Holds s.lb.upstreams s.lb.weighted) s.threads t v.held e))
  ]

-- Whatever the schedule, no call panics, and the cursor counts the calls that returned, modulo the
-- number of shares.
pub run-Inv :
    (start : ℕ) (us : List Upstream) (schedule : List ℕ) (s : Shared)
    → Inv start us s
    → (s' : Shared) × (run s schedule ≡ returned s') × Inv start us s'
unfolding run
run-Inv start us [] s v = (s, refl, v)
run-Inv start us (t ∷ schedule) s v =
    let (s₁, e, v₁) = step-Inv start us s t v in
    let (s₂, e₂, v₂) = run-Inv start us schedule s₁ v₁ in (s₂, rw (e, e₂), v₂)

abbrev pub all_ready : WeightedRoundRobin → ℕ → Shared
all_ready lb n = record { lb = lb; threads = replicate n ready; chosen = [] }

start-Inv :
    (lb : WeightedRoundRobin) (n : ℕ) → IsValid lb → Inv lb.next_index lb.upstreams (all_ready lb n)
start-Inv lb n v = record {
  upstreams = refl;
  valid = v;
  held = All-replicate (Holds lb.upstreams lb.weighted) n tt;
  counted = rw (add-zero lb.next_index) (sym (mod-eq_of_lt v.cursor));
}

pub run_total :
    (lb : WeightedRoundRobin) (n : ℕ) (schedule : List ℕ)
    → IsValid lb
    → (s : Shared) × (run (all_ready lb n) schedule ≡ returned s)
      × IsValid s.lb
      × (s.lb.upstreams ≡ lb.upstreams)
      × (s.lb.next_index ≡ (lb.next_index + length s.chosen) % max 1 (length (shares lb.upstreams)))
run_total lb n schedule v =
    let (s, e, w) =
      run-Inv lb.next_index lb.upstreams schedule (all_ready lb n) (start-Inv lb n v) in
    (s, e, w.valid, w.upstreams, rw w.upstreams at w.counted)
