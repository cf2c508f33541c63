-- ===== src/Startup/Ending.antt =====
-- How long `main` (src/main.rs) serves, and what a signal does.
use portiq.Base.{
  ◌≡◌, refl, ap, ap₂, Bool, true, false, ◌||◌, List, [], ◌∷◌, map, any, some, none, Str, ok, err,
  All, Any, here, there, arith,
}
use portiq.Server.Accept.{run_tcp_listener}
use portiq.Server.Listening.{Continues, run_tcp_listener_lem}
use portiq.Startup.{
  is_some, ListenerTask, outcome, join_next, signalled, graceful_shutdown, wind_up,
}

-- The address is bound, and the loop has not been cancelled.
pub record Serving (task : ListenerTask) : Type 0 where
  pub bound : task.bound ≡ ok tt
  pub continues : All Continues task.events

module _ (tls_acceptor : Bool) where
  outcome-Serving : (task : ListenerTask) → Serving task → outcome tls_acceptor task ≡ none
  unfolding outcome
  outcome-Serving task s =
      let (on, _, _) =
        run_tcp_listener_lem task.listener tls_acceptor task.events [] [] s.continues in
      rw (outcome, s.bound, on) refl

  outcome-failed :
      (task : ListenerTask) (e : Str)
      → task.bound ≡ err e
      → outcome tls_acceptor task ≡ some (err e)
  unfolding outcome run_tcp_listener
  outcome-failed task e failed = rw (outcome, failed) refl

  any-Serving :
      (tasks : List ListenerTask)
      → All Serving tasks
      → any (λ task. is_some (outcome tls_acceptor task)) tasks ≡ false
  any-Serving [] all = refl
  any-Serving (task ∷ tasks) all =
      ap₂ ◌||◌ (ap is_some (outcome-Serving task all.0)) (any-Serving tasks all.1)

  any_failed :
      (tasks : List ListenerTask)
      → Any (λ task. (e : Str) × (task.bound ≡ err e)) tasks
      → any (λ task. is_some (outcome tls_acceptor task)) tasks ≡ true
  any_failed [] bad = elim bad [ ]
  any_failed (task ∷ tasks) (here (e, failed)) = rw (outcome-failed task e failed) refl
  any_failed (task ∷ tasks) (there later) = ground (arith, any_failed tasks later)

  graceful_shutdown-ends :
      (tasks : List ListenerTask)
      → All Serving tasks
      → map (outcome tls_acceptor) (graceful_shutdown tasks).0 ≡ map (λ task. some (ok tt)) tasks
  unfolding graceful_shutdown outcome
  graceful_shutdown-ends [] all = refl
  graceful_shutdown-ends (task ∷ tasks) all =
      let (_, ends, _) =
        run_tcp_listener_lem task.listener tls_acceptor task.events [] [] all.0.continues in
      ap₂ ◌∷◌ (rw (all.0.bound, outcome, ends) refl) (graceful_shutdown-ends tasks all.1)

  -- While every listener has its address and none is cancelled, `main` does not end for want of a
  -- listener, and at a signal every listener returns `Ok`; but it ends at once if there is no listener,
  -- or if one of them cannot bind its address.
  pub join_next_lem :
      (first : ListenerTask) (others broken : List ListenerTask)
      → All Serving (first ∷ others)
      → Any (λ task. (e : Str) × (task.bound ≡ err e)) broken
      → (join_next tls_acceptor (first ∷ others) ≡ false)
        × (map (outcome tls_acceptor) (wind_up signalled (first ∷ others)).0
            ≡ map (λ task. some (ok tt)) (first ∷ others))
        × (join_next tls_acceptor broken ≡ true)
        × (join_next tls_acceptor [] ≡ true)
  unfolding join_next wind_up
  join_next_lem first others broken all bad = (
    any-Serving (first ∷ others) all,
    graceful_shutdown-ends (first ∷ others) all,
    rw (join_next, any_failed broken bad) (ground arith),
    refl,
  )
