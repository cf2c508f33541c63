-- ===== src/Server/Listening.antt =====
-- The accept loop (src/server/mod.rs) over every list of events: it ends at a cancellation and not before,
-- and serves whoever has connected by then.
use portiq.Base.{
  ◌≡◌, ◌≢◌, refl, ap, Bool, true, false, List, [], ◌∷◌, ◌++◌, map, none, some, Str, Exec, returned,
  Result, ok, err, All,
}
use portiq.Config.{SocketAddr, Listener, Protocol, http, https, tcp}
use portiq.Server.Accept.{
  Task, http_task, https_task, tcp_task, Event, accepted, accept_failed, cancelled, spawned,
  accept_loop, run_tcp_listener,
}

-- Who has connected.
abbrev pub clients : List Event → List SocketAddr
clients [] = []
clients (accepted client_addr ∷ events) = client_addr ∷ clients events
clients (accept_failed e ∷ events) = clients events
clients (cancelled ∷ events) = clients events

abbrev pub Continues : Event → Type 0
Continues event = event ≢ cancelled

module _ (listener : Listener) (tls_acceptor : Bool) where
  accept_loop-Continues :
      (events : List Event)
      → All Continues events
      → accept_loop listener tls_acceptor events
        ≡ (map (spawned listener tls_acceptor) (clients events), false)
  unfolding accept_loop
  accept_loop-Continues [] h = refl
  accept_loop-Continues (accepted a ∷ events) h =
      ap (λ p. (spawned listener tls_acceptor a ∷ p.0, p.1)) (accept_loop-Continues events h.1)
  accept_loop-Continues (accept_failed e ∷ events) h = accept_loop-Continues events h.1
  accept_loop-Continues (cancelled ∷ events) h = absurd (h.0 refl)

  accept_loop-ends :
      (events later : List Event)
      → All Continues events
      → accept_loop listener tls_acceptor (events ++ cancelled ∷ later)
        ≡ (map (spawned listener tls_acceptor) (clients events), true)
  unfolding accept_loop
  accept_loop-ends [] later h = refl
  accept_loop-ends (accepted a ∷ events) later h =
      ap (λ p. (spawned listener tls_acceptor a ∷ p.0, p.1)) (accept_loop-ends events later h.1)
  accept_loop-ends (accept_failed e ∷ events) later h = accept_loop-ends events later h.1
  accept_loop-ends (cancelled ∷ events) later h = absurd (h.0 refl)

  -- A listener whose address is bound runs on while no cancellation has come and returns `Ok` at the
  -- first, whatever comes later; until then it has spawned a task for each client that has connected,
  -- in order. Where binding fails it returns that error and serves nobody.
  pub run_tcp_listener_lem :
      (events later : List Event) (e : Str)
      → All Continues events
      → (run_tcp_listener listener tls_acceptor (ok tt) events
          ≡ (map (spawned listener tls_acceptor) (clients events), none))
        × (run_tcp_listener listener tls_acceptor (ok tt) (events ++ cancelled ∷ later)
            ≡ (map (spawned listener tls_acceptor) (clients events), some (ok tt)))
        × (run_tcp_listener listener tls_acceptor (err e) events ≡ ([], some (err e)))
  unfolding run_tcp_listener
  run_tcp_listener_lem events later e h =
      (rw (accept_loop-Continues events h) refl, rw (accept_loop-ends events later h) refl, refl)

  spawned-returns :
      (p : Protocol) (client_addr : SocketAddr)
      → (listener.protocol ≡ https → tls_acceptor ≡ true)
      → listener.protocol ≡ p
      → (task : Task) × (spawned listener tls_acceptor client_addr ≡ returned task)
  unfolding spawned
  spawned-returns http client_addr has_tls e =
      (http_task client_addr listener.name, rw (spawned, e) refl)
  spawned-returns https client_addr has_tls e =
      (https_task client_addr listener.name, rw (spawned, e, has_tls e) refl)
  spawned-returns tcp client_addr has_tls e =
      (tcp_task client_addr listener.name tls_acceptor, rw (spawned, e) refl)

  -- The task was reached without a panic.
  abbrev pub Starts : Exec Task → Type 0
  Starts t = (task : Task) × (t ≡ returned task)

  accept_loop-Starts :
      (listener.protocol ≡ https → tls_acceptor ≡ true)
      → (events : List Event) → All Starts (accept_loop listener tls_acceptor events).0
  unfolding accept_loop
  accept_loop-Starts has_tls [] = tt
  accept_loop-Starts has_tls (accepted a ∷ events) =
      (spawned-returns listener.protocol a has_tls refl, accept_loop-Starts has_tls events)
  accept_loop-Starts has_tls (accept_failed e ∷ events) = accept_loop-Starts has_tls events
  accept_loop-Starts has_tls (cancelled ∷ events) = tt

  -- With an acceptor where the protocol is https no task of the listener panics at its start.
  pub run_tcp_listener-Starts :
      (bound : Result (Unit {0}) Str) (events : List Event)
      → (listener.protocol ≡ https → tls_acceptor ≡ true)
      → All Starts (run_tcp_listener listener tls_acceptor bound events).0
  unfolding run_tcp_listener
  run_tcp_listener-Starts (err e) events has_tls = tt
  run_tcp_listener-Starts (ok _) events has_tls = accept_loop-Starts has_tls events
