-- ===== src/Server/Accept.antt =====
-- The accept loop of src/server/mod.rs and the connections it spawns (src/server/http.rs). What
-- `tokio::select!` takes up, in turn, is a list of events; a spawned task that panics ends alone.
use portiq.Base.{
  Bool, true, false, List, [], ◌∷◌, Option, none, some, Str, Exec, returned, panicked, ◌>>=◌,
  Result, ok, err,
}
use portiq.Config.{IpAddr, SocketAddr, addr_ip, Listener, http, https, tcp}
use portiq.Runtime.{GatewayRuntime}
use portiq.Middleware.Extern.{Crates}
use portiq.Middleware.{Request, Response, World}
use portiq.Server.{handle_client}

-- What a spawned task serves, from where, and for which listener.
pub data Task : Type 0 where
  http_task : SocketAddr → Str → Task
  https_task : SocketAddr → Str → Task
  tcp_task : SocketAddr → Str → Bool → Task

pub data Event : Type 0 where
  accepted : SocketAddr → Event
  accept_failed : Str → Event
  cancelled : Event

-- The body of a spawned task up to the call that serves; `tls_acceptor` says whether there is one.
unfoldable pub spawned : Listener → Bool → SocketAddr → Exec Task
spawned listener_cfg tls_acceptor client_addr = elim listener_cfg.protocol [
  | http ↦ returned (http_task client_addr listener_cfg.name)
  | https ↦ elim tls_acceptor [
    | true ↦ returned (https_task client_addr listener_cfg.name)
    | false ↦ panicked
  ]
  | tcp ↦ returned (tcp_task client_addr listener_cfg.name tls_acceptor)
]

-- The loop over the events so far: the tasks, and whether the loop has ended.
unfoldable pub accept_loop : Listener → Bool → List Event → List (Exec Task) × Bool
accept_loop listener_cfg tls_acceptor [] = ([], false)
accept_loop listener_cfg tls_acceptor (accepted client_addr ∷ events) =
    let (tasks, ended) = accept_loop listener_cfg tls_acceptor events in
    (spawned listener_cfg tls_acceptor client_addr ∷ tasks, ended)
accept_loop listener_cfg tls_acceptor (accept_failed e ∷ events) =
    accept_loop listener_cfg tls_acceptor events
accept_loop listener_cfg tls_acceptor (cancelled ∷ events) = ([], true)

-- `bound` is the system's answer to binding the address. The result is there once the loop has ended.
unfoldable pub run_tcp_listener :
    Listener
    → Bool
    → Result (Unit {0}) Str
    → List Event
    → List (Exec Task) × Option (Result (Unit {0}) Str)
run_tcp_listener listener_cfg tls_acceptor (err e) events = ([], some (err e))
run_tcp_listener listener_cfg tls_acceptor (ok _) events =
    let (tasks, ended) = accept_loop listener_cfg tls_acceptor events in
    (tasks, elim ended [ true ↦ some (ok tt) | false ↦ none ])

-- What of `RouterContext` is not passed along.
pub record RouterContext : Type 0 where
  pub ip_addr : IpAddr
  pub listener : Str

module _ (ext : Crates) where
  -- The requests of one connection, one after another.
  unfoldable pub serve_requests :
      RouterContext
      → List (Request ext)
      → GatewayRuntime
      → World ext
      → Exec (List (Response ext) × GatewayRuntime × World ext)
  serve_requests context [] gateway_state w = returned ([], gateway_state, w)
  serve_requests context (req ∷ reqs) gateway_state w = do
    (response, state', w') ← handle_client ext context.ip_addr context.listener gateway_state req w
    (responses, state'', w'') ← serve_requests context reqs state' w'
    returned (response ∷ responses, state'', w'')

  unfoldable pub serve_http_connection :
      SocketAddr
      → Str
      → List (Request ext)
      → GatewayRuntime
      → World ext
      → Exec (List (Response ext) × GatewayRuntime × World ext)
  serve_http_connection addr listener reqs =
      serve_requests (record { ip_addr = addr_ip addr; listener = listener }) reqs

  -- `handshake` is what accepting the TLS stream gives.
  unfoldable pub handle_https :
      Result (Unit {0}) Str
      → SocketAddr
      → Str
      → List (Request ext)
      → GatewayRuntime
      → World ext
      → Exec (List (Response ext) × GatewayRuntime × World ext)
  handle_https (err e) client_addr listener reqs gateway_state w = returned ([], gateway_state, w)
  handle_https (ok _) client_addr listener reqs gateway_state w =
      serve_http_connection client_addr listener reqs gateway_state w
