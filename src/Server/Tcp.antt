-- ===== src/Server/Tcp.antt =====
-- The raw TCP proxy: `handle_tcp_client` and `send_upstream` of src/server/tcp.rs. What the network answers
-- is the parameter `Network`; a connection to an upstream is noted with what was copied to it.
use portiq.Base.{
  Bool, true, false, List, [], ◌∷◌, Option, none, some, Str, Exec, returned, ◌>>=◌, Result, ok, err,
}
use portiq.Config.{TcpTlsMode, terminate, passthrough, Upstream}
use portiq.Router.{get_tcp_route, get_tcp_upstream}
use portiq.Runtime.{GatewayRuntime}

pub data Stream : Type 0 where
  tcp_stream tls_stream : Stream

-- The handshake with the client, connecting to a target, and copying both ways until the end, each
-- with its `io::Error` as a text.
pub record Network : Type 0 where
  pub accept : Result (Unit {0}) Str
  pub connect : Str → Result (Unit {0}) Str
  pub copy_bidirectional : Str → Stream → Result (Unit {0}) Str

module _ (network : Network) where
  abbrev pub Copied : Type 0
  Copied = List (Str × Stream)

  unfoldable pub copy_upstream : Str → Stream → Result (Unit {0}) Str × Copied
  copy_upstream target stream = elim (network.connect target) [
    | err e ↦ (err e, [])
    | ok _ ↦ (network.copy_bidirectional target stream, (target, stream) ∷ [])
  ]

  -- The branch of a route that has an upstream; `tls_acceptor` says whether there is one.
  unfoldable pub serve_tcp : Option TcpTlsMode → Bool → Upstream → Result (Unit {0}) Str × Copied
  serve_tcp (some terminate) true upstream = elim network.accept [
    | err e ↦ (err e, [])
    | ok _ ↦ copy_upstream upstream.target tls_stream
  ]
  serve_tcp (some terminate) false upstream = (ok tt, [])
  serve_tcp (some passthrough) tls_acceptor upstream = copy_upstream upstream.target tcp_stream
  serve_tcp none tls_acceptor upstream = copy_upstream upstream.target tcp_stream

  unfoldable pub handle_tcp_client :
      Str → Bool → GatewayRuntime → Exec ((Result (Unit {0}) Str × Copied) × GatewayRuntime)
  handle_tcp_client listener tls_acceptor gateway_state =
      elim (get_tcp_route gateway_state.router listener) [
        | err _ ↦ returned ((ok tt, []), gateway_state)
        | ok route ↦ do
          (found, router) ← get_tcp_upstream gateway_state.router route.service
          let state' = record gateway_state { router = router }
          elim found [
            | err _ ↦ returned ((ok tt, []), state')
            | ok upstream ↦ returned (serve_tcp route.tls_mode tls_acceptor upstream, state')
          ]
      ]
