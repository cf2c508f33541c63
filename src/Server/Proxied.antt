-- ===== src/Server/Proxied.antt =====
-- `handle_tcp_client` (src/server/tcp.rs): where a connection goes, and why it goes nowhere.
use portiq.Base.{
  get, ◌≡◌, ◌⊎◌, inl, inr, refl, Bool, true, false, List, [], ◌∷◌, Option, none, some, Str,
  returned, Result, ok, err, Result-cases, All,
}
use portiq.Config.{TcpServiceConfig, TcpTlsMode, terminate, passthrough, GatewayConfig, Upstream}
use portiq.Router.{TcpRoute, RouterError, Router, get_tcp_upstream}
use portiq.LoadBalancer.Shares.{Weighs}
use portiq.Router.Route.{Listens, IsFirst, get_tcp_route-IsFirst}
use portiq.Runtime.{GatewayRuntime}
use portiq.Runtime.Consistent.{IsConsistent, get_tcp_upstream-IsConsistent}
use portiq.Server.Tcp.{
  Stream, tcp_stream, tls_stream, Network, copy_upstream, serve_tcp, handle_tcp_client,
}

-- What a route's upstream is to see: the decrypted stream where the route terminates TLS.
abbrev pub carried : Option TcpTlsMode → Stream
carried (some terminate) = tls_stream
carried (some passthrough) = tcp_stream
carried none = tcp_stream

module _ (network : Network) where
  -- Why nothing is copied for a route with that mode.
  pub data Fails (mode : Option TcpTlsMode) (tls_acceptor : Bool) (target : Str) : Type 0 where
    no_acceptor : mode ≡ some terminate → tls_acceptor ≡ false → Fails mode tls_acceptor target
    no_handshake :
        (e : Str) → mode ≡ some terminate → network.accept ≡ err e → Fails mode tls_acceptor target
    no_connection : (e : Str) → network.connect target ≡ err e → Fails mode tls_acceptor target

  copy_upstream-cases :
      (target : Str) (stream : Stream)
      → (copy_upstream network target stream
          ≡ (network.copy_bidirectional target stream, (target, stream) ∷ []))
        ⊎ ((e : Str) × (network.connect target ≡ err e)
            × (copy_upstream network target stream ≡ (err e, [])))
  unfolding copy_upstream
  copy_upstream-cases target stream = elim (Result-cases (network.connect target)) [
    | inl (e, failed) ↦ inr (e, failed, rw (copy_upstream, failed) refl)
    | inr (_, connected) ↦ inl (rw (copy_upstream, connected) refl)
  ]

  serve_tcp-cases :
      (mode : Option TcpTlsMode) (tls_acceptor : Bool) (upstream : Upstream)
      → (serve_tcp network mode tls_acceptor upstream ≡ (
        network.copy_bidirectional upstream.target (carried mode),
        (upstream.target, carried mode) ∷ [],
      ))
        ⊎ (Fails mode tls_acceptor upstream.target
            × ((r : Result (Unit {0}) Str) × (serve_tcp network mode tls_acceptor upstream
                  ≡ (r, []))))
  unfolding serve_tcp
  serve_tcp-cases (some terminate) true upstream = elim (Result-cases network.accept) [
    | inl (e, failed) ↦ inr (no_handshake e refl failed, (err e, rw (serve_tcp, failed) refl))
    | inr (_, shaken) ↦ elim (copy_upstream-cases upstream.target tls_stream) [
      | inl done ↦ inl (rw (serve_tcp, shaken) done)
      | inr (e, failed, out) ↦ inr (no_connection e failed, (err e, rw (serve_tcp, shaken) out))
    ]
  ]
  serve_tcp-cases (some terminate) false upstream = inr (no_acceptor refl refl, (ok tt, refl))
  serve_tcp-cases (some passthrough) tls_acceptor upstream =
      elim (copy_upstream-cases upstream.target tcp_stream) [
        | inl done ↦ inl done
        | inr (e, failed, out) ↦ inr (no_connection e failed, (err e, out))
      ]
  serve_tcp-cases none tls_acceptor upstream =
      elim (copy_upstream-cases upstream.target tcp_stream) [
        | inl done ↦ inl done
        | inr (e, failed, out) ↦ inr (no_connection e failed, (err e, out))
      ]

  pub data Proxied (cfg : GatewayConfig) (listener : Str) (tls_acceptor : Bool) (router : Router)
      (r : Result (Unit {0}) Str) (copied : List (Str × Stream)) : Type 0 where
    unrouted :
        All (λ route. ¬ Listens listener route.listeners) router.tcp
        → r ≡ ok tt
        → copied ≡ []
        → Proxied cfg listener tls_acceptor router r copied
    no_target :
        (route : TcpRoute) (e : RouterError) (router' : Router)
        → IsFirst listener router.tcp route
        → get_tcp_upstream router route.service ≡ returned (err e, router')
        → copied ≡ []
        → Proxied cfg listener tls_acceptor router r copied
    failed :
        (route : TcpRoute) (upstream : Upstream) (router' : Router)
        → IsFirst listener router.tcp route
        → get_tcp_upstream router route.service ≡ returned (ok upstream, router')
        → Fails route.tls_mode tls_acceptor upstream.target
        → copied ≡ []
        → Proxied cfg listener tls_acceptor router r copied
    proxied :
        (route : TcpRoute) (upstream : Upstream) (router' : Router)
        → IsFirst listener router.tcp route
        → get_tcp_upstream router route.service ≡ returned (ok upstream, router')
        → (c : TcpServiceConfig) × (get route.service cfg.tcp.services ≡ some c)
          × Weighs upstream c.upstreams
        → r ≡ network.copy_bidirectional upstream.target (carried route.tls_mode)
        → copied ≡ (upstream.target, carried route.tls_mode) ∷ []
        → Proxied cfg listener tls_acceptor router r copied

  -- With a router built from the configuration a TCP connection is handled without a panic, the
  -- router stays built from it, and the connection is copied to an upstream with a weight, of the
  -- service of the first route that has the listener, decrypted exactly where that route terminates
  -- TLS; unless no route has the listener, its service has no upstream, the acceptor is missing, or
  -- the handshake or connecting fails, and then nothing is copied.
  pub handle_tcp_client-Proxied :
      (cfg : GatewayConfig) (listener : Str) (tls_acceptor : Bool) (rt : GatewayRuntime)
      → IsConsistent cfg rt.router
      → (r : Result (Unit {0}) Str) × (copied : List (Str × Stream)) × (rt' : GatewayRuntime)
        × (handle_tcp_client network listener tls_acceptor rt ≡ returned ((r, copied), rt'))
        × (rt'.applied_config ≡ rt.applied_config)
        × IsConsistent cfg rt'.router
        × Proxied cfg listener tls_acceptor rt.router r copied
  unfolding handle_tcp_client
  handle_tcp_client-Proxied cfg listener tls_acceptor rt consistent =
      elim (get_tcp_route-IsFirst rt.router listener) [
        | inl (e, none_listens) ↦ (
          ok tt,
          [],
          rt,
          rw (handle_tcp_client, e) refl,
          refl,
          consistent,
          unrouted none_listens refl refl,
        )
        | inr (route, e, first) ↦
            let (found, router', at, consistent', chosen) =
              get_tcp_upstream-IsConsistent cfg rt.router route.service consistent in
            let rt' : GatewayRuntime = record rt { router = router' } in
            elim (Result-cases found) [
              | inl (er, e') ↦ (
                ok tt,
                [],
                rt',
                rw (handle_tcp_client, e, at, e') refl,
                refl,
                consistent',
                no_target route er router' first (rw e' at at) refl,
              )
              | inr (upstream, e') ↦ elim (serve_tcp-cases route.tls_mode tls_acceptor upstream) [
                | inl done ↦ (
                  network.copy_bidirectional upstream.target (carried route.tls_mode),
                  (upstream.target, carried route.tls_mode) ∷ [],
                  rt',
                  rw (handle_tcp_client, e, at, e', done) refl,
                  refl,
                  consistent',
                  proxied route upstream router' first (rw e' at at) (chosen upstream e') refl refl,
                )
                | inr (why, (r, done)) ↦ (
                  r,
                  [],
                  rt',
                  rw (handle_tcp_client, e, at, e', done) refl,
                  refl,
                  consistent',
                  failed route upstream router' first (rw e' at at) why refl,
                )
              ]
            ]
      ]
