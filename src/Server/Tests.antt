-- ===== src/Server/Tests.antt =====
-- src/server/http.rs and src/server/tcp.rs on concrete requests.
use portiq.Runtime.{GatewayRuntime}
use portiq.Base.{
  true, List, Result, ok, ◌≡◌, refl, [], ◌∷◌, ◌++◌, none, some, Str, text, ◌==◌, get, returned,
  strip_prefix, ends_with, starts_with, ◌⊎◌, map, find, err,
}
use portiq.Router
use portiq.Router.{get_http_route, get_http_upstream, matches}
use portiq.Runtime.Consistent.{IsConsistent}
use portiq.Middleware.Plain.{plain, plain-IsHyper, no_headers}
use portiq.Middleware.{Request, Response, World, header_text}
use portiq.Server.{handle_client, original_host, response_with_status}
use portiq.Server.Served.{Outcome, handle_client-Outcome}
use portiq.Server.Tcp.{Stream, Network, handle_tcp_client}
use portiq.Server.Proxied.{Proxied, handle_tcp_client-Proxied}
use portiq.Server.Sample.{
  a_request-IsReadable, a_request-original_host, plain-IsUri, plain-Arrives,
  sample_config-AllWorking, a_request, start, client, forwarded_runtime, forwarded_world,
  upstream_response, forwarded-answer,
}
use portiq.Server.Answered.{handle_client_total}
use portiq.Server.Logged.{handle_client-IsLogged}
use portiq.Middleware.Logged.{IsLogged}
use portiq.Config.{TlsConfig, socket_addr}
use portiq.Server.Tls.{
  CertifiedKey, ServerConfig, certified_key, resolve, init_rustls_server_config,
}
use portiq.Server.Chosen.{Chosen, init_rustls_server_config-Chosen}
use portiq.Server.PlainTls.{plain_tls, plain_tls-IsRustls, certificate-Loads}
use portiq.Server.Accept.{Event, accepted, accept_failed, cancelled, run_tcp_listener, spawned}
use portiq.Server.Listening.{clients, run_tcp_listener_lem}
use portiq.Samples.{
  certificate, http_main, sample_config, sample_router, sample_runtime, sample_config-IsValidConfig,
  sample_router-IsConsistent,
}

-- No route of the sample has this host and listener.
abbrev unrouted : Request plain
unrouted = record a_request { uri = record { scheme = none; host = none; path = text "/v2/api" } }

unrouted-answer :
    handle_client plain client (text "http-main") sample_runtime unrouted start
    ≡ returned (
      record { status = 404; headers = (text "Server", text "portiq") ∷ no_headers; body = [] },
      sample_runtime,
      start,
    )
unfolding handle_client original_host header_text get ◌==◌ get_http_route Router.max_by_key matches
    Router.match_listener Router.match_host strip_prefix Router.match_path ends_with starts_with
    response_with_status Router.status_code
unrouted-answer = refl

handle_client-Outcome_example :
    (sample_config ≡ sample_config)
    × IsConsistent sample_config forwarded_runtime.router
    × ((host : Str) × (original_host plain a_request ≡ returned host)
        × Outcome plain sample_config sample_router client host
            (text "http-main")
            a_request
            start
            upstream_response
            forwarded_world)
handle_client-Outcome_example =
    handle_client-Outcome plain client (text "http-main") sample_runtime a_request start
      sample_config-IsValidConfig sample_router-IsConsistent forwarded-answer

-- A network on which everything goes through.
abbrev open_network : Network
open_network = record {
  accept = ok tt;
  connect = λ target. ok tt;
  copy_bidirectional = λ target stream. ok tt;
}

handle_tcp_client-Proxied_example :
    (r : Result (Unit {0}) Str) × (copied : List (Str × Stream)) × (rt' : GatewayRuntime)
    × (handle_tcp_client open_network (text "tcp-main") true sample_runtime
        ≡ returned ((r, copied), rt'))
    × (rt'.applied_config ≡ sample_config)
    × IsConsistent sample_config rt'.router
    × Proxied open_network sample_config (text "tcp-main") true sample_router r copied
handle_tcp_client-Proxied_example =
    handle_tcp_client-Proxied open_network sample_config (text "tcp-main") true sample_runtime
      sample_router-IsConsistent

handle_client-IsLogged_example :
    IsLogged plain plain-IsHyper a_request start upstream_response forwarded_world
    ⊎ ((forwarded_world ≡ start)
        × ((upstream_response.status ≡ 404) ⊎ (upstream_response.status ≡ 503)))
handle_client-IsLogged_example =
    handle_client-IsLogged plain plain-IsHyper client (text "http-main") sample_runtime a_request
      start forwarded-answer

init_rustls_server_config-Chosen_example :
    (config : ServerConfig plain_tls) × (default : TlsConfig) × (init_rustls_server_config plain_tls
        (certificate ∷ [])
      ≡ returned config)
    × (find (λ c. c.default) (certificate ∷ []) ≡ some default)
    × ((hello : plain_tls.ClientHello)
        → (cfg : TlsConfig) × (key : CertifiedKey plain_tls) × Chosen plain_tls plain_tls-IsRustls
            hello default
            (certificate ∷ [])
            cfg
          × (certified_key plain_tls cfg.cert_file cfg.key_file ≡ ok key)
          × (resolve plain_tls config.cert_resolver hello ≡ some key))
init_rustls_server_config-Chosen_example =
    init_rustls_server_config-Chosen plain_tls plain_tls-IsRustls (certificate ∷ []) refl
      (certificate-Loads, tt)

-- Two clients and a failed `accept` between them.
abbrev two_clients : List Event
two_clients =
    accepted (socket_addr client 50000)
    ∷ accept_failed (text "too many open files")
    ∷ accepted (socket_addr client 50001)
    ∷ []

run_tcp_listener_lem_example :
    (run_tcp_listener http_main true (ok tt) two_clients
      ≡ (map (spawned http_main true) (clients two_clients), none))
    × (run_tcp_listener http_main true (ok tt) (two_clients ++ cancelled ∷ two_clients)
        ≡ (map (spawned http_main true) (clients two_clients), some (ok tt)))
    × (run_tcp_listener http_main true (err (text "address in use")) two_clients
        ≡ ([], some (err (text "address in use"))))
run_tcp_listener_lem_example =
    run_tcp_listener_lem http_main true two_clients two_clients (text "address in use")
      ((λ e. cc), ((λ e. cc), ((λ e. cc), tt)))

handle_client_total_example :
    (r : Response plain) × (rt' : GatewayRuntime) × (w' : World plain) × (handle_client plain client
        (text "http-main")
        sample_runtime
        a_request
        start
      ≡ returned (r, rt', w'))
    × (rt'.applied_config ≡ sample_config)
    × IsConsistent sample_config rt'.router
    × Outcome plain sample_config sample_router client
        (text "api.example.com")
        (text "http-main")
        a_request
        start
        r
        w'
handle_client_total_example =
    handle_client_total plain plain-IsHyper plain-IsUri plain-Arrives client (text "http-main")
      sample_runtime a_request start (text "api.example.com") sample_config-IsValidConfig
      sample_router-IsConsistent sample_config-AllWorking a_request-original_host
      a_request-IsReadable
