-- ===== src/Gateway/Tests.antt =====
-- The gateway started with the sample configuration, and a connection to it.
use portiq.Base.{
  ◌≡◌, refl, List, [], ◌∷◌, none, some, Str, text, returned, Result, ok, length, ◌==◌, true, false,
  contains, get,
}
use portiq.Startup.{Started, main, config_path, make_acceptor}
use portiq.Startup.Plain.{plain_environment, sample_config-CanStart}
use portiq.Server.PlainTls.{plain_tls-IsRustls}
use portiq.Server.Accept.{handle_https, serve_http_connection, serve_requests}
use portiq.RateLimiter.Billionths.{billionths-IsIeee}
use portiq.Middleware.{Request, header_text, Response, World}
use portiq.Middleware.Plain.{plain, plain-IsHyper}
use portiq.Server.Sample.{
  a_request-IsReadable, plain-IsUri, plain-Arrives, sample_config-AllWorking, a_request, client,
  upstream_response, forwarded_runtime, forwarded_world, forwarded-answer,
}
use portiq.Gateway.{Reach, started, first_world, then_step, serves}
use portiq.Gateway.Sound.{IsSound, main-IsSound}
use portiq.Gateway.Connections.{state}
use portiq.Config.{compact, socket_addr}
use portiq.Logger.{stdout, env_filter, info_filter, init_layers, access_layer, get_log_writer}
use portiq.Reload.{load_config}
use portiq.Config.Validate.{
  validate, check_tls, check_listeners, check_services, check_routes, check_route,
  check_route_listeners, check_route_middlewares,
}
use portiq.Runtime
use portiq.Service
use portiq.Router
use portiq.LoadBalancer
use portiq.Service.{init_services, new_service, get_http_service_endpoint, endpoint}
use portiq.LoadBalancer.{push_weights, select, peek, advance}
use portiq.Server.Tls.{
  init_rustls_server_config, new_resolver, add_configs, add_hosts, add_sni_cert, certified_key,
  load_certs, load_private_key, open_file,
}
use portiq.Gateway.Answered.{IsServable, IsServing, handle_https_total}
use portiq.Server.{original_host}
use portiq.Runtime.{GatewayRuntime}
use portiq.Router.{matches, get_http_route, get_http_upstream}
use portiq.Samples.{
  sample_config-IsValidConfig, sample_router-IsConsistent, sample_config, sample_runtime,
}

abbrev one_connection : List (Request plain)
one_connection = a_request ∷ []

abbrev greeted : Result (Unit {0}) Str
greeted = ok tt

one_connection-answer :
    handle_https plain greeted
      (socket_addr client 50000)
      (text "http-main")
      one_connection
      sample_runtime
      (first_world plain)
    ≡ returned (upstream_response ∷ [], forwarded_runtime, forwarded_world)
unfolding handle_https serve_http_connection serve_requests
one_connection-answer = rw forwarded-answer refl

-- What `main` starts for the sample.
abbrev pub sample_started : Started plain_environment
sample_started = record {
  config_file_path = some (text "portiq.yml");
  layers =
      record {
        writer = stdout;
        format = compact;
        filter = env_filter (text "INFO");
        access_only = false;
      }
      ∷ record { writer = stdout; format = compact; filter = info_filter; access_only = true }
      ∷ [];
  tls_acceptor = some (record {
    cert_resolver = record {
      default = (text "cert.pem" ∷ [], text "key.pem");
      sni = (text "api.example.com", (text "cert.pem" ∷ [], text "key.pem")) ∷ [];
    };
    alpn_protocols = text "h2" ∷ text "http/1.1" ∷ [];
  });
  gateway_state = sample_runtime;
  listeners = sample_config.listeners;
}

pub arguments-started :
    main plain_environment (text "portiq" ∷ text "--config" ∷ text "portiq.yml" ∷ [])
    ≡ returned sample_started
unfolding main config_path ◌==◌ load_config init_layers access_layer get_log_writer make_acceptor
    init_rustls_server_config new_resolver add_configs add_hosts add_sni_cert certified_key
    load_certs load_private_key open_file validate check_tls check_listeners contains check_services
    check_routes check_route check_route_listeners check_route_middlewares get Runtime.new
    Service.init init_services new_service LoadBalancer.new Router.new push_weights
arguments-started = refl

-- One forwarded request.
main-IsSound_example :
    IsSound plain billionths-IsIeee sample_config (state plain forwarded_runtime forwarded_world)
main-IsSound_example =
    main-IsSound plain billionths-IsIeee plain_environment plain_tls-IsRustls (text "portiq")
      (text "portiq.yml") sample_config sample_started sample_config-CanStart arguments-started
      (then_step started
        (serves client (text "http-main") a_request upstream_response forwarded-answer))

a_request-IsServable : IsServable plain a_request
unfolding original_host header_text get ◌==◌
a_request-IsServable = record {
  readable = a_request-IsReadable;
  host = (text "api.example.com", refl);
}

sample_runtime-IsServing : IsServing plain sample_runtime
sample_runtime-IsServing = record {
  valid = sample_config-IsValidConfig;
  consistent = sample_router-IsConsistent;
  working = sample_config-AllWorking;
}

-- The same request twice.
handle_https_total_example :
    (responses : List (Response plain)) × (rt' : GatewayRuntime) × (w' : World plain)
    × (handle_https plain
          (ok tt)
          (socket_addr client 50000)
          (text "http-main")
          (a_request ∷ a_request ∷ [])
          sample_runtime
          (first_world plain)
        ≡ returned (responses, rt', w'))
    × (length responses ≡ 2)
    × IsServing plain rt'
    × Reach plain none (state plain sample_runtime (first_world plain)) (state plain rt' w')
handle_https_total_example =
    handle_https_total plain plain-IsHyper plain-IsUri plain-Arrives none (socket_addr client 50000)
      (text "http-main") (a_request ∷ a_request ∷ []) sample_runtime (first_world plain)
      sample_runtime-IsServing (a_request-IsServable, (a_request-IsServable, tt))
