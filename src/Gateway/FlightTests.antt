-- ===== src/Gateway/FlightTests.antt =====
-- A request in flight while the sample configuration is reloaded.
use portiq.Base.{
  ok, some, replicate, arith, unwrap, ◌+◌, ◌≡◌, refl, [], ◌∷◌, none, text, returned, ◌==◌, get,
  ◌>>=◌, insert, strip_prefix, ends_with, starts_with,
}
use portiq.Startup.Plain.{plain_environment, sample_config-CanStart}
use portiq.Server.PlainTls.{plain_tls-IsRustls}
use portiq.RateLimiter.Billionths.{billionths, billionths-IsIeee}
use portiq.Middleware.Plain.{plain, plain-IsHyper}
use portiq.Server.Sample.{
  a_request-IsReadable, plain-IsUri, plain-Arrives, a_request, client, upstream_response,
  forwarded_runtime, forwarded_world,
}
use portiq.Gateway.{first_world}
use portiq.Router
use portiq.Server.{
  original_host, handle_client, forwarded_for, has_body, outgoing, outgoing_body, request_host,
  request_proto, respond, response_headers, route_middlewares, send_upstream, set_proxy_headers,
}
use portiq.Middleware.{
  Response, World, header_text, request_id, access_logger, rate_limiter, limit_key, show_ip,
}
use portiq.Config.{ip_source}
use portiq.Config.Validate.{show_number}
use portiq.LoadBalancer.{select, peek, advance}
use portiq.Service.{get_http_service_endpoint, endpoint}
use portiq.Router.{matches, get_http_route, get_http_upstream}
use portiq.RateLimiter.{Limiter, allow, new_bucket, new_limiter, refill, take_token}
use portiq.Middleware.Registry
use portiq.Middleware.Registry.{create, create_chain, extend, push_created}
use portiq.Reload.{prepare_reload}
use portiq.Reload.Sample.{sample_path, read_sample, read_sample-ReadsFit}
use portiq.Gateway.Tests.{sample_started, arguments-started}
use portiq.Gateway.Flight.{
  Pending, queued, begin_request, step_pending, answer_of, Flight, Flies, begins, prepares, stores,
  leaves, took_off, then_flies,
}
use portiq.Reload.Static.{load_config_iff, static_config_same_iff}
use portiq.Samples.{
  sample_config-IsValidConfig, sample_runtime-new, first_upstream, sample_config, sample_runtime,
}
use portiq.Gateway.Overlaps.{IsFlying, main-IsFlying}
use portiq.Gateway.Split.{
  settle_pending, pending_left, handle_client-settle_pending, Flies-settle_pending,
}
use portiq.Gateway.Landing.{settle_among, settle_among_total}
use portiq.Gateway.Tally.{total_with, first_world-IsTallied}
use portiq.Middleware.Stages.{entering, leaving, step_from}
use portiq.Middleware.Stages.Whole.{steps_left}
use portiq.Middleware.Stages.Tally.{entries_with}

abbrev a_limiter : Limiter billionths
a_limiter = record { source = ip_source none; limit = 2; duration = 10000000000 }

abbrev in_flight : Pending plain
in_flight = queued client first_upstream (record {
  stage = entering (request_id ∷ access_logger ∷ rate_limiter a_limiter ∷ []) a_request;
  loggers = [];
})

abbrev landed : Pending plain
landed = queued client first_upstream (record { stage = leaving upstream_response; loggers = [] })

in_flight-begins :
    begin_request plain client (text "http-main") sample_runtime a_request
    ≡ returned (in_flight, forwarded_runtime)
unfolding begin_request Router.match_host Router.match_listener Router.match_path Router.max_by_key
    Router.max_from Router.score matches get_http_route get_http_upstream get_http_service_endpoint
    endpoint select peek advance get insert ◌==◌ strip_prefix ends_with starts_with create
    create_chain extend push_created header_text new_limiter original_host route_middlewares
    Registry.init
in_flight-begins = refl

-- Into three middlewares, to the upstream and out of the access logger.
in_flight-settles :
    settle_pending plain 5 (in_flight, first_world plain) ≡ returned (landed, forwarded_world)
unfolding settle_pending step_pending step_from get insert ◌==◌ header_text limit_key show_ip allow
    new_bucket refill take_token show_number forwarded_for has_body outgoing outgoing_body
    request_host request_proto respond response_headers send_upstream set_proxy_headers
in_flight-settles = refl

in_flight-prepares :
    prepare_reload sample_path read_sample forwarded_runtime ≡ returned (ok sample_runtime)
unfolding prepare_reload
in_flight-prepares =
    let loaded =
      (load_config_iff sample_path read_sample sample_config).1
        (text "portiq.yml", refl, refl, sample_config-IsValidConfig) in
    let same = (static_config_same_iff sample_config sample_config).1 (record {
      version = refl;
      admin_api = refl;
      log = refl;
      access_log = refl;
      tls = refl;
      listeners = refl;
    }) in
    rw (prepare_reload, loaded, same, sample_runtime-new) refl

abbrev looked_up : Flight plain
looked_up = record {
  runtime = forwarded_runtime;
  world = first_world plain;
  pending = in_flight ∷ [];
  answered = [];
  prepared = [];
}

abbrev reloaded : Flight plain
reloaded = record looked_up { runtime = sample_runtime }

abbrev before_flight : Flight plain
before_flight = record looked_up { runtime = sample_runtime; pending = [] }

-- A request is looked up, the configuration is reloaded, and the request goes through its chain and
-- leaves.
abbrev after_flight : Flight plain
after_flight = record reloaded { world = forwarded_world; pending = []; answered = landed ∷ [] }

whole_flight : Flies plain (some (text "portiq.yml")) before_flight after_flight
whole_flight =
    let prepared : Flies plain (some (text "portiq.yml")) before_flight
        (record looked_up { prepared = sample_runtime ∷ [] }) =
      then_flies {s = looked_up}
        (then_flies {s = before_flight} took_off (
          begins client (text "http-main") a_request in_flight in_flight-begins refl refl refl
            refl))
        (prepares read_sample sample_runtime read_sample-ReadsFit in_flight-prepares refl refl refl
          refl refl) in
    let stored : Flies plain (some (text "portiq.yml")) before_flight reloaded =
      then_flies prepared (stores [] sample_runtime [] refl refl refl refl refl refl) in
    then_flies
      (Flies-settle_pending plain 5 {s = reloaded} [] in_flight landed [] forwarded_world stored
        refl in_flight-settles)
      (leaves [] landed [] upstream_response refl refl refl refl refl refl refl)

main-IsFlying_example : IsFlying plain billionths-IsIeee sample_config after_flight
main-IsFlying_example =
    main-IsFlying plain billionths-IsIeee plain_environment plain_tls-IsRustls (text "portiq")
      (text "portiq.yml") sample_config sample_started sample_config-CanStart arguments-started
      whole_flight

first_world-IsTallied_example :
    entries_with 200 forwarded_world.access_log
    ≡ total_with plain 200 [] + total_with plain 200 (landed ∷ [])
first_world-IsTallied_example =
    first_world-IsTallied plain sample_runtime (some (text "portiq.yml")) 200 whole_flight

in_flight-handled :
    handle_client plain client (text "http-main") sample_runtime a_request (first_world plain) ≡ (
      begin_request plain client (text "http-main") sample_runtime a_request >>= λ begun.
      settle_pending plain (pending_left plain begun.0) (begun.0, first_world plain) >>= λ x.
      unwrap (answer_of plain x.0) >>= λ r. returned (r, begun.1, x.1))
in_flight-handled =
    handle_client-settle_pending plain client (text "http-main") sample_runtime a_request
      (first_world plain)

-- Others empty the store before each step.
abbrev emptied : World plain → World plain
emptied w = record w { store = [] }

settle_among_total_example :
    (p' : Pending plain) × (w' : World plain) × (r : Response plain) × (settle_among plain
        (replicate 8 emptied)
        (in_flight, first_world plain)
      ≡ returned (p', w'))
    × (answer_of plain p' ≡ some r)
unfolding steps_left
settle_among_total_example =
    settle_among_total plain plain-IsHyper plain-IsUri plain-Arrives in_flight (first_world plain)
      (replicate 8 emptied) ((tt, (tt, (tt, tt))), a_request-IsReadable) (omega arith)
