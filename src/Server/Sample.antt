-- ===== src/Server/Sample.antt =====
-- A request to the gateway that runs the sample configuration: input for the tests.
use portiq.Service.{get_http_service_endpoint, endpoint}
use portiq.LoadBalancer.{select, peek, advance}
use portiq.Middleware.Registry
use portiq.Middleware.Registry.{create, create_chain, extend, push_created}
use portiq.RateLimiter.{allow, new_bucket, new_limiter, refill, take_token}
use portiq.Config.Validate.{show_number}
use portiq.Runtime.{GatewayRuntime}
use portiq.Base.{
  arith, inl, Bool-cases, subst, some-injective, inr, true, ◌≡◌, refl, [], ◌∷◌, none, some, text,
  ◌==◌, get, insert, returned, strip_prefix, ends_with, starts_with,
}
use portiq.Config.{IpAddr, v4}
use portiq.Router
use portiq.Router.{get_http_route, get_http_upstream, matches}
use portiq.Middleware.Plain.{plain, no_headers}
use portiq.Middleware.{
  Request, Response, World, header_text, call, call_access_logger, call_rate_limiter,
  call_request_id, limit_key, show_ip, run,
}
use portiq.Server.{
  handle_client, original_host, forwarded_for, has_body, outgoing, outgoing_body, request_host,
  request_proto, respond, response_headers, route_middlewares, send_upstream, set_proxy_headers,
  response_with_status,
}
use portiq.Server.Total.{IsReadable}
use portiq.Server.Chained.{IsUri}
use portiq.Server.Answered.{Arrives, AllWorking, IsWorking}
use portiq.Samples.{sample_config, sample_balancer, sample_registry, sample_router, sample_runtime}

abbrev pub a_request : Request plain
a_request = record {
  method = text "POST";
  uri = record { scheme = none; host = none; path = text "/v1/api" };
  headers = (text "host", text "api.example.com") ∷ [];
  client_ip = none;
  body = some (text "name");
}

abbrev pub start : World plain
start = record { store = []; access_log = []; sent = []; instants = 0; ids = 0 }

abbrev pub client : IpAddr
client = v4 10 0 0 7

-- What is left of a forwarded request: the balancer has moved on, a token is taken, the request is
-- logged and sent.
abbrev pub forwarded_runtime : GatewayRuntime
forwarded_runtime = record sample_runtime {
  router = record sample_router {
    service_registry = record sample_registry {
      http = (text "user-service", record { lb = record sample_balancer { next_index = 1 } }) ∷ [];
    };
  };
}

abbrev pub forwarded_world : World plain
forwarded_world = record {
  store =
      (
        text "127.0.0.1",
        record {
          capacity = 2;
          refill_rate = 200000000;
          available_tokens = 1000000000;
          last_refill = 1000;
        },
      )
      ∷ [];
  access_log =
      record {
        success = true;
        status = 200;
        method = text "POST";
        path = text "/v1/api";
        duration_ms = 0;
        client_ip = v4 127 0 0 1;
        user_agent = text "-";
        request_id = text "67e55044-10b1-426f";
      }
      ∷ [];
  sent =
      record {
        method = text "POST";
        url = text "https://user.service1:4443/v1/api";
        headers =
            (text "x-forwarded-for", text "10.0.0.7")
            ∷ (text "x-forwarded-host", text "api.example.com")
            ∷ (text "x-forwarded-proto", text "http")
            ∷ [];
        body = some (text "name");
      }
      ∷ [];
  instants = 4;
  ids = 1;
}

abbrev pub upstream_response : Response plain
upstream_response = record {
  status = 200;
  headers = (text "Server", text "portiq") ∷ no_headers;
  body = text "ok";
}

pub forwarded-answer :
    handle_client plain client (text "http-main") sample_runtime a_request start
    ≡ returned (upstream_response, forwarded_runtime, forwarded_world)
unfolding Router.match_host Router.match_listener Router.match_path Router.max_by_key
    Router.max_from Router.score matches get_http_route get_http_upstream Router.status_code
    get_http_service_endpoint endpoint select peek advance get insert ◌==◌ strip_prefix ends_with
    starts_with create create_chain extend push_created header_text call call_access_logger
    call_rate_limiter call_request_id limit_key show_ip run allow new_bucket new_limiter refill
    take_token show_number handle_client original_host forwarded_for has_body outgoing outgoing_body
    request_host request_proto respond response_headers route_middlewares send_upstream
    set_proxy_headers response_with_status Registry.init
forwarded-answer = refl

pub a_request-IsReadable : IsReadable plain a_request
unfolding get ◌==◌
a_request-IsReadable = record {
  target = (text "/v1/api", refl);
  host = inl (text "api.example.com", text "api.example.com", refl, refl);
  addresses = inl refl;
  body = (text "name", refl);
}

pub a_request-original_host : original_host plain a_request ≡ returned (text "api.example.com")
unfolding original_host header_text get ◌==◌
a_request-original_host = refl

pub plain-IsUri : IsUri plain
plain-IsUri = record {
  replaces = λ uri old new s e has parsed. (record uri { path = new }, refl, refl, refl);
}

pub plain-Arrives : Arrives plain
plain-Arrives before request status headers body e = (text "ok", cc)

pub sample_config-AllWorking : AllWorking plain sample_config
unfolding get
sample_config-AllWorking name config e = elim (Bool-cases (text "global-rate-limit" == name)) [
  | inl is ↦
      subst (IsWorking plain) (some-injective (simp is at e))
        (record { starts = (omega arith, omega arith); works = tt })
  | inr other ↦ cc (simp other at e)
]
