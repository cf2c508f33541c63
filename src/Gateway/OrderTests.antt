-- ===== src/Gateway/OrderTests.antt =====
-- One configuration whose services and middlewares come out in two orders, and a connection to the
-- gateways of both.
use portiq.Base.{
  ◌≡◌, ◌≢◌, refl, [], ◌∷◌, none, Str, text, ◌==◌, eq_iff, Map, get, here, there, arith, sym, false,
  ◌>>=◌,
}
use portiq.Config.{
  GatewayConfig, HttpServiceConfig, MiddlewareConfig, SocketAddr, socket_addr, add_prefix,
  rate_limit, ip_source,
}
use portiq.Config.Validate.{validate}
use portiq.Config.Seen.{Named}
use portiq.Config.Order.{IsReordered, reordered, validate-reordered}
use portiq.Runtime
use portiq.Runtime.Consistent.{Fits}
use portiq.Middleware.Plain.{plain}
use portiq.Server.Order.{Alike}
use portiq.Server.Accept.{serve_http_connection}
use portiq.Server.Sample.{a_request, client}
use portiq.Gateway.{first_world}
use portiq.Gateway.Order.{AllAnswered, new-serve_http_connection}
use portiq.Samples.{sample_config, two_upstreams}

other : (j k : Str) → j ≢ k → ¬ Named j (k ∷ [])
other j k n (here e) = n (sym e)
other j k n (there m) = elim m [ ]

-- The entries of two keys, in the one order and the other.
swapped-IsReordered :
    {V : Type 0} (j k : Str) (a b : V)
    → (j == k) ≡ false
    → IsReordered ((j, a) ∷ (k, b) ∷ []) ((k, b) ∷ (j, a) ∷ [])
unfolding get
swapped-IsReordered j k a b h = record {
  distinct = (other j k (λ e. ground (arith, (eq_iff j k).1 e)), ((λ m. elim m [ ]), tt));
  distinct' = (other k j (λ e. ground (arith, (eq_iff j k).1 (sym e))), ((λ m. elim m [ ]), tt));
  same = λ l. ground (arith, h, eq_iff j k, eq_iff j l, eq_iff k l);
}

abbrev two_in_ten_seconds : MiddlewareConfig
two_in_ten_seconds =
    rate_limit (record { source = ip_source none; limit = 2; period = 10000000000 })

abbrev two_services : Map HttpServiceConfig
two_services =
    (text "user-service", record { upstreams = two_upstreams })
    ∷ (text "shop", record { upstreams = [] })
    ∷ []

abbrev two_services_back : Map HttpServiceConfig
two_services_back =
    (text "shop", record { upstreams = [] })
    ∷ (text "user-service", record { upstreams = two_upstreams })
    ∷ []

abbrev two_middlewares : Map MiddlewareConfig
two_middlewares =
    (text "global-rate-limit", two_in_ten_seconds)
    ∷ (text "v2", add_prefix (record { prefix = text "/v2" }))
    ∷ []

abbrev two_middlewares_back : Map MiddlewareConfig
two_middlewares_back =
    (text "v2", add_prefix (record { prefix = text "/v2" }))
    ∷ (text "global-rate-limit", two_in_ten_seconds)
    ∷ []

abbrev two_of_each : GatewayConfig
two_of_each = reordered sample_config two_services two_middlewares

two_services-IsReordered : IsReordered two_services two_services_back
unfolding ◌==◌
two_services-IsReordered = swapped-IsReordered _ _ _ _ refl

two_middlewares-IsReordered : IsReordered two_middlewares two_middlewares_back
unfolding ◌==◌
two_middlewares-IsReordered = swapped-IsReordered _ _ _ _ refl

validate-reordered_example :
    validate (reordered two_of_each two_services_back two_middlewares_back) ≡ validate two_of_each
validate-reordered_example =
    validate-reordered two_of_each two_services_back two_middlewares_back two_services-IsReordered
      two_middlewares-IsReordered

two_of_each-Fits : Fits two_of_each
two_of_each-Fits = record { http = omega arith; tcp = omega arith }

two_back-Fits : Fits (reordered two_of_each two_services_back two_middlewares_back)
two_back-Fits = record { http = omega arith; tcp = omega arith }

abbrev from : SocketAddr
from = socket_addr client 50000

-- The same request twice.
new-serve_http_connection_example :
    Alike
      (AllAnswered plain)
      (Runtime.new two_of_each >>= λ rt.
        serve_http_connection plain from
          (text "http-main")
          (a_request ∷ a_request ∷ [])
          rt
          (first_world plain))
      (Runtime.new (reordered two_of_each two_services_back two_middlewares_back) >>= λ rt.
        serve_http_connection plain from
          (text "http-main")
          (a_request ∷ a_request ∷ [])
          rt
          (first_world plain))
new-serve_http_connection_example =
    new-serve_http_connection two_of_each two_services_back two_middlewares_back two_of_each-Fits
      two_back-Fits two_services-IsReordered two_middlewares-IsReordered plain from
      (text "http-main") (a_request ∷ a_request ∷ []) (first_world plain)
