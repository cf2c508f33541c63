-- ===== src/Gateway/Order.antt =====
-- Two starts from one configuration whose `HashMap`s come out in other orders: the gateways of
-- src/gateway_runtime.rs and src/service.rs, and what they answer (src/server/http.rs).
use portiq.Base.{
  ◌≡◌, refl, sym, ap, ◌∙◌, inl, inr, List, [], ◌∷◌, Option, none, some, Str, ◌==◌, Map, get, Exec,
  returned, panicked, ◌>>=◌, Bool-cases, >>=-returned_inv, returned-injective,
}
use portiq.Config.{
  GatewayConfig, HttpServiceConfig, MiddlewareConfig, SocketAddr, addr_ip, Upstream,
}
use portiq.Config.Order.{IsReordered, reordered}
use portiq.Service.{Service, init_services, new_service}
use portiq.Service.Endpoint.{init_services-Serves}
use portiq.Service
use portiq.Router
use portiq.Runtime.{GatewayRuntime}
use portiq.Runtime
use portiq.Runtime.Consistent.{Fits, http_upstreams, tcp_upstreams}
use portiq.Middleware.Extern.{Crates}
use portiq.Middleware.{Request, Response, World}
use portiq.Server.Order.{Alike, >>=-Alike, IsAlike, Answered, handle_client-Alike}
use portiq.Server.Accept.{RouterContext, serve_requests, serve_http_connection}

-- The service of an entry, if there is one and making it does not panic.
abbrev made_of : Exec Service → Option Service
made_of (returned svc) = some svc
made_of panicked = none

abbrev made : {C : Type 0} → (C → List Upstream) → Option C → Option Service
made upstreams none = none
made upstreams (some c) = made_of (new_service (upstreams c))

init_services-made :
    {C : Type 0} (upstreams : C → List Upstream) (configured : Map C) (services : Map Service)
    → init_services upstreams configured ≡ returned services
    → (name : Str) → get name services ≡ made upstreams (get name configured)
unfolding init_services get
init_services-made upstreams [] services h name = rw (← returned-injective h) refl
init_services-made upstreams ((key, c) ∷ configured) services h name =
    let (svc, h', e) = >>=-returned_inv (new_service (upstreams c)) _ h in
    let (rest, h'', e') = >>=-returned_inv (init_services upstreams configured) _ h' in
    let later = init_services-made upstreams configured rest e' name in
    rw (← returned-injective h'')
      (elim (Bool-cases (key == name)) [ inl hit ↦ rw (hit, e) refl | inr miss ↦ rw miss later ])

module _ (ext : Crates) where
  abbrev pub AllAnswered :
      List (Response ext) × GatewayRuntime × World ext
      → List (Response ext) × GatewayRuntime × World ext
      → Type 0
  AllAnswered (responses, a, w) (responses', b, w') =
      (responses ≡ responses') × IsAlike a b × (w ≡ w')

  serve_requests-Alike :
      (context : RouterContext) (reqs : List (Request ext)) (a b : GatewayRuntime) (w : World ext)
      → IsAlike a b
      → Alike AllAnswered
          (serve_requests ext context reqs a w)
          (serve_requests ext context reqs b w)
  unfolding serve_requests
  serve_requests-Alike context [] a b w like = (refl, like, refl)
  serve_requests-Alike context (req ∷ reqs) a b w like =
      >>=-Alike (Answered ext) AllAnswered _ _ _ _
        (handle_client-Alike ext context.ip_addr context.listener a b req w like)
        (λ p q (same, like', at).
          rw (same, at)
            (>>=-Alike AllAnswered AllAnswered _ _ _ _
              (serve_requests-Alike context reqs p.1 q.1 q.2 like')
              (λ s t (later, like'', at'). (ap (λ rs. q.0 ∷ rs) later, like'', at'))))

module _ (cfg : GatewayConfig) (services : Map HttpServiceConfig)
    (middlewares : Map MiddlewareConfig) (fits : Fits cfg)
    (fits' : Fits (reordered cfg services middlewares))
    (again : IsReordered cfg.http.services services)
    (again' : IsReordered cfg.http.middlewares middlewares) where
  new-Alike : Alike IsAlike (Runtime.new cfg) (Runtime.new (reordered cfg services middlewares))
  unfolding Runtime.new Service.init Router.new
  new-Alike =
      let (http, e, _) = init_services-Serves http_upstreams cfg.http.services fits.http in
      let (tcp, e', _) = init_services-Serves tcp_upstreams cfg.tcp.services fits.tcp in
      let (http', e'', _) = init_services-Serves http_upstreams services fits'.http in
      rw (e, e', e'')
        (record {
          routes = refl;
          services = λ name.
              init_services-made http_upstreams cfg.http.services http e name
              ∙ ap (made http_upstreams) (again.same name)
              ∙ sym (init_services-made http_upstreams services http' e'' name);
          middlewares = again'.same;
        })

  -- Where the services and the middlewares of a configuration come out of their maps in two
  -- orders, no key twice and the same value at each key, and both readings fit a balancer, the
  -- gateways made from them do the same with the requests of a connection: both panic, or both
  -- give the same answers, leave the same log, buckets and requests sent, and leave gateways
  -- with the same routes and the same service and middleware under each name.
  pub new-serve_http_connection :
      (ext : Crates) (addr : SocketAddr) (listener : Str) (reqs : List (Request ext))
      (w : World ext)
      → Alike
          (AllAnswered ext)
          (Runtime.new cfg >>= λ rt. serve_http_connection ext addr listener reqs rt w)
          (Runtime.new (reordered cfg services middlewares) >>= λ rt.
            serve_http_connection ext addr listener reqs rt w)
  unfolding serve_http_connection
  new-serve_http_connection ext addr listener reqs w =
      >>=-Alike IsAlike (AllAnswered ext) _ _ _ _ new-Alike (λ a b like.
        serve_requests-Alike ext (record { ip_addr = addr_ip addr; listener = listener }) reqs a b w
          like)
