-- ===== src/Server/Order.antt =====
-- `handle_client` (src/server/http.rs) and the order of the `HashMap`s behind it: those of the services
-- in src/service.rs and of the middlewares in src/config.rs.
use portiq.Base.{
  ◌≡◌, refl, ap, ok_or, Result-cases, sym, ◌∙◌, inl, inr, List, [], ◌∷◌, Option, Str, Map, get,
  insert, get-insert, Exec, returned, panicked, ◌>>=◌, Option-cases, Result,
}
use portiq.Config.{IpAddr, MiddlewareConfig, Upstream}
use portiq.LoadBalancer.{select}
use portiq.Service.{Service, ServiceRegistry, endpoint, get_http_service_endpoint}
use portiq.Router.{
  Router, RouterError, status_code, not_found, no_upstream, get_http_route, get_http_upstream,
}
use portiq.Runtime.{GatewayRuntime}
use portiq.Middleware.Extern.{Crates}
use portiq.Middleware.{Request, Response, World, run}
use portiq.Middleware.Registry.{init, create_chain}
use portiq.Server.{
  handle_client, route_middlewares, original_host, send_upstream, response_with_status,
}

-- Both calls panic, or both return, with what is related.
abbrev pub Alike : {A : Type 0} → (A → A → Type 0) → Exec A → Exec A → Type 0
Alike R panicked panicked = Unit
Alike R panicked (returned b) = ⊥
Alike R (returned a) panicked = ⊥
Alike R (returned a) (returned b) = R a b

pub >>=-Alike :
    {A B : Type 0} (R : A → A → Type 0) (S : B → B → Type 0) (m m' : Exec A) (f f' : A → Exec B)
    → Alike R m m'
    → ((a b : A) → R a b → Alike S (f a) (f' b))
    → Alike S (m >>= f) (m' >>= f')
>>=-Alike R S panicked panicked f f' same next = tt
>>=-Alike R S panicked (returned b) f f' same next = absurd same
>>=-Alike R S (returned a) panicked f f' same next = absurd same
>>=-Alike R S (returned a) (returned b) f f' same next = next a b same

>>=-Alike_each :
    {A B : Type 0} (S : B → B → Type 0) (m : Exec A) (f f' : A → Exec B)
    → ((a : A) → Alike S (f a) (f' a))
    → Alike S (m >>= f) (m >>= f')
>>=-Alike_each S panicked f f' next = tt
>>=-Alike_each S (returned a) f f' next = next a

-- The same value at each key.
abbrev pub SameMap : {V : Type 0} → Map V → Map V → Type 0
SameMap m m' = (k : Str) → get k m ≡ get k m'

insert-SameMap :
    {V : Type 0} (key : Str) (new : V) (m m' : Map V)
    → SameMap m m'
    → SameMap (insert key new m) (insert key new m')
insert-SameMap key new m m' same k =
    rw (get-insert key k new m, get-insert key k new m', same k) refl

abbrev Found : {A : Type 0} → Option Upstream × Map A → Option Upstream × Map A → Type 0
Found p q = (p.0 ≡ q.0) × SameMap p.1 q.1

endpoint-Alike :
    (name : Str) (s s' : Map Service)
    → SameMap s s'
    → Alike Found (endpoint name s) (endpoint name s')
unfolding endpoint
endpoint-Alike name s s' same = elim (Option-cases (get name s)) [
  | inl e ↦ rw (endpoint, e, sym (same name) ∙ e) (refl, same)
  | inr (svc, e) ↦
      rw (endpoint, e, sym (same name) ∙ e)
        (>>=-Alike_each Found (select svc.lb) _ _
          (λ (upstream, lb'). (refl, insert-SameMap name (record { lb = lb' }) s s' same)))
]

-- Gateways that differ in the order of entries only: one table of routes, and the same service and the
-- same middleware under each name.
pub record IsAlike (a b : GatewayRuntime) : Type 0 where
  pub routes : a.router.http ≡ b.router.http
  pub services : SameMap a.router.service_registry.http b.router.service_registry.http
  pub middlewares : SameMap a.applied_config.http.middlewares b.applied_config.http.middlewares

route_middlewares-SameMap :
    (m m' : Map MiddlewareConfig) (names : List Str)
    → SameMap m m'
    → route_middlewares m names ≡ route_middlewares m' names
unfolding route_middlewares
route_middlewares-SameMap m m' [] same = refl
route_middlewares-SameMap m m' (name ∷ names) same =
    let later = route_middlewares-SameMap m m' names same in
    elim (Option-cases (get name m')) [
      | inl e ↦ rw (route_middlewares, same name, e) later
      | inr (config, e) ↦ rw (route_middlewares, same name, e) (ap (λ ms. config ∷ ms) later)
    ]

get_http_route-IsAlike :
    (a b : GatewayRuntime) (host path listener : Str)
    → IsAlike a b
    → get_http_route a.router host path listener ≡ get_http_route b.router host path listener
unfolding get_http_route
get_http_route-IsAlike a b host path listener like = rw like.routes refl

abbrev Upstreamed :
    Result Upstream RouterError × Router → Result Upstream RouterError × Router → Type 0
Upstreamed p q =
    (p.0 ≡ q.0)
    × (p.1.http ≡ q.1.http)
    × SameMap p.1.service_registry.http q.1.service_registry.http

abbrev Looked : Option Upstream × ServiceRegistry → Option Upstream × ServiceRegistry → Type 0
Looked p q = (p.0 ≡ q.0) × SameMap p.1.http q.1.http

get_http_upstream-Alike :
    (a b : GatewayRuntime) (name : Str)
    → IsAlike a b
    → Alike Upstreamed (get_http_upstream a.router name) (get_http_upstream b.router name)
unfolding get_http_upstream get_http_service_endpoint
get_http_upstream-Alike a b name like =
    >>=-Alike Looked Upstreamed _ _ _ _
      (>>=-Alike Found Looked _ _ _ _
        (endpoint-Alike name a.router.service_registry.http b.router.service_registry.http
          like.services)
        (λ p q same. same))
      (λ p q (same, services). (ap (λ o. ok_or o no_upstream) same, like.routes, services))

module _ (ext : Crates) where
  abbrev pub Answered :
      Response ext × GatewayRuntime × World ext → Response ext × GatewayRuntime × World ext → Type 0
  Answered (response, a, w) (response', b, w') = (response ≡ response') × IsAlike a b × (w ≡ w')

  -- What is answered does not depend on the gateway that it leaves.
  run-Alike :
      (call : Exec (Response ext × World ext)) (a b : GatewayRuntime)
      → IsAlike a b
      → Alike Answered
          (call >>= λ out. returned (out.0, a, out.1))
          (call >>= λ out. returned (out.0, b, out.1))
  run-Alike panicked a b like = tt
  run-Alike (returned out) a b like = (refl, like, refl)

  response_with_status-Alike :
      (call : Exec (Response ext)) (a b : GatewayRuntime) (w : World ext)
      → IsAlike a b
      → Alike Answered (call >>= λ r. returned (r, a, w)) (call >>= λ r. returned (r, b, w))
  response_with_status-Alike panicked a b w like = tt
  response_with_status-Alike (returned r) a b w like = (refl, like, refl)

  create_chain-Alike :
      {A : Type 0} (call : Exec A) (next : A → Exec (Response ext × World ext))
      (a b : GatewayRuntime)
      → IsAlike a b
      → Alike Answered
          (call >>= λ c. next c >>= λ out. returned (out.0, a, out.1))
          (call >>= λ c. next c >>= λ out. returned (out.0, b, out.1))
  create_chain-Alike panicked next a b like = tt
  create_chain-Alike (returned c) next a b like = run-Alike (next c) a b like

  pub handle_client-Alike :
      (ip_addr : IpAddr) (listener : Str) (a b : GatewayRuntime) (req : Request ext) (w : World ext)
      → IsAlike a b
      → Alike Answered
          (handle_client ext ip_addr listener a req w)
          (handle_client ext ip_addr listener b req w)
  unfolding handle_client
  handle_client-Alike ip_addr listener a b req w like =
      >>=-Alike_each Answered (original_host ext req) _ _ (λ host.
        rw (get_http_route-IsAlike a b host (ext.path req.uri) listener like)
          (elim (Result-cases (get_http_route b.router host (ext.path req.uri) listener)) [
            | inl (not_found, e) ↦ rw e (
                response_with_status-Alike (response_with_status ext (status_code not_found)) a b w
                  like)
            | inl (no_upstream, e) ↦ rw e tt
            | inr (route, e) ↦ rw e (
                >>=-Alike Upstreamed Answered _ _ _ _
                  (get_http_upstream-Alike a b route.service like)
                  (λ p q (same, routes, services).
                    let a' = record a { router = p.1 } in
                    let b' = record b { router = q.1 } in
                    let like' : IsAlike a' b' = record {
                      routes = routes;
                      services = services;
                      middlewares = like.middlewares;
                    } in
                    rw same (elim (Result-cases q.0) [
                      | inl (_, e') ↦
                          rw e' (
                            response_with_status-Alike (response_with_status ext 503) a' b' w like')
                      | inr (upstream, e') ↦
                          let chain = create_chain ext init (
                            route_middlewares b.applied_config.http.middlewares
                              route.middlewares) in
                          rw
                            (
                              e',
                              route_middlewares-SameMap a.applied_config.http.middlewares
                                  b.applied_config.http.middlewares route.middlewares
                                  like.middlewares,
                            )
                            (create_chain-Alike chain
                              (λ middlewares.
                                run ext (send_upstream ext upstream.target ip_addr) middlewares req
                                  w)
                              a' b' like')
                    ])))
          ]))
