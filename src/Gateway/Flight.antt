-- ===== src/Gateway/Flight.antt =====
-- Requests that overlap: `handle_client` (src/server/http.rs) as the lookup on the runtime that it loads,
-- and then the steps of its chain of middlewares; in between anything may happen.
use portiq.Base.{
  ℕ, Bool, List, [], ◌∷◌, ◌++◌, Option, none, some, Str, Exec, returned, panicked, ◌>>=◌, ok, err,
  Result, ◌≡◌,
}
use portiq.Config.{IpAddr, Upstream, GatewayConfig}
use portiq.Router.{not_found, no_upstream, status_code, get_http_route, get_http_upstream}
use portiq.Runtime.{GatewayRuntime}
use portiq.Reload.{prepare_reload, store_reload}
use portiq.Reload.Steps.{ReadsFit}
use portiq.Middleware.Extern.{Crates}
use portiq.Middleware.{Request, Response, World}
use portiq.Middleware.Stages.{Stage, entering, leaving, Call, step}
use portiq.Middleware.Registry.{init, create_chain}
use portiq.Server.{original_host, route_middlewares, response_with_status, send_upstream}
use portiq.Server.Tcp.{Network, Copied, handle_tcp_client}

module _ (ext : Crates) where
  -- A request after its lookup: answered by the router, or on its way to an upstream.
  pub data Pending : Type 0 where
    replied : Response ext → Pending
    queued : IpAddr → Upstream → Call ext → Pending

  -- Up to the creation of the chain.
  unfoldable pub begin_request :
      IpAddr → Str → GatewayRuntime → Request ext → Exec (Pending × GatewayRuntime)
  begin_request ip_addr listener gateway_state req = do
    host ← original_host ext req
    elim (get_http_route gateway_state.router host (ext.path req.uri) listener) [
      | ok route ↦ do
        (found, router) ← get_http_upstream gateway_state.router route.service
        let state' = record gateway_state { router = router }
        elim found [
          | ok upstream ↦ do
            let configs = gateway_state.applied_config.http.middlewares
            chain ← create_chain ext init (route_middlewares configs route.middlewares)
            returned (
              queued ip_addr upstream (record { stage = entering chain req; loggers = [] }),
              state',
            )
          | err _ ↦ do response ← response_with_status ext 503; returned (replied response, state')
        ]
      | err not_found ↦ do
        response ← response_with_status ext (status_code not_found)
        returned (replied response, gateway_state)
      | err no_upstream ↦ panicked
    ]

  -- One step of `next.run(request).await`.
  unfoldable pub step_pending : Pending → World ext → Exec (Pending × World ext)
  step_pending (replied response) w = returned (replied response, w)
  step_pending (queued ip_addr upstream c) w = do
    (c', w') ← step ext (send_upstream ext upstream.target ip_addr) c w
    returned (queued ip_addr upstream c', w')

  abbrev pub answer_from : Stage ext → List (Request ext × ℕ) → Option (Response ext)
  answer_from (leaving response) [] = some response
  answer_from stage loggers = none

  -- The answer of a request that is done.
  abbrev pub answer_of : Pending → Option (Response ext)
  answer_of (replied response) = some response
  answer_of (queued ip_addr upstream c) = answer_from c.stage c.loggers

  pub record Flight : Type 0 where
    pub runtime : GatewayRuntime
    pub world : World ext
    pub pending : List Pending
    pub answered : List Pending
    pub prepared : List GatewayRuntime

  -- A request is looked up; any of the pending goes on by a step; any that is done leaves with its
  -- answer; a TCP connection; a reload that does not fail is prepared by the state at the time; any of
  -- the prepared is stored.
  pub data FlightStep (path : Option Str) (s : Flight) (t : Flight) : Type 1 where
    begins :
        (ip_addr : IpAddr) (listener : Str) (req : Request ext) (p : Pending)
        → begin_request ip_addr listener s.runtime req ≡ returned (p, t.runtime)
        → t.world ≡ s.world
        → t.pending ≡ s.pending ++ p ∷ []
        → t.answered ≡ s.answered
        → t.prepared ≡ s.prepared
        → FlightStep path s t
    moves :
        (before : List Pending) (p p' : Pending) (after : List Pending)
        → s.pending ≡ before ++ p ∷ after
        → step_pending p s.world ≡ returned (p', t.world)
        → t.runtime ≡ s.runtime
        → t.pending ≡ before ++ p' ∷ after
        → t.answered ≡ s.answered
        → t.prepared ≡ s.prepared
        → FlightStep path s t
    leaves :
        (before : List Pending) (p : Pending) (after : List Pending) (r : Response ext)
        → s.pending ≡ before ++ p ∷ after
        → answer_of p ≡ some r
        → t.runtime ≡ s.runtime
        → t.world ≡ s.world
        → t.pending ≡ before ++ after
        → t.answered ≡ s.answered ++ p ∷ []
        → t.prepared ≡ s.prepared
        → FlightStep path s t
    proxies :
        (network : Network) (listener : Str) (tls_acceptor : Bool)
        (result : Result (Unit {0}) Str × Copied network)
        → handle_tcp_client network listener tls_acceptor s.runtime ≡ returned (result, t.runtime)
        → t.world ≡ s.world
        → t.pending ≡ s.pending
        → t.answered ≡ s.answered
        → t.prepared ≡ s.prepared
        → FlightStep path s t
    prepares :
        (read : Str → Result GatewayConfig Str) (new_runtime : GatewayRuntime)
        → ReadsFit read
        → prepare_reload path read s.runtime ≡ returned (ok new_runtime)
        → t.runtime ≡ s.runtime
        → t.world ≡ s.world
        → t.pending ≡ s.pending
        → t.answered ≡ s.answered
        → t.prepared ≡ s.prepared ++ new_runtime ∷ []
        → FlightStep path s t
    stores :
        (before : List GatewayRuntime) (new_runtime : GatewayRuntime) (after : List GatewayRuntime)
        → s.prepared ≡ before ++ new_runtime ∷ after
        → t.runtime ≡ (store_reload (ok new_runtime) s.runtime).1
        → t.world ≡ s.world
        → t.pending ≡ s.pending
        → t.answered ≡ s.answered
        → t.prepared ≡ before ++ after
        → FlightStep path s t

  pub data Flies (path : Option Str) (start : Flight) : Flight → Type 1 where
    took_off : Flies path start start
    then_flies : {s t : Flight} → Flies path start s → FlightStep path s t → Flies path start t
