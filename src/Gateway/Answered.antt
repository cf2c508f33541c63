-- ===== src/Gateway/Answered.antt =====
-- A connection over http or https (src/server/http.rs) whose requests can all be read.
use portiq.Base.{
  inl, inr, ◌≡◌, refl, sym, subst, List, [], ◌∷◌, Option, Str, returned, ok, length, All,
}
use portiq.Config.{SocketAddr, addr_ip}
use portiq.Config.Valid.{IsValidConfig}
use portiq.Runtime.{GatewayRuntime}
use portiq.Runtime.Consistent.{IsConsistent}
use portiq.Middleware.Extern.{Crates, IsHyper}
use portiq.Middleware.{Request, Response, World}
use portiq.Server.{original_host}
use portiq.Server.Total.{IsReadable}
use portiq.Server.Chained.{IsUri}
use portiq.Server.Answered.{AllWorking, Arrives, handle_client_total}
use portiq.Server.Accept.{RouterContext, serve_requests, serve_http_connection, handle_https}
use portiq.Gateway.{Reach}
use portiq.Gateway.Connections.{state, handle_https-Reach}

module _ (ext : Crates) where
  -- The request can be read, its host included.
  pub record IsServable (req : Request ext) : Type 0 where
    pub readable : IsReadable ext req
    pub host : (host : Str) × (original_host ext req ≡ returned host)

  -- What a runtime needs to answer such requests.
  pub record IsServing (rt : GatewayRuntime) : Type 0 where
    pub valid : IsValidConfig rt.applied_config
    pub consistent : IsConsistent rt.applied_config rt.router
    pub working : AllWorking ext rt.applied_config

  module _ (laws : IsHyper ext) (uris : IsUri ext) (arrives : Arrives ext) where
    serve_requests_total :
        (context : RouterContext) (reqs : List (Request ext)) (rt : GatewayRuntime) (w : World ext)
        → IsServing rt
        → All IsServable reqs
        → (responses : List (Response ext)) × (rt' : GatewayRuntime) × (w' : World ext)
          × (serve_requests ext context reqs rt w ≡ returned (responses, rt', w'))
          × IsServing rt'
    unfolding serve_requests
    serve_requests_total context [] rt w s readable = ([], rt, w, refl, s)
    serve_requests_total context (req ∷ reqs) rt w s readable =
        let (r, rt₁, w₁, e, same, kept, _) =
          handle_client_total ext laws uris arrives context.ip_addr context.listener rt req w
            readable.0.host.0 s.valid s.consistent s.working readable.0.host.1
            readable.0.readable in
        let serving : IsServing rt₁ = record {
          valid = subst IsValidConfig (sym same) s.valid;
          consistent = subst (λ cfg. IsConsistent cfg rt₁.router) (sym same) kept;
          working = subst (AllWorking ext) (sym same) s.working;
        } in
        let (rs, rt₂, w₂, e', serving') =
          serve_requests_total context reqs rt₁ w₁ serving readable.1 in
        (r ∷ rs, rt₂, w₂, rw (e, e') refl, serving')

    -- If http and its URIs behave as documented and the bodies of upstreams arrive, a gateway with a
    -- valid configuration whose middlewares work, and a router built from it, answers every request of
    -- a connection on which the handshake succeeds and all requests can be read; it moves by its steps
    -- and is such a gateway then.
    pub handle_https_total :
        (path : Option Str) (client_addr : SocketAddr) (listener : Str) (reqs : List (Request ext))
        (rt : GatewayRuntime) (w : World ext)
        → IsServing rt
        → All IsServable reqs
        → (responses : List (Response ext)) × (rt' : GatewayRuntime) × (w' : World ext)
          × (handle_https ext (ok tt) client_addr listener reqs rt w
              ≡ returned (responses, rt', w'))
          × (length responses ≡ length reqs)
          × IsServing rt'
          × Reach ext path (state ext rt w) (state ext rt' w')
    unfolding handle_https serve_http_connection
    handle_https_total path client_addr listener reqs rt w s readable =
        let (rs, rt', w', e, serving) =
          serve_requests_total (record { ip_addr = addr_ip client_addr; listener = listener }) reqs
            rt w s readable in
        let (ended, reach) =
          handle_https-Reach ext path (ok tt) client_addr listener reqs rt w rs rt' w' e in
        (
          rs,
          rt',
          w',
          e,
          elim ended [ inl (_, counted) ↦ counted | inr (x, never, _) ↦ cc ],
          serving,
          reach,
        )
