-- ===== src/Server/Logged.antt =====
-- The access log of the server (src/server/http.rs, src/middleware/access_logger.rs): which requests
-- are in it.
use portiq.Base.{◌≡◌, ◌⊎◌, inl, inr, Str, returned}
use portiq.Config.{IpAddr}
use portiq.Runtime.{GatewayRuntime}
use portiq.Middleware.Extern.{Crates, IsHyper}
use portiq.Middleware.{Request, Response, World}
use portiq.Middleware.Logged.{IsLogged, run_created-IsLogged}
use portiq.Server.{route_middlewares, send_upstream, handle_client}
use portiq.Server.Handled.{unrouted, unavailable, chained, handle_client-Handled}
use portiq.Server.Upstreams.{send_upstream-IsSilent}
use portiq.Server.Served.{response_with_status-status}

-- If http behaves as documented, every answered request adds one entry, of this request and its
-- answer, to the access log, unless the answer is the router's own, 404 or 503, and then it changes
-- nothing.
pub handle_client-IsLogged :
    (ext : Crates) (laws : IsHyper ext) (ip_addr : IpAddr) (listener : Str) (rt : GatewayRuntime)
    (req : Request ext) (w : World ext) {r : Response ext} {rt' : GatewayRuntime} {w' : World ext}
    → handle_client ext ip_addr listener rt req w ≡ returned (r, rt', w')
    → IsLogged ext laws req w r w' ⊎ ((w' ≡ w) × ((r.status ≡ 404) ⊎ (r.status ≡ 503)))
handle_client-IsLogged ext laws ip_addr listener rt req w h =
    let (host, _, handled) = handle_client-Handled ext ip_addr listener rt req w h in
    elim handled [
      | unrouted _ made _ same ↦ inr (same, inl (response_with_status-status ext 404 made))
      | unavailable _ _ _ _ _ made _ same ↦
          inr (same, inr (response_with_status-status ext 503 made))
      | chained route upstream _ chain _ _ created answered _ ↦ inl (
          run_created-IsLogged ext laws (send_upstream ext upstream.target ip_addr)
            (route_middlewares rt.applied_config.http.middlewares route.middlewares) chain req w
            (send_upstream-IsSilent ext upstream.target ip_addr) created answered)
    ]
