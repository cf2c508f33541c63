-- ===== src/Server/Answered.antt =====
-- Every request that can be read is answered by `handle_client` (src/server/http.rs).
use portiq.Base.{
  returned-injective, arith, subst, Map, All-map, All-imp, All-refutes, ◌>>=◌, ◌≡◌, inl, inr, refl,
  sym, ◌∙◌, List, [], ◌∷◌, Option, some, Str, text, get, returned, All, Option-cases, Result-cases,
}
use portiq.Config.{IpAddr, GatewayConfig, MiddlewareConfig}
use portiq.Config.Valid.{IsValidConfig}
use portiq.Router.{status_code}
use portiq.Router.Route.{get_http_route-IsBest}
use portiq.Runtime.{GatewayRuntime}
use portiq.Runtime.Consistent.{IsConsistent, get_http_upstream-Served}
use portiq.Middleware.Extern.{Crates, Outgoing, IsHyper}
use portiq.Middleware.{Request, Response, World, Middleware}
use portiq.Middleware.Registry.{Starts, middleware_of, init, create_chain}
use portiq.Middleware.Chain.{create_chain-cases}
use portiq.Server.{
  response_with_status, original_host, route_middlewares, send_upstream, handle_client,
}
use portiq.Server.Total.{IsReadable, send_upstream_total}
use portiq.Server.Chained.{IsUri, Works, Serves, run-Serves}
use portiq.Server.Served.{Outcome, handle_client-Outcome}

module _ (ext : Crates) where
  -- A rate limit allows something in some time; a prefix makes paths.
  pub record IsWorking (config : MiddlewareConfig) : Type 0 where
    pub starts : Starts ext config
    pub works : Works ext (middleware_of ext config)

  -- All middlewares of the configuration are such.
  abbrev pub AllWorking : GatewayConfig → Type 0
  AllWorking cfg =
      (name : Str) (config : MiddlewareConfig)
      → get name cfg.http.middlewares ≡ some config
      → IsWorking config

  -- The bodies of upstreams arrive.
  abbrev pub Arrives : Type 0
  Arrives =
      (before : List Outgoing) (request : Outgoing) (status : _) (headers : _) (body : Option Str)
      → ext.send before request ≡ some (status, headers, body)
      → (b : Str) × (body ≡ some b)

  pub route_middlewares-All :
      (P : MiddlewareConfig → Type 0) (configs : Map MiddlewareConfig)
      → ((name : Str) (config : MiddlewareConfig) → get name configs ≡ some config → P config)
      → (names : List Str) → All P (route_middlewares configs names)
  unfolding route_middlewares
  route_middlewares-All P configs h [] = tt
  route_middlewares-All P configs h (name ∷ names) = elim (Option-cases (get name configs)) [
    | inl e ↦
        let same : route_middlewares configs (name ∷ names) ≡ route_middlewares configs names =
          rw (route_middlewares, e) refl in
        subst (All P) (sym same) (route_middlewares-All P configs h names)
    | inr (config, e) ↦
        let same : route_middlewares configs (name ∷ names)
            ≡ config ∷ route_middlewares configs names =
          rw (route_middlewares, e) refl in
        subst (All P) (sym same) (h name config e, route_middlewares-All P configs h names)
  ]

  -- The chain of a route is made, and works.
  chain_of :
      (cfg : GatewayConfig) (names : List Str)
      → AllWorking cfg
      → (chain : List (Middleware ext)) × (create_chain ext init
            (route_middlewares cfg.http.middlewares names)
          ≡ returned chain)
        × All (Works ext) chain
  chain_of cfg names working =
      let configs = route_middlewares cfg.http.middlewares names in
      let fine = route_middlewares-All IsWorking cfg.http.middlewares working names in
      elim (create_chain-cases ext configs) [
        | inl (_, created) ↦ (
          _,
          created,
          (
            tt,
            (
              tt,
              All-map (Works ext) (middleware_of ext) configs (
                  All-imp IsWorking (λ c. Works ext (middleware_of ext c)) (λ c i. i.works) configs
                    fine),
            ),
          ),
        )
        | inr (bad, _) ↦ absurd (
            All-refutes (Starts ext) configs
              (All-imp IsWorking (Starts ext) (λ c i. i.starts) configs fine) bad)
      ]

  module _ (laws : IsHyper ext) (uris : IsUri ext) (arrives : Arrives) where
    pub send_upstream-Serves :
        (url : Str) (client_ip : IpAddr) → Serves ext (send_upstream ext url client_ip)
    send_upstream-Serves url client_ip req w h =
        let (r, w', _, e, _, _, _) =
          send_upstream_total ext url client_ip req w laws h (arrives w.sent) in
        (r, w', e)

    response_with_status_total :
        (status : _) → (r : Response ext) × (response_with_status ext status ≡ returned r)
    unfolding response_with_status
    response_with_status_total status =
        let (v, e) = laws.from_str-visible (text "portiq") (omega arith) in
        (record { status = status; headers = (text "Server", v) ∷ []; body = [] }, rw e refl)

    handle_client_returns :
        (ip_addr : IpAddr) (listener : Str) (rt : GatewayRuntime) (req : Request ext)
        (w : World ext) (host : Str)
        → IsConsistent rt.applied_config rt.router
        → AllWorking rt.applied_config
        → original_host ext req ≡ returned host
        → IsReadable ext req
        → (r : Response ext) × (rt' : GatewayRuntime) × (w' : World ext) × (handle_client ext
              ip_addr listener rt req w
            ≡ returned (r, rt', w'))
    unfolding handle_client status_code
    handle_client_returns ip_addr listener rt req w host consistent working hosted h =
        elim (get_http_route-IsBest rt.router host (ext.path req.uri) listener) [
          | inl (e, _) ↦
              let (r, made) = response_with_status_total 404 in
              (r, rt, w, rw (hosted, ◌>>=◌, e, made) refl)
          | inr (route, e, _) ↦
              let (found, router', at, _) =
                get_http_upstream-Served rt.applied_config rt.router route.service consistent in
              elim (Result-cases found) [
                | inl (_, none_left) ↦
                    let (r, made) = response_with_status_total 503 in
                    (
                      r,
                      record rt { router = router' },
                      w,
                      rw (hosted, ◌>>=◌, e, at, none_left, made) refl,
                    )
                | inr (upstream, chosen) ↦
                    let configs =
                      route_middlewares rt.applied_config.http.middlewares route.middlewares in
                    let (chain, created, works) =
                      chain_of rt.applied_config route.middlewares working in
                    let (r, w', answered) =
                      run-Serves ext laws uris (send_upstream ext upstream.target ip_addr)
                        (send_upstream-Serves upstream.target ip_addr) chain works req w h in
                    (
                      r,
                      record rt { router = router' },
                      w',
                      rw (hosted, ◌>>=◌, e, at, chosen, created, answered) refl,
                    )
              ]
        ]

    -- If http and its URIs behave as documented, the bodies of upstreams arrive, the configuration is
    -- valid with middlewares that work, and the router is built from it, then every request that can
    -- be read, its host included, is answered, in one of the four ways, and leaves such a router.
    pub handle_client_total :
        (ip_addr : IpAddr) (listener : Str) (rt : GatewayRuntime) (req : Request ext)
        (w : World ext) (host : Str)
        → IsValidConfig rt.applied_config
        → IsConsistent rt.applied_config rt.router
        → AllWorking rt.applied_config
        → original_host ext req ≡ returned host
        → IsReadable ext req
        → (r : Response ext) × (rt' : GatewayRuntime) × (w' : World ext) × (handle_client ext
              ip_addr listener rt req w
            ≡ returned (r, rt', w'))
          × (rt'.applied_config ≡ rt.applied_config)
          × IsConsistent rt.applied_config rt'.router
          × Outcome ext rt.applied_config rt.router ip_addr host listener req w r w'
    handle_client_total ip_addr listener rt req w host valid consistent working hosted h =
        let (r, rt', w', answers) =
          handle_client_returns ip_addr listener rt req w host consistent working hosted h in
        let (same, kept, (host', hosted', outcome)) =
          handle_client-Outcome ext ip_addr listener rt req w valid consistent answers in
        (
          r,
          rt',
          w',
          answers,
          same,
          kept,
          subst (λ x. Outcome ext rt.applied_config rt.router ip_addr x listener req w r w')
              (returned-injective (sym hosted' ∙ hosted)) outcome,
        )
