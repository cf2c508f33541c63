-- ===== src/Gateway/Connections.antt =====
-- The connections of the server (src/server/http.rs) as steps of the gateway.
use portiq.Base.{
  suc, ◌≡◌, ◌⊎◌, inl, inr, refl, sym, ap, ◌∙◌, subst, List, [], ◌∷◌, Option, Str, returned, Result,
  ok, err, >>=-returned_inv, returned-injective, length,
}
use portiq.Config.{SocketAddr, addr_ip}
use portiq.Runtime.{GatewayRuntime}
use portiq.Middleware.Extern.{Crates}
use portiq.Middleware.{Request, Response, World}
use portiq.Server.{handle_client}
use portiq.Server.Accept.{RouterContext, serve_requests, serve_http_connection, handle_https}
use portiq.Gateway.{State, Step, serves, Reach, started, then_step}

module _ (ext : Crates) where
  Reach-trans :
      {path : Option Str} {a b c : State ext}
      → Reach ext path a b
      → Reach ext path b c
      → Reach ext path a c
  Reach-trans r started = r
  Reach-trans r (then_step reach step) = then_step (Reach-trans r reach) step

  -- The state with that runtime and world.
  abbrev pub state : GatewayRuntime → World ext → State ext
  state rt w = record { runtime = rt; world = w }

  serve_requests-Reach :
      (path : Option Str) (context : RouterContext) (reqs : List (Request ext))
      (rt : GatewayRuntime) (w : World ext) (responses : List (Response ext)) (rt' : GatewayRuntime)
      (w' : World ext)
      → serve_requests ext context reqs rt w ≡ returned (responses, rt', w')
      → (length responses ≡ length reqs) × Reach ext path (state rt w) (state rt' w')
  unfolding serve_requests
  serve_requests-Reach path context [] rt w responses rt' w' h =
      let same = returned-injective h in
      (
        sym (ap (λ p. length p.0) same),
        subst (λ p. Reach ext path (state rt w) (state p.1 p.2)) same started,
      )
  serve_requests-Reach path context (req ∷ reqs) rt w responses rt' w' h =
      let ((r, rt₁, w₁), h₁, first) =
        >>=-returned_inv (handle_client ext context.ip_addr context.listener rt req w) _ h in
      let ((rs, rt₂, w₂), h₂, rest) =
        >>=-returned_inv (serve_requests ext context reqs rt₁ w₁) _ h₁ in
      let same = returned-injective h₂ in
      let (counted, reach) = serve_requests-Reach path context reqs rt₁ w₁ rs rt₂ w₂ rest in
      let step : Step ext path (state rt w) (state rt₁ w₁) =
        serves context.ip_addr context.listener req r first in
      (
        sym (ap (λ p. length p.0) same) ∙ ap suc counted,
        subst (λ p. Reach ext path (state rt w) (state p.1 p.2)) same
            (Reach-trans (then_step started step) reach),
      )

  -- A connection over http or https that ends without a panic is a sequence of steps of the gateway,
  -- and has answered every request, or none where the handshake failed.
  pub handle_https-Reach :
      (path : Option Str) (handshake : Result (Unit {0}) Str) (client_addr : SocketAddr)
      (listener : Str) (reqs : List (Request ext)) (rt : GatewayRuntime) (w : World ext)
      (responses : List (Response ext)) (rt' : GatewayRuntime) (w' : World ext)
      → handle_https ext handshake client_addr listener reqs rt w ≡ returned (responses, rt', w')
      → ((handshake ≡ ok tt) × (length responses ≡ length reqs)
          ⊎ ((e : Str) × (handshake ≡ err e) × (responses ≡ [])))
        × Reach ext path (state rt w) (state rt' w')
  unfolding handle_https serve_http_connection
  handle_https-Reach path (err e) client_addr listener reqs rt w responses rt' w' h =
      let same = returned-injective h in
      (
        inr (e, refl, sym (ap (λ p. p.0) same)),
        subst (λ p. Reach ext path (state rt w) (state p.1 p.2)) same started,
      )
  handle_https-Reach path (ok _) client_addr listener reqs rt w responses rt' w' h =
      let (counted, reach) =
        serve_requests-Reach path (record { ip_addr = addr_ip client_addr; listener = listener })
          reqs rt w responses rt' w' h in
      (inl (refl, counted), reach)
