-- ===== src/Gateway/Sound.antt =====
-- What holds of the gateway in every state it reaches.
use portiq.Base.{
  ◌≡◌, sym, ap, subst, ◌∙◌, [], ◌∷◌, Option, Str, text, returned, panicked, Exec, Result, get,
  returned-state, returned-injective, >>=-returned_inv,
}
use portiq.Config.{GatewayConfig, IpAddr}
use portiq.Runtime.{GatewayRuntime}
use portiq.Reload
use portiq.Reload.{ApiResponse, reload_config, reload_config_from_file, reload_response}
use portiq.Reload.Steps.{IsRunning, moved-IsRunning, Step-IsRunning}
use portiq.RateLimiter.Ieee.{IsIeee}
use portiq.RateLimiter.Store.{AllInRange, allow-AllInRange}
use portiq.Middleware.Extern.{Crates}
use portiq.Middleware.{Request, Response, World}
use portiq.Middleware.Keeps.{IsKept, IsLogKept, Keeps, run-Keeps}
use portiq.Server.{send_upstream, outgoing, respond, handle_client}
use portiq.Server.Handled.{unrouted, unavailable, chained, handle_client-Handled}
use portiq.Server.Served.{handle_client-Outcome}
use portiq.Server.Proxied.{handle_tcp_client-Proxied}
use portiq.Server.Added.{IsRustls}
use portiq.Startup.{Environment, Started, main}
use portiq.Startup.Running.{CanStart, main-IsRunning}
use portiq.Gateway.{State, first_world, Step, serves, proxies, reloads, Reach, started, then_step}

reload_config-of_file :
    (path : Option Str) (read : Str → Result GatewayConfig Str) (rt : GatewayRuntime)
    {answer : ApiResponse (Unit {0})} {rt' : GatewayRuntime}
    → reload_config_from_file path read rt ≡ returned (answer, rt')
    → (r : Result (Unit {0}) Str) × (reload_config path read rt ≡ returned (r, rt'))
      × (answer ≡ reload_response r)
unfolding reload_config_from_file
reload_config-of_file path read rt {answer} {rt'} h = go (reload_config path read rt) h
  where
    go :
        (m : Exec (Result (Unit {0}) Str × GatewayRuntime))
        → Path
            (Exec (ApiResponse (Unit {0}) × GatewayRuntime))
            (elim m [
              | returned (r, state') ↦ returned (reload_response r, state')
              | panicked ↦ panicked
            ])
            (returned (answer, rt'))
        → (r : Result (Unit {0}) Str) × Path
            (Exec (Result (Unit {0}) Str × GatewayRuntime))
            m
            (returned (r, rt'))
          × (answer ≡ reload_response r)
    go (returned (r, state')) e =
        let (same, same') = returned-state e in (r, ap (λ s. returned (r, s)) same', sym same)
    go panicked e = cc

module _ (ext : Crates) (ieee : IsIeee ext.float) where
  abbrev pub RangeKept : World ext → World ext → Type 0
  RangeKept w w' = AllInRange ext.float w.store → AllInRange ext.float w'.store

  pub RangeKept-IsKept : IsKept ext RangeKept
  RangeKept-IsKept = record {
    trans = λ a b c p q r. q (p r);
    draws = λ w r. r;
    counts = λ w limiter key created now r.
        allow-AllInRange ext.float ieee limiter w.store key created now r;
  }

  pub RangeKept-IsLogKept : IsLogKept ext RangeKept
  RangeKept-IsLogKept = record { reads = λ w r. r; logs = λ w entries r. r }

  pub send_upstream-RangeKept :
      (url : Str) (client_ip : IpAddr) → Keeps ext RangeKept (send_upstream ext url client_ip)
  unfolding send_upstream
  send_upstream-RangeKept url client_ip req w r w' h =
      let (request, h₁, _) = >>=-returned_inv (outgoing ext url client_ip req) _ h in
      let (r₁, h₂, _) = >>=-returned_inv (respond ext (ext.send w.sent request)) _ h₁ in
      subst (RangeKept w) (returned-state h₂).1 (λ range. range)

  handle_client-RangeKept :
      (ip_addr : IpAddr) (listener : Str) (rt : GatewayRuntime) (req : Request ext) (w : World ext)
      {r : Response ext} {rt' : GatewayRuntime} {w' : World ext}
      → handle_client ext ip_addr listener rt req w ≡ returned (r, rt', w')
      → RangeKept w w'
  handle_client-RangeKept ip_addr listener rt req w {r} {rt'} {w'} h =
      let (host, _, handled) = handle_client-Handled ext ip_addr listener rt req w h in
      elim handled [
        | unrouted _ _ _ same ↦ subst (RangeKept w) (sym same) (λ range. range)
        | unavailable _ _ _ _ _ _ _ same ↦ subst (RangeKept w) (sym same) (λ range. range)
        | chained route upstream _ chain _ _ _ answered _ ↦
            run-Keeps ext RangeKept RangeKept-IsKept (send_upstream ext upstream.target ip_addr)
              (send_upstream-RangeKept upstream.target ip_addr) RangeKept-IsLogKept chain req w r w'
              answered
      ]

  -- The runtime is that of a valid configuration with the static part of the start, and no bucket
  -- holds less than nothing or more than its capacity.
  pub record IsSound (start : GatewayConfig) (s : State ext) : Type 0 where
    pub running : IsRunning start s.runtime
    pub range : AllInRange ext.float s.world.store

  pub Step-IsSound :
      {path : Option Str} (start : GatewayConfig) {s t : State ext}
      → Step ext path s t
      → IsSound start s
      → IsSound start t
  Step-IsSound start {s} {t} (serves ip_addr listener req r e) v =
      let (same, consistent, _) =
        handle_client-Outcome ext ip_addr listener s.runtime req s.world v.running.valid
          v.running.consistent e in
      record {
        running = moved-IsRunning start s.runtime t.runtime same consistent v.running;
        range = handle_client-RangeKept ip_addr listener s.runtime req s.world e v.range;
      }
  Step-IsSound start {s} {t} (proxies network listener tls_acceptor result e quiet) v =
      let (_, _, rt₁, e₁, same, consistent, _) =
        handle_tcp_client-Proxied network s.runtime.applied_config listener tls_acceptor s.runtime
          v.running.consistent in
      let moved = (returned-state (sym e₁ ∙ e)).1 in
      record {
        running =
            subst (IsRunning start) moved
              (moved-IsRunning start s.runtime rt₁ same consistent v.running);
        range = subst (λ w. AllInRange ext.float w.store) (sym quiet) v.range;
      }
  Step-IsSound {path} start {s} {t} (reloads read answer fits e quiet) v =
      let (r, e', _) = reload_config-of_file path read s.runtime e in
      record {
        running = Step-IsRunning start (Reload.Steps.reloads read r t.runtime fits e') v.running;
        range = subst (λ w. AllInRange ext.float w.store) (sym quiet) v.range;
      }

  Reach-IsSound :
      {path : Option Str} (cfg : GatewayConfig) {start s : State ext}
      → IsSound cfg start
      → Reach ext path start s
      → IsSound cfg s
  Reach-IsSound cfg sound started = sound
  Reach-IsSound cfg sound (then_step reach step) =
      Step-IsSound cfg step (Reach-IsSound cfg sound reach)

  -- If rustls and floats behave as documented and every file read fits a balancer: once `main` serves
  -- a configuration that can start, whatever requests, TCP connections and reloads are handled in
  -- whatever order, the gateway runs a valid configuration with the static part of that one and a
  -- router that is built from it, and every bucket holds between 0 tokens and its capacity.
  pub main-IsSound :
      (env : Environment) (laws : IsRustls env.rustls) (program path : Str) (cfg : GatewayConfig)
      (begun : Started env) {s : State ext}
      → CanStart env laws path cfg
      → main env (program ∷ text "--config" ∷ path ∷ []) ≡ returned begun
      → Reach ext begun.config_file_path
          (record { runtime = begun.gateway_state; world = first_world ext })
          s
      → IsSound cfg s
  unfolding get
  main-IsSound env laws program path cfg begun can runs reach =
      let (begun₁, runs₁, running, _, _, _) = main-IsRunning env laws program path [] cfg can in
      let same = returned-injective (sym runs₁ ∙ runs) in
      Reach-IsSound cfg
        (record {
          running = subst (λ b. IsRunning cfg b.gateway_state) same running;
          range = λ key b stands. cc;
        })
        reach
