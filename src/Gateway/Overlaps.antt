-- ===== src/Gateway/Overlaps.antt =====
-- What holds of the gateway while requests overlap with one another and with reloads.
use portiq.Base.{
  All-append, All-append_inv, ◌≡◌, sym, subst, [], ◌∷◌, Option, Str, text, returned, All,
  >>=-returned_inv, returned-state,
}
use portiq.Config.{GatewayConfig}
use portiq.Reload.Split.{prepare_reload-IsRunning}
use portiq.Reload.Steps.{IsRunning}
use portiq.RateLimiter.Ieee.{IsIeee}
use portiq.Middleware.Extern.{Crates}
use portiq.Middleware.{World}
use portiq.Middleware.Stages.{step}
use portiq.Middleware.Stages.Kept.{step_from-Kept}
use portiq.Server.{send_upstream}
use portiq.Server.Added.{IsRustls}
use portiq.Startup.{Environment, Started, main}
use portiq.Startup.Running.{CanStart}
use portiq.RateLimiter.Store.{AllInRange}
use portiq.Gateway.{State, Step, first_world, started}
use portiq.Gateway
use portiq.Gateway.Connections.{state}
use portiq.Gateway.Sound.{
  RangeKept, RangeKept-IsKept, RangeKept-IsLogKept, send_upstream-RangeKept, IsSound, Step-IsSound,
  main-IsSound,
}
use portiq.Gateway.Flight.{
  Pending, replied, queued, step_pending, Flight, FlightStep, begins, moves, leaves, proxies,
  prepares, stores, Flies, took_off, then_flies,
}
use portiq.Gateway.Origins.{IsOf, begin_request-IsOf, step_pending-IsOf}

module _ (ext : Crates) where
  module _ (ieee : IsIeee ext.float) where
    step_pending-RangeKept :
        (p : Pending ext) (w : World ext) {p' : Pending ext} {w' : World ext}
        → step_pending ext p w ≡ returned (p', w')
        → RangeKept ext ieee w w'
    unfolding step_pending
    step_pending-RangeKept (replied r) w h =
        subst (RangeKept ext ieee w) (returned-state h).1 (λ range. range)
    step_pending-RangeKept (queued ip_addr upstream c) w h =
        let handler = send_upstream ext upstream.target ip_addr in
        let (_, h', e) = >>=-returned_inv (step ext handler c w) _ h in
        subst (RangeKept ext ieee w) (returned-state h').1 (
          step_from-Kept ext (RangeKept ext ieee) (RangeKept-IsKept ext ieee)
            (RangeKept-IsLogKept ext ieee) (λ w range. range) handler c.stage c.loggers w
            (send_upstream-RangeKept ext ieee upstream.target ip_addr) e)

    -- As when requests do not overlap, and every request in flight is of a valid configuration.
    pub record IsFlying (start : GatewayConfig) (f : Flight ext) : Type 0 where
      pub sound : IsSound ext ieee start (state ext f.runtime f.world)
      pub pending : All (IsOf ext start) f.pending
      pub prepared : All (IsRunning start) f.prepared

    FlightStep-IsFlying :
        {path : Option Str} (start : GatewayConfig) {s t : Flight ext}
        → FlightStep ext path s t
        → IsFlying start s
        → IsFlying start t
    FlightStep-IsFlying start {s} {t} (begins ip_addr listener req p e quiet added _ kept) v =
        let (own, running) =
          begin_request-IsOf ext start ip_addr listener s.runtime req v.sound.running e in
        record {
          sound = record {
            running = running;
            range = subst (λ w. AllInRange ext.float w.store) (sym quiet) v.sound.range;
          };
          pending =
              subst (All (IsOf ext start)) (sym added)
                (All-append (IsOf ext start) s.pending (p ∷ []) v.pending (own, tt));
          prepared = subst (All (IsRunning start)) (sym kept) v.prepared;
        }
    FlightStep-IsFlying start {s} {t} (moves before p p' after split e quiet moved _ kept) v =
        let (left, (own, right)) =
          All-append_inv (IsOf ext start) before (p ∷ after)
            (subst (All (IsOf ext start)) split v.pending) in
        record {
          sound = record {
            running = subst (IsRunning start) (sym quiet) v.sound.running;
            range = step_pending-RangeKept p s.world e v.sound.range;
          };
          pending = subst (All (IsOf ext start)) (sym moved) (
              All-append (IsOf ext start) before (p' ∷ after) left
                (step_pending-IsOf ext start p s.world e own, right));
          prepared = subst (All (IsRunning start)) (sym kept) v.prepared;
        }
    FlightStep-IsFlying start {s} {t} (leaves before p after r split _ quiet still removed _ kept)
          v =
        let (left, (_, right)) =
          All-append_inv (IsOf ext start) before (p ∷ after)
            (subst (All (IsOf ext start)) split v.pending) in
        record {
          sound = record {
            running = subst (IsRunning start) (sym quiet) v.sound.running;
            range = subst (λ w. AllInRange ext.float w.store) (sym still) v.sound.range;
          };
          pending =
              subst (All (IsOf ext start)) (sym removed)
                (All-append (IsOf ext start) before after left right);
          prepared = subst (All (IsRunning start)) (sym kept) v.prepared;
        }
    FlightStep-IsFlying {path} start {s} {t}
          (proxies network listener tls_acceptor result e quiet same _ kept) v =
        let step : Step ext path (state ext s.runtime s.world) (state ext t.runtime t.world) =
          Gateway.proxies network listener tls_acceptor result e quiet in
        record {
          sound = Step-IsSound ext ieee start step v.sound;
          pending = subst (All (IsOf ext start)) (sym same) v.pending;
          prepared = subst (All (IsRunning start)) (sym kept) v.prepared;
        }
    FlightStep-IsFlying {path} start {s} {t} (prepares read new fits e quiet still same _ added) v =
        record {
          sound = record {
            running = subst (IsRunning start) (sym quiet) v.sound.running;
            range = subst (λ w. AllInRange ext.float w.store) (sym still) v.sound.range;
          };
          pending = subst (All (IsOf ext start)) (sym same) v.pending;
          prepared = subst (All (IsRunning start)) (sym added) (
              All-append (IsRunning start) s.prepared (new ∷ []) v.prepared (
                prepare_reload-IsRunning path start read s.runtime new fits e v.sound.running,
                tt,
              ));
        }
    FlightStep-IsFlying {path} start {s} {t} (stores before new after split put still same _ left)
          v =
        let (earlier, later) =
          All-append_inv (IsRunning start) before (new ∷ after)
            (subst (All (IsRunning start)) split v.prepared) in
        record {
          sound = record {
            running = subst (IsRunning start) (sym put) later.0;
            range = subst (λ w. AllInRange ext.float w.store) (sym still) v.sound.range;
          };
          pending = subst (All (IsOf ext start)) (sym same) v.pending;
          prepared =
              subst (All (IsRunning start)) (sym left)
                (All-append (IsRunning start) before after earlier later.1);
        }

    Flies-IsFlying :
        {path : Option Str} (cfg : GatewayConfig) {start f : Flight ext}
        → IsFlying cfg start
        → Flies ext path start f
        → IsFlying cfg f
    Flies-IsFlying cfg v took_off = v
    Flies-IsFlying cfg v (then_flies flies step) =
        FlightStep-IsFlying cfg step (Flies-IsFlying cfg v flies)

    -- If rustls and floats behave as documented and every file read fits a balancer: once `main`
    -- serves a configuration that can start, however requests, by the steps of their chains of
    -- middlewares, and reloads overlap with one another and with TCP connections, the gateway runs a
    -- valid configuration with the static part of that one and a router that is built from it, every
    -- bucket holds between 0 tokens and its capacity, and every request in flight is answered with
    -- 404 or 503 or is on its way to an upstream with a weight, of a service of some valid
    -- configuration with that static part.
    pub main-IsFlying :
        (env : Environment) (laws : IsRustls env.rustls) (program path : Str) (cfg : GatewayConfig)
        (begun : Started env) {f : Flight ext}
        → CanStart env laws path cfg
        → main env (program ∷ text "--config" ∷ path ∷ []) ≡ returned begun
        → Flies ext begun.config_file_path
            (record {
              runtime = begun.gateway_state;
              world = first_world ext;
              pending = [];
              answered = [];
              prepared = [];
            })
            f
        → IsFlying cfg f
    main-IsFlying env laws program path cfg begun can runs flies =
        Flies-IsFlying cfg
          (record {
            sound = main-IsSound ext ieee env laws program path cfg begun can runs started;
            pending = tt;
            prepared = tt;
          })
          flies
