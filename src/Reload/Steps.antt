-- ===== src/Reload/Steps.antt =====
-- The shared state over a run of the gateway: `main` builds it (src/main.rs), every request looks up
-- upstreams in it (src/router.rs), and the admin API reloads it (src/config.rs, src/api.rs).
use portiq.Base.{
  ◌≡◌, refl, sym, ◌∙◌, subst, Option, Str, returned, Result, ok, returned-state, returned-injective,
}
use portiq.Config.{GatewayConfig, Upstream}
use portiq.Config.Valid.{IsValidConfig}
use portiq.Router.{RouterError, Router, get_http_upstream, get_tcp_upstream}
use portiq.Runtime.{GatewayRuntime}
use portiq.Runtime
use portiq.Runtime.Consistent.{
  Fits, IsConsistent, new-IsConsistent, get_http_upstream-Served, get_tcp_upstream-IsConsistent,
}
use portiq.Reload.{load_config, reload_config}
use portiq.Reload.Static.{
  SameStatic, Reloaded, unread, refused, swapped, load_config_iff, reload_config-Reloaded,
}

-- `File::with_name(..)` and what follows give configurations that a balancer can be built for.
abbrev pub ReadsFit : (Str → Result GatewayConfig Str) → Type 0
ReadsFit read = (p : Str) (cfg : GatewayConfig) → read p ≡ ok cfg → Fits cfg

-- What can change the state. `path` is set once; what `read` answers may differ at every reload.
pub data Step (path : Option Str) (rt : GatewayRuntime) : GatewayRuntime → Type 0 where
  http_lookup :
      (name : Str) (r : Result Upstream RouterError) (router' : Router)
      → get_http_upstream rt.router name ≡ returned (r, router')
      → Step path rt (record rt { router = router' })
  tcp_lookup :
      (name : Str) (r : Result Upstream RouterError) (router' : Router)
      → get_tcp_upstream rt.router name ≡ returned (r, router')
      → Step path rt (record rt { router = router' })
  reloads :
      (read : Str → Result GatewayConfig Str) (r : Result (Unit {0}) Str) (rt' : GatewayRuntime)
      → ReadsFit read
      → reload_config path read rt ≡ returned (r, rt')
      → Step path rt rt'

pub data Reach (path : Option Str) (start : GatewayRuntime) : GatewayRuntime → Type 0 where
  start_up : Reach path start start
  next : {rt rt' : GatewayRuntime} → Reach path start rt → Step path rt rt' → Reach path start rt'

pub record IsRunning (start : GatewayConfig) (rt : GatewayRuntime) : Type 0 where
  pub valid : IsValidConfig rt.applied_config
  pub consistent : IsConsistent rt.applied_config rt.router
  pub static : SameStatic start rt.applied_config

SameStatic-trans : {a b c : GatewayConfig} → SameStatic a b → SameStatic b c → SameStatic a c
SameStatic-trans s t = record {
  version = s.version ∙ t.version;
  admin_api = s.admin_api ∙ t.admin_api;
  log = s.log ∙ t.log;
  access_log = s.access_log ∙ t.access_log;
  tls = s.tls ∙ t.tls;
  listeners = s.listeners ∙ t.listeners;
}

SameStatic-refl : (a : GatewayConfig) → SameStatic a a
SameStatic-refl a = record {
  version = refl;
  admin_api = refl;
  log = refl;
  access_log = refl;
  tls = refl;
  listeners = refl;
}

pub Reloaded-IsRunning :
    {path : Option Str} {read : Str → Result GatewayConfig Str} {rt : GatewayRuntime}
    {start : GatewayConfig} {r : Result (Unit {0}) Str} {rt' : GatewayRuntime}
    → Reloaded path read rt r rt'
    → IsRunning start rt
    → IsRunning start rt'
Reloaded-IsRunning (unread e failed) v = v
Reloaded-IsRunning (refused cfg loaded changed) v = v
Reloaded-IsRunning (swapped p rt' set parsed valid same consistent) v = record {
  valid = valid;
  consistent = consistent;
  static = SameStatic-trans v.static same;
}

-- A runtime of the same configuration with a router that is built from it runs as well.
pub moved-IsRunning :
    (start : GatewayConfig) (rt rt' : GatewayRuntime)
    → rt'.applied_config ≡ rt.applied_config
    → IsConsistent rt.applied_config rt'.router
    → IsRunning start rt
    → IsRunning start rt'
moved-IsRunning start rt rt' same consistent v = record {
  valid = subst IsValidConfig (sym same) v.valid;
  consistent = subst (λ c. IsConsistent c rt'.router) (sym same) consistent;
  static = subst (SameStatic start) (sym same) v.static;
}

-- Every lookup and every reload keeps the state running.
pub Step-IsRunning :
    {path : Option Str} (start : GatewayConfig) {rt : GatewayRuntime} {rt' : GatewayRuntime}
    → Step path rt rt'
    → IsRunning start rt
    → IsRunning start rt'
Step-IsRunning start {rt} (http_lookup name r router' e) v =
    let (_, router₁, e₁, served) =
      get_http_upstream-Served rt.applied_config rt.router name v.consistent in
    record {
      valid = v.valid;
      consistent =
          subst (IsConsistent rt.applied_config) (returned-state (sym e₁ ∙ e)).1 served.consistent;
      static = v.static;
    }
Step-IsRunning start {rt} (tcp_lookup name r router' e) v =
    let (_, router₁, e₁, consistent, _) =
      get_tcp_upstream-IsConsistent rt.applied_config rt.router name v.consistent in
    record {
      valid = v.valid;
      consistent =
          subst (IsConsistent rt.applied_config) (returned-state (sym e₁ ∙ e)).1 consistent;
      static = v.static;
    }
Step-IsRunning {path} start {rt} (reloads read r rt' fits e) v =
    let (_, rt₁, e₁, reloaded) = reload_config-Reloaded path read rt fits in
    subst (IsRunning start) (returned-state (sym e₁ ∙ e)).1 (Reloaded-IsRunning reloaded v)

-- What is built for a valid configuration is running.
pub new-IsRunning :
    (cfg : GatewayConfig)
    → IsValidConfig cfg
    → Fits cfg
    → (rt : GatewayRuntime) × (Runtime.new cfg ≡ returned rt) × IsRunning cfg rt
new-IsRunning cfg valid fits =
    let (rt, e, applied, consistent) = new-IsConsistent cfg fits in
    (
      rt,
      e,
      record {
        valid = subst IsValidConfig (sym applied) valid;
        consistent = subst (λ c. IsConsistent c rt.router) (sym applied) consistent;
        static = subst (SameStatic cfg) (sym applied) (SameStatic-refl cfg);
      },
    )

start_up-IsRunning :
    (path : Option Str) (read : Str → Result GatewayConfig Str) (cfg : GatewayConfig)
    (start : GatewayRuntime)
    → ReadsFit read
    → load_config path read ≡ ok cfg
    → Runtime.new cfg ≡ returned start
    → IsRunning cfg start
start_up-IsRunning path read cfg start fits loaded built =
    let (p, _, parsed, valid) = (load_config_iff path read cfg).0 loaded in
    let (rt, e, running) = new-IsRunning cfg valid (fits p cfg parsed) in
    subst (IsRunning cfg) (returned-injective (sym e ∙ built)) running

-- From what `main` sets up, whatever requests and reloads follow, the running configuration is
-- valid, the router is built from it, and the static part is that of the start.
pub Reach-IsRunning :
    {path : Option Str} (read : Str → Result GatewayConfig Str) (cfg : GatewayConfig)
    {start rt : GatewayRuntime}
    → ReadsFit read
    → load_config path read ≡ ok cfg
    → Runtime.new cfg ≡ returned start
    → Reach path start rt
    → IsRunning cfg rt
Reach-IsRunning {path} read cfg {start} fits loaded built start_up =
    start_up-IsRunning path read cfg start fits loaded built
Reach-IsRunning read cfg fits loaded built (next reach step) =
    Step-IsRunning cfg step (Reach-IsRunning read cfg fits loaded built reach)
