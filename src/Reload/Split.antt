-- ===== src/Reload/Split.antt =====
-- A reload (src/config.rs) is its preparation and then its store.
use portiq.Base.{
  ◌≡◌, refl, inl, inr, Option, Str, returned, ◌>>=◌, Result, ok, Result-cases, Bool-cases,
  Exec-cases,
}
use portiq.Config.{GatewayConfig}
use portiq.Runtime
use portiq.Runtime.{GatewayRuntime}
use portiq.Reload.{load_config, static_config_same, reload_config, prepare_reload, store_reload}
use portiq.Reload.Steps.{ReadsFit, IsRunning, reloads, Step-IsRunning}

-- Without another reload in between, the two parts are the reload.
pub reload_config-prepare_reload :
    (path : Option Str) (read : Str → Result GatewayConfig Str) (rt : GatewayRuntime)
    → reload_config path read rt
      ≡ (prepare_reload path read rt >>= λ prepared. returned (store_reload prepared rt))
unfolding reload_config prepare_reload
reload_config-prepare_reload path read rt = elim (Result-cases (load_config path read)) [
  | inl (e, failed) ↦ rw (failed, reload_config, prepare_reload) refl
  | inr (cfg, loaded) ↦ elim (Bool-cases (static_config_same rt.applied_config cfg)) [
    | inr changed ↦ rw (reload_config, prepare_reload, loaded, changed) refl
    | inl same ↦ elim (Exec-cases (Runtime.new cfg)) [
      | inl lost ↦ rw (reload_config, prepare_reload, loaded, same, lost) refl
      | inr (rt', built) ↦ rw (reload_config, prepare_reload, loaded, same, built) refl
    ]
  ]
]

-- What is prepared by a running state is a running one.
pub prepare_reload-IsRunning :
    (path : Option Str) (start : GatewayConfig) (read : Str → Result GatewayConfig Str)
    (rt rt' : GatewayRuntime)
    → ReadsFit read
    → prepare_reload path read rt ≡ returned (ok rt')
    → IsRunning start rt
    → IsRunning start rt'
prepare_reload-IsRunning path start read rt rt' fits e v =
    let whole : reload_config path read rt ≡ returned (ok tt, rt') =
      rw (reload_config-prepare_reload path read rt, e) refl in
    Step-IsRunning {path = path} start (reloads read (ok tt) rt' fits whole) v
