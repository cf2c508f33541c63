-- ===== src/Api/Shown.antt =====
-- What a reload through the admin API (src/api.rs) answers, and what the context shows then.
use portiq.Base.{◌≡◌, ◌⊎◌, inl, inr, refl, true, Option, some, Str, text, returned, Result, ok, err}
use portiq.Config.{GatewayConfig}
use portiq.Config.Valid.{IsValidConfig}
use portiq.Runtime.{GatewayRuntime}
use portiq.Reload.{
  ApiResponse, AppMetadata, get_app_context, reload_response, reload_config_from_file, load_config,
  static_changed,
}
use portiq.Reload.Static.{SameStatic, Reloaded, unread, refused, swapped, reload_config-Reloaded}
use portiq.Reload.Steps.{ReadsFit}

-- The metadata that shows a configuration.
abbrev pub shows : Str → GatewayConfig → AppMetadata
shows package_version cfg = record {
  version = package_version;
  api_version = text "v1";
  current_config = cfg;
}

-- What a reload answers, and what the context shows then.
pub data Shown (package_version : Str) (path : Option Str) (read : Str → Result GatewayConfig Str)
    (rt : GatewayRuntime) (answer : ApiResponse (Unit {0})) (rt' : GatewayRuntime) : Type 0 where
  applied :
      (p : Str) (cfg : GatewayConfig)
      → answer.success ≡ true
      → path ≡ some p
      → read p ≡ ok cfg
      → IsValidConfig cfg
      → SameStatic rt.applied_config cfg
      → (get_app_context package_version rt').payload ≡ some (shows package_version cfg)
      → Shown package_version path read rt answer rt'
  rejected :
      (e : Str)
      → answer ≡ reload_response (err e)
      → (load_config path read ≡ err e)
        ⊎ ((cfg : GatewayConfig) × (load_config path read ≡ ok cfg)
            × (¬ SameStatic rt.applied_config cfg)
            × (e ≡ static_changed))
      → rt' ≡ rt
      → Shown package_version path read rt answer rt'

Reloaded-Shown :
    (package_version : Str) (path : Option Str) (read : Str → Result GatewayConfig Str)
    (rt : GatewayRuntime) {r : Result (Unit {0}) Str} {rt' : GatewayRuntime}
    → Reloaded path read rt r rt'
    → Shown package_version path read rt (reload_response r) rt'
unfolding get_app_context
Reloaded-Shown package_version path read rt (unread e failed) = rejected e refl (inl failed) refl
Reloaded-Shown package_version path read rt (refused cfg loaded changed) =
    rejected static_changed refl (inr (cfg, loaded, changed, refl)) refl
Reloaded-Shown package_version path read rt (swapped p rt' set reads valid same consistent) =
    applied p rt'.applied_config refl set reads valid same refl

pub reload_config_from_file-Shown :
    (package_version : Str) (path : Option Str) (read : Str → Result GatewayConfig Str)
    (rt : GatewayRuntime)
    → ReadsFit read
    → (answer : ApiResponse (Unit {0})) × (rt' : GatewayRuntime) × (reload_config_from_file path
          read rt
        ≡ returned (answer, rt'))
      × Shown package_version path read rt answer rt'
unfolding reload_config_from_file
reload_config_from_file-Shown package_version path read rt fits =
    let (r, rt', e, reloaded) = reload_config-Reloaded path read rt fits in
    (
      reload_response r,
      rt',
      rw (reload_config_from_file, e) refl,
      Reloaded-Shown package_version path read rt reloaded,
    )
