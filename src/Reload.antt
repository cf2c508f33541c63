-- ===== src/Reload.antt =====
-- `load_config`, `reload_config` and `static_config_same` (src/config.rs), and the handlers of the admin
-- API (src/api.rs). Reading and deserialising the file is the `config` crate's: `read` is what it
-- answers for a path, the error as the text that `to_string` gives.
pub mod Static
pub mod Steps
pub mod Split
pub mod Sample
mod Tests
use portiq.Base.{
  ℕ, Bool, true, false, ◌&&◌, List, Option, none, some, Str, text, Exec, returned, panicked, Result,
  ok, err, eqb, if◌then◌else◌, ℕ_discrete,
}
use portiq.Config.{GatewayConfig, AdminApiConfig, GatewayLog, AccessLog, Listener}
use portiq.Config.Paths.{Compared, compared_tls}
use portiq.Config.Validate.{validate, message}
use portiq.Runtime
use portiq.Runtime.{GatewayRuntime}

-- `#[derive(PartialEq)]`: equal field by field.
pub AdminApiConfig-discrete : Discrete AdminApiConfig
AdminApiConfig-discrete = hlevel ℕ_discrete

pub GatewayLog-discrete : Discrete GatewayLog
GatewayLog-discrete = hlevel ℕ_discrete

pub AccessLog-discrete : Discrete AccessLog
AccessLog-discrete = hlevel ℕ_discrete

pub Tls-discrete : Discrete (Option (List Compared))
Tls-discrete = hlevel ℕ_discrete

pub Listeners-discrete : Discrete (List Listener)
Listeners-discrete = hlevel ℕ_discrete

abbrev pub same {ℓ} : {A : Type ℓ} → Discrete A → A → A → Bool
same d a b = elim (d a b) [ yes _ ↦ true | no _ ↦ false ]

unfoldable pub static_config_same : GatewayConfig → GatewayConfig → Bool
static_config_same previous new =
    eqb previous.version new.version
    && same AdminApiConfig-discrete previous.admin_api new.admin_api
    && same GatewayLog-discrete previous.log new.log
    && same AccessLog-discrete previous.access_log new.access_log
    && same Tls-discrete (compared_tls previous.tls) (compared_tls new.tls)
    && same Listeners-discrete previous.listeners new.listeners

-- The path is set once, by `main`.
unfoldable pub load_config :
    Option Str → (Str → Result GatewayConfig Str) → Result GatewayConfig Str
load_config none read = err (text "Config file path not found")
load_config (some file_path) read = elim (read file_path) [
  | err e ↦ err e
  | ok cfg ↦ elim (validate cfg) [ err e ↦ err (message e) | ok _ ↦ ok cfg ]
]

abbrev pub static_changed : Str
static_changed = text "Static fields of config has changed, config not applied"

-- The state comes back as the reload leaves it.
unfoldable pub reload_config :
    Option Str
    → (Str → Result GatewayConfig Str)
    → GatewayRuntime
    → Exec (Result (Unit {0}) Str × GatewayRuntime)
reload_config path read current_state = elim (load_config path read) [
  | err e ↦ returned (err e, current_state)
  | ok cfg ↦
      if static_config_same current_state.applied_config cfg
      then (elim (Runtime.new cfg) [
        | returned new_runtime ↦ returned (ok tt, new_runtime)
        | panicked ↦ panicked
      ])
      else returned (err static_changed, current_state)
]

-- The same in two: the new runtime, by the state that was loaded, and the store, when another reload
-- may have come in between.
unfoldable pub prepare_reload :
    Option Str
    → (Str → Result GatewayConfig Str)
    → GatewayRuntime
    → Exec (Result GatewayRuntime Str)
prepare_reload path read current_state = elim (load_config path read) [
  | err e ↦ returned (err e)
  | ok cfg ↦
      if static_config_same current_state.applied_config cfg
      then (elim (Runtime.new cfg) [
        | returned new_runtime ↦ returned (ok new_runtime)
        | panicked ↦ panicked
      ])
      else returned (err static_changed)
]

abbrev pub store_reload :
    Result GatewayRuntime Str → GatewayRuntime → Result (Unit {0}) Str × GatewayRuntime
store_reload (err e) state = (err e, state)
store_reload (ok new_runtime) state = (ok tt, new_runtime)

pub record ApiResponse (T : Type 0) : Type 0 where
  pub success : Bool
  pub message : Str
  pub payload : Option T

pub record AppMetadata : Type 0 where
  pub version : Str
  pub api_version : Str
  pub current_config : GatewayConfig

-- `package_version` is what the build puts in for `CARGO_PKG_VERSION`.
unfoldable pub get_app_context : Str → GatewayRuntime → ApiResponse AppMetadata
get_app_context package_version current_state = record {
  success = true;
  message = text "Context fetched successfully";
  payload = some (record {
    version = package_version;
    api_version = text "v1";
    current_config = current_state.applied_config;
  });
}

abbrev pub reload_response : Result (Unit {0}) Str → ApiResponse (Unit {0})
reload_response (ok _) = record {
  success = true;
  message = text "Config reloaded successfully";
  payload = none;
}
reload_response (err e) = record { success = false; message = e; payload = none }

unfoldable pub reload_config_from_file :
    Option Str
    → (Str → Result GatewayConfig Str)
    → GatewayRuntime
    → Exec (ApiResponse (Unit {0}) × GatewayRuntime)
reload_config_from_file path read gateway_state = elim (reload_config path read gateway_state) [
  | returned (r, state') ↦ returned (reload_response r, state')
  | panicked ↦ panicked
]
