-- ===== src/Logger.antt =====
-- src/logger.rs: the layers of the log, each with its writer, its format and its filters. Opening a file
-- and what a level filter lets through are parameters; what a layer writes is left to `tracing`.
pub mod Targets
mod Tests
use portiq.Base.{
  Bool, true, false, not, ◌&&◌, List, [], ◌∷◌, ◌++◌, Str, text, ◌==◌, Exec, returned, panicked,
  ◌>>=◌, Result, ok, err, if◌then◌else◌,
}
use portiq.Config.{LogFormat, GatewayLog, AccessLog}

pub data Writer : Type 0 where
  stdout : Writer
  file : Str → Writer

pub data LevelFilter : Type 0 where
  env_filter : Str → LevelFilter
  info_filter : LevelFilter

-- `access_only` is the test of `filter_fn`: the target is `access`, or is not.
pub record Layer : Type 0 where
  pub writer : Writer
  pub format : LogFormat
  pub filter : LevelFilter
  pub access_only : Bool

-- The file system's answer to opening a file for appending; of tracing, what is known of an event, its
-- target, and what the directives of a filter and `LevelFilter::INFO` let through.
pub record LogSystem : Type 1 where
  pub Metadata : Type 0
  pub target : Metadata → Str
  pub open_append : Str → Result (Unit {0}) Str
  pub directives_allow : Str → Metadata → Bool
  pub info_allows : Metadata → Bool

abbrev pub access_target : Str
access_target = text "access"

module _ (system : LogSystem) where
  unfoldable pub get_log_writer : Str → Exec Writer
  get_log_writer file_path =
      if file_path == text "stdout" then returned stdout else (elim (system.open_append file_path) [
        | ok _ ↦ returned (file file_path)
        | err _ ↦ panicked
      ])

  unfoldable pub access_layer : AccessLog → Exec (List Layer)
  access_layer access_log_config =
      if access_log_config.enabled
      then (do
        access_writer ← get_log_writer access_log_config.file_path
        returned (
            record {
              writer = access_writer;
              format = access_log_config.format;
              filter = info_filter;
              access_only = true;
            }
            ∷ []))
      else returned []

  unfoldable pub init_layers : GatewayLog → AccessLog → Exec (List Layer)
  init_layers gateway_log_config access_log_config = do
    gateway_writer ← get_log_writer gateway_log_config.file_path
    access_layers ← access_layer access_log_config
    returned (
        record {
          writer = gateway_writer;
          format = gateway_log_config.format;
          filter = env_filter gateway_log_config.level;
          access_only = false;
        }
        ∷ access_layers)

  abbrev pub filter_allows : LevelFilter → system.Metadata → Bool
  filter_allows (env_filter directives) event = system.directives_allow directives event
  filter_allows info_filter event = system.info_allows event

  abbrev pub target_allows : Bool → system.Metadata → Bool
  target_allows true event = system.target event == access_target
  target_allows false event = not (system.target event == access_target)

  -- The writers that an event reaches: those of the layers whose filters all let it through.
  unfoldable pub writers : List Layer → system.Metadata → List Writer
  writers [] event = []
  writers (layer ∷ layers) event =
      let others = writers layers event in
      if filter_allows layer.filter event && target_allows layer.access_only event
      then layer.writer ∷ others
      else others
