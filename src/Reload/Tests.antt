-- ===== src/Reload/Tests.antt =====
-- Reloads (src/config.rs) of the gateway that runs the sample configuration.
use portiq.Base.{◌≡◌, refl, Str, text, returned, Result, ok}
use portiq.Runtime.{GatewayRuntime}
use portiq.Reload.{load_config, reload_config}
use portiq.Reload.Static.{load_config_iff, Reloaded, reload_config-Reloaded}
use portiq.Reload.Sample.{sample_path, read_sample, read_sample-ReadsFit}
use portiq.Samples.{sample_config, sample_config-IsValidConfig, sample_runtime}

sample_loaded : load_config sample_path read_sample ≡ ok sample_config
sample_loaded =
    (load_config_iff sample_path read_sample sample_config).1
      (text "portiq.yml", refl, refl, sample_config-IsValidConfig)

reload_config-Reloaded_example :
    (r : Result (Unit {0}) Str) × (rt' : GatewayRuntime) × (reload_config sample_path read_sample
        sample_runtime
      ≡ returned (r, rt'))
    × Reloaded sample_path read_sample sample_runtime r rt'
reload_config-Reloaded_example =
    reload_config-Reloaded sample_path read_sample sample_runtime read_sample-ReadsFit
