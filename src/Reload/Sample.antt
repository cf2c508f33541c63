-- ===== src/Reload/Sample.antt =====
-- The file that holds the sample configuration: input for the tests.
use portiq.Base.{Option, some, Str, text, Result, ok, ok-injective, subst}
use portiq.Config.{GatewayConfig}
use portiq.Runtime.Consistent.{Fits}
use portiq.Reload.Steps.{ReadsFit}
use portiq.Samples.{sample_config, sample_config-Fits}

abbrev pub sample_path : Option Str
sample_path = some (text "portiq.yml")

-- The file holds the sample configuration, whatever its name.
abbrev pub read_sample : Str → Result GatewayConfig Str
read_sample p = ok sample_config

pub read_sample-ReadsFit : ReadsFit read_sample
read_sample-ReadsFit p cfg e = subst Fits (ok-injective e) sample_config-Fits
