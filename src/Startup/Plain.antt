-- ===== src/Startup/Plain.antt =====
-- A concrete environment for the tests: the file of the configuration holds the sample.
use portiq.Base.{Str, Bool, refl, inr, ok, some-injective, subst, Str, All, text}
use portiq.Logger.{LogSystem}
use portiq.Server.Added.{Loads}
use portiq.Server.PlainTls.{plain_tls, plain_tls-IsRustls, certificate-Loads}
use portiq.Startup.{Environment}
use portiq.Startup.Running.{CanStart}
use portiq.Samples.{sample_config, sample_config-IsValidConfig, sample_config-Fits}

abbrev pub plain_logs : LogSystem
plain_logs = record {
  Metadata = Str × Bool;
  target = λ event. event.0;
  open_append = λ path. ok tt;
  directives_allow = λ directives event. event.1;
  info_allows = λ event. event.1;
}

abbrev pub plain_environment : Environment
plain_environment = record {
  read_config = λ path. ok sample_config;
  log_system = plain_logs;
  rustls = plain_tls;
  build_client = ok tt;
}

pub sample_config-CanStart :
    CanStart plain_environment plain_tls-IsRustls (text "portiq.yml") sample_config
sample_config-CanStart = record {
  reads = refl;
  valid = sample_config-IsValidConfig;
  fits = sample_config-Fits;
  log_opens = inr refl;
  access_log_opens = λ enabled. inr refl;
  certificates = λ tls e.
      subst (All (Loads plain_tls plain_tls-IsRustls)) (some-injective e) (certificate-Loads, tt);
  client = refl;
}
