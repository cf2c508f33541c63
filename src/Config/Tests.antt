-- ===== src/Config/Tests.antt =====
-- `GatewayConfig::validate` (src/config.rs) on the sample configuration and on faulty ones.
use portiq.Base.{◌≡◌, ◌↔◌, refl, [], ◌∷◌, none, some, text, ok, err, ◌==◌, contains, starts_with}
use portiq.Config.{TcpConfig}
use portiq.Config.Validate.{
  validate, show_number, check_tls, check_listeners, message, duplicate_listener, default_tls_count,
}
use portiq.Config.Paths.{components, segments}
use portiq.Config.Valid.{IsValidConfig, validate_iff, validate-tcp}
use portiq.Config.Faults.{Fault, validate-Fault}
use portiq.Samples.{sample_config, http_main, certificate}

duplicate_listener_name :
    validate (record sample_config { listeners = http_main ∷ http_main ∷ [] })
    ≡ err (duplicate_listener (text "http-main"))
unfolding validate check_tls check_listeners contains ◌==◌
duplicate_listener_name = refl

two_defaults :
    validate (record sample_config { tls = some (certificate ∷ certificate ∷ []) })
    ≡ err (default_tls_count 2)
unfolding validate check_tls
two_defaults = refl

two_defaults_message :
    message (default_tls_count 12)
    ≡ text "Exactly one TLS config must be marked as default, found 12"
unfolding message show_number
two_defaults_message = refl

validate_iff_example : (validate sample_config ≡ ok tt) ↔ IsValidConfig sample_config
validate_iff_example = validate_iff sample_config

-- A TCP route to a listener and a service that do not exist.
abbrev dangling_tcp : TcpConfig
dangling_tcp = record {
  services = [];
  routes =
      record { listeners = text "nowhere" ∷ []; service = text "nothing"; tls_mode = none } ∷ [];
}

dangling_tcp_passes :
    validate (record sample_config { tcp = dangling_tcp }) ≡ validate sample_config
dangling_tcp_passes = validate-tcp sample_config dangling_tcp

validate-Fault_example :
    Fault
      (record sample_config { listeners = http_main ∷ http_main ∷ [] })
      (duplicate_listener (text "http-main"))
validate-Fault_example =
    validate-Fault (record sample_config { listeners = http_main ∷ http_main ∷ [] })
      duplicate_listener_name

respelled_path : components (text "certs//a.pem") ≡ components (text "certs/./a.pem/")
unfolding components segments starts_with ◌==◌
respelled_path = refl

rooted_path : components (text "/./a/../b") ≡ text "/" ∷ text "a" ∷ text ".." ∷ text "b" ∷ []
unfolding components segments starts_with ◌==◌
rooted_path = refl

front_dot : components (text "./a/.") ≡ text "." ∷ text "a" ∷ []
unfolding components segments starts_with ◌==◌
front_dot = refl
