-- ===== src/Startup/Tests.antt =====
-- src/main.rs started with the sample configuration.
use portiq.Base.{
  true, false, map, err, here, refl, ◌≡◌, ◌⊎◌, List, [], ◌∷◌, some, Str, text, returned, panicked,
  ok, All,
}
use portiq.Config.{GatewayConfig}
use portiq.Config.Valid.{IsValidConfig}
use portiq.Reload.Steps.{IsRunning}
use portiq.Startup.Ending.{join_next_lem}
use portiq.Server.Accept.{accept_failed}
use portiq.Samples.{http_main, https_main}
use portiq.Startup.{ListenerTask, outcome, join_next, wind_up, signalled, is_some, Started, main}
use portiq.Startup.Running.{Listens, main-cases, main-IsRunning}
use portiq.Startup.Plain.{plain_environment, sample_config-CanStart}
use portiq.Server.PlainTls.{plain_tls-IsRustls}
use portiq.Samples.{sample_config}

-- A second path is ignored.
abbrev arguments : List Str
arguments = text "portiq" ∷ text "--config" ∷ text "portiq.yml" ∷ text "other.yml" ∷ []

main-IsRunning_example :
    (s : Started plain_environment) × (main plain_environment arguments ≡ returned s)
    × IsRunning sample_config s.gateway_state
    × (s.config_file_path ≡ some (text "portiq.yml"))
    × (s.listeners ≡ sample_config.listeners)
    × All (Listens (is_some s.tls_acceptor)) s.listeners
main-IsRunning_example =
    main-IsRunning plain_environment plain_tls-IsRustls (text "portiq") (text "portiq.yml")
      (text "other.yml" ∷ []) sample_config sample_config-CanStart

main-cases_example :
    ((program : Str) × (path : Str) × (rest : List Str) × (cfg : GatewayConfig) × (arguments
        ≡ program ∷ text "--config" ∷ path ∷ rest)
      × (plain_environment.read_config path ≡ ok cfg)
      × IsValidConfig cfg)
    ⊎ (main plain_environment arguments ≡ panicked)
main-cases_example = main-cases plain_environment arguments

abbrev two_tasks : List ListenerTask
two_tasks =
    record { listener = http_main; bound = ok tt; events = accept_failed (text "reset") ∷ [] }
    ∷ record { listener = https_main; bound = ok tt; events = [] }
    ∷ []

abbrev busy_task : ListenerTask
busy_task = record { listener = http_main; bound = err (text "address in use"); events = [] }

join_next_lem_example :
    (join_next true two_tasks ≡ false)
    × (map (outcome true) (wind_up signalled two_tasks).0 ≡ some (ok tt) ∷ some (ok tt) ∷ [])
    × (join_next true (busy_task ∷ two_tasks) ≡ true)
    × (join_next true [] ≡ true)
join_next_lem_example =
    join_next_lem true
      (record { listener = http_main; bound = ok tt; events = accept_failed (text "reset") ∷ [] })
      (record { listener = https_main; bound = ok tt; events = [] } ∷ []) (busy_task ∷ two_tasks)
      (
        record { bound = refl; continues = ((λ e. cc), tt) },
        (record { bound = refl; continues = tt }, tt),
      )
      (here (text "address in use", refl))
