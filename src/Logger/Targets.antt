-- ===== src/Logger/Targets.antt =====
-- Where an event goes (src/logger.rs): the access log and the gateway log share nothing.
use portiq.Base.{
  ◌≡◌, ◌⊎◌, inl, inr, refl, true, false, ◌&&◌, List, [], ◌∷◌, Str, text, ◌==◌, returned, ok,
  if◌then◌else◌, Bool-cases, arith,
}
use portiq.Config.{GatewayLog, AccessLog}
use portiq.Logger.{
  Writer, stdout, file, LogSystem, access_target, Layer, env_filter, info_filter, get_log_writer,
  access_layer, init_layers, writers,
}

abbrev pub writer_of : Str → Writer
writer_of path = if path == text "stdout" then stdout else file path

module _ (system : LogSystem) where
  -- The path stands for the standard output, or is that of a file that can be appended to.
  abbrev pub Opens : Str → Type 0
  Opens path = ((path == text "stdout") ≡ true) ⊎ (system.open_append path ≡ ok tt)

  get_log_writer_total :
      (path : Str) → Opens path → get_log_writer system path ≡ returned (writer_of path)
  unfolding get_log_writer
  get_log_writer_total path (inl e) = rw e refl
  get_log_writer_total path (inr opened) = elim (Bool-cases (path == text "stdout")) [
    | inl e ↦ rw e refl
    | inr e ↦ rw (e, opened) refl
  ]

  -- The writers of an event, by its target.
  abbrev pub expected : GatewayLog → AccessLog → system.Metadata → List Writer
  expected gateway access event =
      if system.target event == access_target
      then (if access.enabled && system.info_allows event
          then writer_of access.file_path ∷ []
          else [])
      else (if system.directives_allow gateway.level event
          then writer_of gateway.file_path ∷ []
          else [])

  abbrev gateway_layer : GatewayLog → Layer
  gateway_layer gateway = record {
    writer = writer_of gateway.file_path;
    format = gateway.format;
    filter = env_filter gateway.level;
    access_only = false;
  }

  abbrev enabled_layer : AccessLog → Layer
  enabled_layer access = record {
    writer = writer_of access.file_path;
    format = access.format;
    filter = info_filter;
    access_only = true;
  }

  writers_enabled :
      (gateway : GatewayLog) (access : AccessLog) (event : system.Metadata)
      → access.enabled ≡ true
      → writers system (gateway_layer gateway ∷ enabled_layer access ∷ []) event
        ≡ expected gateway access event
  unfolding writers
  writers_enabled gateway access event e = ground arith

  writers_disabled :
      (gateway : GatewayLog) (access : AccessLog) (event : system.Metadata)
      → access.enabled ≡ false
      → writers system (gateway_layer gateway ∷ []) event ≡ expected gateway access event
  unfolding writers
  writers_disabled gateway access event e = ground arith

  -- Where the log files open, the layers are made without a panic; then an event of the target `access`
  -- reaches the access log alone, if that is enabled and the level `INFO` lets it through, and any other
  -- event the gateway log alone, if its directives let it through.
  pub init_layers_lem :
      (gateway : GatewayLog) (access : AccessLog)
      → Opens gateway.file_path
      → (access.enabled ≡ true → Opens access.file_path)
      → (layers : List Layer) × (init_layers system gateway access ≡ returned layers)
        × ((event : system.Metadata) → writers system layers event ≡ expected gateway access event)
  unfolding init_layers access_layer
  init_layers_lem gateway access opens opens' = elim (Bool-cases access.enabled) [
    | inl e ↦ (
      gateway_layer gateway ∷ enabled_layer access ∷ [],
      rw
          (
            get_log_writer_total gateway.file_path opens,
            e,
            get_log_writer_total access.file_path (opens' e),
          )
          refl,
      λ event. writers_enabled gateway access event e,
    )
    | inr e ↦ (
      gateway_layer gateway ∷ [],
      rw (get_log_writer_total gateway.file_path opens, e) refl,
      λ event. writers_disabled gateway access event e,
    )
  ]
