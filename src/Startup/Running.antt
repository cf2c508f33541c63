-- ===== src/Startup/Running.antt =====
-- What `main` (src/main.rs) has set up when it serves.
use portiq.Base.{
  ◌≡◌, ◌≢◌, refl, ap, Bool, true, List, [], ◌∷◌, Option, none, some, Str, text, ◌==◌, returned,
  Result, ok, All, All-imp, Option-cases, inl, inr, ◌⊎◌, panicked, Result-cases, Bool-cases, eq_to,
  some-injective, arith,
}
use portiq.Config.{GatewayConfig, TlsConfig, Listener, https}
use portiq.Config.Valid.{IsValidConfig}
use portiq.Reload.{load_config}
use portiq.Reload.Static.{load_config_iff}
use portiq.Reload.Steps.{IsRunning, new-IsRunning}
use portiq.Runtime.Consistent.{Fits}
use portiq.Logger.Targets.{Opens, init_layers_lem}
use portiq.Server.Tls.{ServerConfig}
use portiq.Server.Added.{IsRustls, Loads}
use portiq.Server.Chosen.{init_rustls_server_config-Chosen}
use portiq.Server.Accept.{Event, run_tcp_listener}
use portiq.Server.Listening.{Starts, run_tcp_listener-Starts}
use portiq.Startup.{is_some, Environment, Started, config_path, make_acceptor, main}

config_path-some :
    (program path : Str) (rest : List Str)
    → config_path (program ∷ text "--config" ∷ path ∷ rest) ≡ returned path
unfolding config_path ◌==◌
config_path-some program path rest = ground arith

-- Arguments of any other form are refused.
config_path-cases :
    (args : List Str)
    → ((program : Str) × (path : Str) × (rest : List Str) × (args
          ≡ program ∷ text "--config" ∷ path ∷ rest))
      ⊎ (config_path args ≡ panicked)
unfolding config_path
config_path-cases [] = inr refl
config_path-cases (program ∷ []) = inr refl
config_path-cases (program ∷ flag ∷ []) = inr refl
config_path-cases (program ∷ flag ∷ path ∷ rest) = elim (Bool-cases (flag == text "--config")) [
  | inl e ↦ inl (program, path, rest, ap (λ f. program ∷ f ∷ path ∷ rest) (eq_to flag _ e))
  | inr e ↦ inr (ground arith)
]

module _ (env : Environment) where
  -- Unless the arguments are the program's name, `--config` and a path, with whatever follows, and
  -- the file there is a valid configuration, `main` panics.
  pub main-cases :
      (args : List Str)
      → ((program : Str) × (path : Str) × (rest : List Str) × (cfg : GatewayConfig) × (args
            ≡ program ∷ text "--config" ∷ path ∷ rest)
          × (env.read_config path ≡ ok cfg)
          × IsValidConfig cfg)
        ⊎ (main env args ≡ panicked)
  unfolding main
  main-cases args = elim (config_path-cases args) [
    | inr refused ↦ inr (rw refused refl)
    | inl (program, path, rest, shape) ↦
        elim (Result-cases (load_config (some path) env.read_config)) [
          | inl (e, failed) ↦ inr (rw (shape, config_path-some program path rest, failed) refl)
          | inr (cfg, loaded) ↦
              let (p, same, reads, valid) =
                (load_config_iff (some path) env.read_config cfg).0 loaded in
              inl (program, path, rest, cfg, shape, rw (some-injective same) reads, valid)
        ]
  ]

-- No task of a listener panics at its start, whatever happens to the listener.
abbrev pub Listens : Bool → Listener → Type 0
Listens tls_acceptor l =
    (bound : Result (Unit {0}) Str) (events : List Event)
    → All (Starts l tls_acceptor) (run_tcp_listener l tls_acceptor bound events).0

module _ (env : Environment) (laws : IsRustls env.rustls) where
  -- What has to be there: a readable and valid configuration that balancers can be built for, log
  -- files, certificates, and a client.
  pub record CanStart (path : Str) (cfg : GatewayConfig) : Type 0 where
    pub reads : env.read_config path ≡ ok cfg
    pub valid : IsValidConfig cfg
    pub fits : Fits cfg
    pub log_opens : Opens env.log_system cfg.log.file_path
    pub access_log_opens :
        cfg.access_log.enabled ≡ true → Opens env.log_system cfg.access_log.file_path
    pub certificates : (tls : List TlsConfig) → cfg.tls ≡ some tls → All (Loads env.rustls laws) tls
    pub client : env.build_client ≡ ok tt

  make_acceptor_total :
      (cfg : GatewayConfig) (path : Str)
      → CanStart path cfg
      → (acceptor : Option (ServerConfig env.rustls)) × (make_acceptor env cfg.tls
          ≡ returned acceptor)
        × (cfg.tls ≢ none → is_some acceptor ≡ true)
  unfolding make_acceptor
  make_acceptor_total cfg path can = elim (Option-cases cfg.tls) [
    | inl e ↦ (none, rw e refl, λ configured. absurd (configured e))
    | inr (tls, e) ↦
        let (config, _, made, _, _) =
          init_rustls_server_config-Chosen env.rustls laws tls (can.valid.one_default tls e)
            (can.certificates tls e) in
        (some config, rw (e, make_acceptor, made) refl, λ _. refl)
  ]

  -- If rustls behaves as documented, with `--config` and the path of a configuration that can start,
  -- `main` comes to serve without a panic: the state is running that configuration, the path is kept
  -- for reloads, and every listener of the configuration has its task, none of whose connections
  -- panics for want of an acceptor.
  pub main-IsRunning :
      (program path : Str) (rest : List Str) (cfg : GatewayConfig)
      → CanStart path cfg
      → (s : Started env) × (main env (program ∷ text "--config" ∷ path ∷ rest) ≡ returned s)
        × IsRunning cfg s.gateway_state
        × (s.config_file_path ≡ some path)
        × (s.listeners ≡ cfg.listeners)
        × All (Listens (is_some s.tls_acceptor)) s.listeners
  unfolding main
  main-IsRunning program path rest cfg can =
      let loaded =
        (load_config_iff (some path) env.read_config cfg).1 (path, refl, can.reads, can.valid) in
      let (layers, laid, _) =
        init_layers_lem env.log_system cfg.log cfg.access_log can.log_opens can.access_log_opens in
      let (acceptor, made, has_tls) = make_acceptor_total cfg path can in
      let (rt, built, running) = new-IsRunning cfg can.valid can.fits in
      (
        record {
          config_file_path = some path;
          layers = layers;
          tls_acceptor = acceptor;
          gateway_state = rt;
          listeners = cfg.listeners;
        },
        rw (config_path-some program path rest, loaded, laid, made, can.client, built) refl,
        running,
        refl,
        refl,
        All-imp (λ l. l.protocol ≡ https → cfg.tls ≢ none) (Listens (is_some acceptor))
            (λ l has bound events.
              run_tcp_listener-Starts l (is_some acceptor) bound events (λ p. has_tls (has p)))
            cfg.listeners can.valid.https_has_tls,
      )
