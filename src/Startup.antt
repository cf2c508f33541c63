-- ===== src/Startup.antt =====
-- src/main.rs: from the arguments to the running gateway, and how it ends. The file of the configuration,
-- the log, rustls and reqwest are the parameter `Environment`.
pub mod Running
pub mod Ending
pub mod Plain
mod Tests
use portiq.Base.{
  map, ◌++◌, ◌||◌, any, ℕ, Bool, true, false, not, List, [], ◌∷◌, Option, none, some, Str, text,
  ◌==◌, get_elem?, length, ltb, Exec, returned, panicked, ◌>>=◌, unwrap, Result, ok, err,
  if◌then◌else◌,
}
use portiq.Config.{GatewayConfig, TlsConfig, Listener}
use portiq.Reload.{load_config}
use portiq.Runtime
use portiq.Runtime.{GatewayRuntime}
use portiq.Logger.{LogSystem, Layer, init_layers}
use portiq.Server.Accept.{Event, cancelled, run_tcp_listener}
use portiq.LoadBalancer.{is_empty}
use portiq.Server.Tls.{Rustls, ServerConfig, init_rustls_server_config, unwrap_ok}

-- `build_client` is what building the client of reqwest gives.
pub record Environment : Type 1 where
  pub read_config : Str → Result GatewayConfig Str
  pub log_system : LogSystem
  pub rustls : Rustls
  pub build_client : Result (Unit {0}) Str

-- `OnceLock::set`: what is set stays.
abbrev pub set_once : Option Str → Str → Option Str
set_once none path = some path
set_once (some old) path = some old

-- `assert!(args.len() > 2)`, `args[1]` and `args[2]`.
unfoldable pub config_path : List Str → Exec Str
config_path args =
    if ltb 2 (length args)
    then (do
      flag ← unwrap (get_elem? args 1)
      if flag == text "--config" then unwrap (get_elem? args 2) else panicked)
    else panicked

module _ (env : Environment) where
  -- What `main` holds when it has spawned the listeners: one task for each of `listeners`.
  pub record Started : Type 0 where
    pub config_file_path : Option Str
    pub layers : List Layer
    pub tls_acceptor : Option (ServerConfig env.rustls)
    pub gateway_state : GatewayRuntime
    pub listeners : List Listener

  unfoldable pub make_acceptor : Option (List TlsConfig) → Exec (Option (ServerConfig env.rustls))
  make_acceptor none = returned none
  make_acceptor (some tls_config) = do
    rustls_server_config ← init_rustls_server_config env.rustls tls_config
    returned (some rustls_server_config)

  unfoldable pub main : List Str → Exec Started
  main args = do
    path ← config_path args
    let config_file_path = set_once none path
    gateway_config ← unwrap_ok (load_config config_file_path env.read_config)
    layers ← init_layers env.log_system gateway_config.log gateway_config.access_log
    tls_acceptor ← make_acceptor gateway_config.tls
    _ ← unwrap_ok env.build_client
    gateway_runtime ← Runtime.new gateway_config
    returned (record {
      config_file_path = config_file_path;
      layers = layers;
      tls_acceptor = tls_acceptor;
      gateway_state = gateway_runtime;
      listeners = gateway_config.listeners;
    })

-- A task of a listener: what binding its address gave, and the events of its loop so far.
pub record ListenerTask : Type 0 where
  pub listener : Listener
  pub bound : Result (Unit {0}) Str
  pub events : List Event

-- What the task has come to, if it has ended.
unfoldable pub outcome : Bool → ListenerTask → Option (Result (Unit {0}) Str)
outcome tls_acceptor task = (run_tcp_listener task.listener tls_acceptor task.bound task.events).1

abbrev pub is_some {ℓ} : {A : Type ℓ} → Option A → Bool
is_some none = false
is_some (some a) = true

-- `listener_joinset.join_next()` is done: a task has ended, or there is none.
unfoldable pub join_next : Bool → List ListenerTask → Bool
join_next tls_acceptor tasks =
    is_empty tasks || any (λ task. is_some (outcome tls_acceptor task)) tasks

-- What `select!` takes up at the end.
pub data Wake : Type 0 where
  listener_ended api_ended signalled : Wake

-- Every loop takes up the cancellation of the token as its next event.
abbrev pub cancel : ListenerTask → ListenerTask
cancel task = record task { events = task.events ++ cancelled ∷ [] }

-- `main` then waits for so many seconds.
unfoldable pub graceful_shutdown : List ListenerTask → List ListenerTask × ℕ
graceful_shutdown tasks = (map cancel tasks, 5)

unfoldable pub wind_up : Wake → List ListenerTask → List ListenerTask × ℕ
unfolding graceful_shutdown
wind_up listener_ended tasks = (tasks, 0)
wind_up api_ended tasks = (tasks, 0)
wind_up signalled tasks = graceful_shutdown tasks
