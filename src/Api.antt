-- ===== src/Api.antt =====
-- src/api.rs: the admin API server around the handlers of Reload.antt. Which handler axum calls for a
-- request is the parameter `Axum`; what the server takes up, in turn, is a list of events.
pub mod Shown
pub mod Serves
mod Tests
use portiq.Base.{
  Bool, true, false, List, [], ◌∷◌, ◌++◌, Option, none, some, Str, text, Exec, returned, panicked,
  ◌>>=◌, Result, ok, err, Any, All, ◌≡◌, ◌≢◌, ◌⊎◌,
}
use portiq.Config.{GatewayConfig, SocketAddr}
use portiq.Runtime.{GatewayRuntime}
use portiq.Reload.{ApiResponse, AppMetadata, get_app_context, reload_config_from_file}

abbrev pub base_url : Str
base_url = text "/api/v1"

-- The functions that are given to `get` and `post`.
pub data ApiHandler : Type 0 where
  app_context reload : ApiHandler

pub record Route : Type 0 where
  pub method : Str
  pub path : Str
  pub handler : ApiHandler

abbrev pub api_routes : List Route
api_routes =
    record { method = text "GET"; path = text "/"; handler = app_context }
    ∷ record { method = text "POST"; path = text "/reload"; handler = reload }
    ∷ []

-- `dispatch base routes method path` is what `Router::new().nest(base, routes)` calls for a request.
pub record Axum : Type 0 where
  pub dispatch : Str → List Route → Str → Str → Option ApiHandler

-- A request of the API, with what the configuration's file reads as while it is handled.
pub record ApiRequest : Type 0 where
  pub method : Str
  pub path : Str
  pub read : Str → Result GatewayConfig Str

pub data ApiEvent : Type 0 where
  requested : ApiRequest → ApiEvent
  api_cancelled : ApiEvent

-- The last is axum's own answer, where no handler is called.
pub data ApiReply : Type 0 where
  context_reply : ApiResponse AppMetadata → ApiReply
  reload_reply : ApiResponse (Unit {0}) → ApiReply
  unhandled : ApiReply

module _ (axum : Axum) (package_version : Str) (config_file_path : Option Str) where
  unfoldable pub call_handler :
      Option ApiHandler → ApiRequest → GatewayRuntime → Exec (ApiReply × GatewayRuntime)
  call_handler none req gateway_state = returned (unhandled, gateway_state)
  call_handler (some app_context) req gateway_state =
      returned (context_reply (get_app_context package_version gateway_state), gateway_state)
  call_handler (some reload) req gateway_state = do
    (response, state') ← reload_config_from_file config_file_path req.read gateway_state
    returned (reload_reply response, state')

  unfoldable pub handle_api : ApiRequest → GatewayRuntime → Exec (ApiReply × GatewayRuntime)
  unfolding call_handler
  handle_api req gateway_state =
      call_handler (axum.dispatch base_url api_routes req.method req.path) req gateway_state

  -- `axum::serve` over the events so far: the replies, the state, and whether it has ended.
  unfoldable pub serve_api :
      List ApiEvent → GatewayRuntime → Exec (List ApiReply × GatewayRuntime × Bool)
  serve_api [] gateway_state = returned ([], gateway_state, false)
  serve_api (requested req ∷ events) gateway_state = do
    (reply, state') ← handle_api req gateway_state
    (replies, state'', ended) ← serve_api events state'
    returned (reply ∷ replies, state'', ended)
  serve_api (api_cancelled ∷ events) gateway_state = returned ([], gateway_state, true)

  -- `bind` is the system's answer to binding an address.
  unfoldable pub start_api_server :
      (SocketAddr → Result (Unit {0}) Str)
      → List ApiEvent
      → GatewayRuntime
      → Exec (List ApiReply × GatewayRuntime × Bool)
  start_api_server bind events gateway_state =
      elim (bind gateway_state.applied_config.admin_api.addr) [
        | err _ ↦ panicked
        | ok _ ↦ serve_api events gateway_state
      ]
