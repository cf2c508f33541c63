-- ===== src/Api/Serves.antt =====
-- What the admin API (src/api.rs) answers, and what it does to the running gateway.
use portiq.Base.{
  ◌≡◌, ◌≢◌, ◌⊎◌, inl, inr, refl, sym, ap, ◌∙◌, suc, Bool, true, false, List, [], ◌∷◌, ◌++◌, Option,
  none, some, Str, text, ◌==◌, eq_iff, returned, Result, ok, length, Any, All, here, there,
}
use portiq.Config.{GatewayConfig, SocketAddr}
use portiq.Runtime.{GatewayRuntime}
use portiq.Reload.{ApiResponse, get_app_context, reload_response, reload_config_from_file}
use portiq.Reload.Static.{reload_config-Reloaded}
use portiq.Reload.Steps.{ReadsFit, IsRunning, Reloaded-IsRunning}
use portiq.Api.Shown.{Shown, reload_config_from_file-Shown}
use portiq.Api.{
  Axum, Route, ApiHandler, app_context, reload, ApiRequest, ApiEvent, requested, api_cancelled,
  ApiReply, context_reply, reload_reply, unhandled, base_url, api_routes, call_handler, handle_api,
  serve_api, start_api_server,
}

-- The documented behaviour of axum's router: a handler is called only for its own method (the handler
-- of `GET` for `HEAD` also), and one alone with its path, not `/`, is called for its method there.
pub record IsAxum (axum : Axum) : Type 0 where
  pub listed :
      (base : Str) (routes : List Route) (method path : Str) (h : ApiHandler)
      → axum.dispatch base routes method path ≡ some h
      → Any
          (λ r.
            (r.handler ≡ h)
            × ((r.method ≡ method) ⊎ ((r.method ≡ text "GET") × (method ≡ text "HEAD"))))
          routes
  pub finds :
      (base : Str) (before after : List Route) (method path : Str) (h : ApiHandler)
      → path ≢ text "/"
      → All (λ r. r.path ≢ path) (before ++ after)
      → axum.dispatch base
          (before ++ record { method = method; path = path; handler = h } ∷ after)
          method
          (base ++ path)
        ≡ some h

-- The requests that come before the cancellation.
abbrev pub requests : List ApiEvent → List ApiRequest
requests [] = []
requests (requested req ∷ events) = req ∷ requests events
requests (api_cancelled ∷ events) = []

abbrev pub is_cancelled : List ApiEvent → Bool
is_cancelled [] = false
is_cancelled (requested req ∷ events) = is_cancelled events
is_cancelled (api_cancelled ∷ events) = true

module _ (axum : Axum) (package_version : Str) (path : Option Str) where
  -- One request: the reply, and that only a `POST` changes the runtime.
  call_handler-IsRunning :
      (start : GatewayConfig) (h : Option ApiHandler) (req : ApiRequest) (rt : GatewayRuntime)
      → ReadsFit req.read
      → IsRunning start rt
      → (reply : ApiReply) × (rt' : GatewayRuntime) × (call_handler axum package_version path h req
            rt
          ≡ returned (reply, rt'))
        × IsRunning start rt'
        × (h ≢ some reload → rt' ≡ rt)
  unfolding call_handler reload_config_from_file
  call_handler-IsRunning start none req rt fits v = (unhandled, rt, refl, v, λ _. refl)
  call_handler-IsRunning start (some app_context) req rt fits v =
      (context_reply (get_app_context package_version rt), rt, refl, v, λ _. refl)
  call_handler-IsRunning start (some reload) req rt fits v =
      let (r, rt', e, reloaded) = reload_config-Reloaded path req.read rt fits in
      (
        reload_reply (reload_response r),
        rt',
        rw (reload_config_from_file, e) refl,
        Reloaded-IsRunning reloaded v,
        λ other. absurd (other refl),
      )

  module _ (laws : IsAxum axum) where
    reload_by_post :
        (method at : Str)
        → axum.dispatch base_url api_routes method at ≡ some reload
        → method ≡ text "POST"
    unfolding ◌==◌
    reload_by_post method at e = elim (laws.listed base_url api_routes method at reload e) [
      | here (other, _) ↦ cc
      | there (here (_, inl post)) ↦ sym post
      | there (here (_, inr (get, _))) ↦ cc ((eq_iff (text "POST") (text "GET")).1 get)
      | there (there m) ↦ elim m [ ]
    ]

    serve_api-IsRunning :
        (start : GatewayConfig) (events : List ApiEvent) (rt : GatewayRuntime)
        → All (λ req. ReadsFit req.read) (requests events)
        → IsRunning start rt
        → (replies : List ApiReply) × (rt' : GatewayRuntime) × (serve_api axum package_version path
              events rt
            ≡ returned (replies, rt', is_cancelled events))
          × (length replies ≡ length (requests events))
          × IsRunning start rt'
          × (All (λ req. req.method ≢ text "POST") (requests events) → rt' ≡ rt)
    unfolding serve_api handle_api
    serve_api-IsRunning start [] rt fits v = ([], rt, refl, refl, v, λ _. refl)
    serve_api-IsRunning start (requested req ∷ events) rt fits v =
        let (reply, rt₁, e, v₁, quiet) =
          call_handler-IsRunning start (axum.dispatch base_url api_routes req.method req.path) req
            rt fits.0 v in
        let (replies, rt₂, e', counted, v₂, quiet') =
          serve_api-IsRunning start events rt₁ fits.1 v₁ in
        (
          reply ∷ replies,
          rt₂,
          rw (e, e') refl,
          ap suc counted,
          v₂,
          λ all. quiet' all.1 ∙ quiet (λ r. all.0 (reload_by_post req.method req.path r)),
        )
    serve_api-IsRunning start (api_cancelled ∷ events) rt fits v =
        ([], rt, refl, refl, v, λ _. refl)

    -- If axum behaves as documented, the address of the admin API is free, and the files read fit a
    -- balancer, the API server answers every request before the cancellation, ends at that and not
    -- before, keeps the gateway running, and leaves it as it was if none of the requests is a `POST`.
    pub start_api_server-IsRunning :
        (start : GatewayConfig) (bind : SocketAddr → Result (Unit {0}) Str) (events : List ApiEvent)
        (rt : GatewayRuntime)
        → bind start.admin_api.addr ≡ ok tt
        → All (λ req. ReadsFit req.read) (requests events)
        → IsRunning start rt
        → (replies : List ApiReply) × (rt' : GatewayRuntime) × (start_api_server axum
              package_version path bind events rt
            ≡ returned (replies, rt', is_cancelled events))
          × (length replies ≡ length (requests events))
          × IsRunning start rt'
          × (All (λ req. req.method ≢ text "POST") (requests events) → rt' ≡ rt)
    unfolding start_api_server
    start_api_server-IsRunning start bind events rt free fits v =
        let bound : bind rt.applied_config.admin_api.addr ≡ ok tt =
          ap (λ a. bind a.addr) (sym v.static.admin_api) ∙ free in
        let (replies, rt', e, counted, v', quiet) = serve_api-IsRunning start events rt fits v in
        (replies, rt', rw (start_api_server, bound, e) refl, counted, v', quiet)

    -- A `POST` of `/api/v1/reload` is a reload.
    pub handle_api-reload :
        (read : Str → Result GatewayConfig Str) (rt : GatewayRuntime)
        → ReadsFit read
        → (answer : ApiResponse (Unit {0})) × (rt' : GatewayRuntime) × (handle_api axum
              package_version path
              (record { method = text "POST"; path = text "/api/v1/reload"; read = read })
              rt
            ≡ returned (reload_reply answer, rt'))
          × Shown package_version path read rt answer rt'
    unfolding handle_api call_handler ◌==◌
    handle_api-reload read rt fits =
        let reload_path = text "/reload" in
        let found : axum.dispatch base_url api_routes (text "POST") (text "/api/v1/reload")
            ≡ some reload =
          laws.finds base_url
            (record { method = text "GET"; path = text "/"; handler = app_context } ∷ []) []
            (text "POST") reload_path reload (λ e. cc ((eq_iff reload_path (text "/")).1 e))
            ((λ e. cc ((eq_iff (text "/") reload_path).1 e)), tt) in
        let (answer, rt', e, shown) =
          reload_config_from_file-Shown package_version path read rt fits in
        (answer, rt', rw (found, call_handler, e) refl, shown)
