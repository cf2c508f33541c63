-- ===== src/Api/Tests.antt =====
-- src/api.rs with a concrete router of axum: the routes are tried in order.
use mathlib.Core.List.{append_cancel_left}
use portiq.Base.{
  subst, ◌∙◌, returned-injective, ◌≡◌, ◌≢◌, ◌⊎◌, inl, inr, refl, sym, ◌&&◌, List, [], ◌∷◌, ◌++◌,
  Option, none, some, Str, text, ◌==◌, eq_refl, eq_to, Bool-cases, returned, ok, length, Any, All,
  here, there, if◌then◌else◌, arith,
}
use portiq.Runtime.{GatewayRuntime}
use portiq.Reload.Steps.{new-IsRunning, IsRunning}
use portiq.Reload.Sample.{read_sample, read_sample-ReadsFit, sample_path}
use portiq.Api.{
  Axum, Route, ApiHandler, ApiRequest, ApiEvent, ApiReply, requested, api_cancelled,
  start_api_server,
}
use portiq.Api.Shown.{Shown}
use portiq.Api.Serves.{IsAxum, requests, is_cancelled, start_api_server-IsRunning}
use portiq.Samples.{
  sample_config, sample_runtime, sample_runtime-new, sample_config-IsValidConfig,
  sample_config-Fits,
}

abbrev first_match : Str → List Route → Str → Str → Option ApiHandler
first_match base [] method path = none
first_match base (r ∷ routes) method path =
    let later = first_match base routes method path in
    if (r.method == method) && (base ++ r.path) == path then some r.handler else later

first_match-listed :
    (base : Str) (routes : List Route) (method path : Str) (h : ApiHandler)
    → first_match base routes method path ≡ some h
    → Any
        (λ r.
          (r.handler ≡ h)
          × ((r.method ≡ method) ⊎ ((r.method ≡ text "GET") × (method ≡ text "HEAD"))))
        routes
first_match-listed base [] method path h e = cc
first_match-listed base (r ∷ routes) method path h e =
    elim (Bool-cases ((r.method == method) && (base ++ r.path) == path)) [
      | inl hit ↦ here (cc (simp hit at e), inl (eq_to r.method method (ground (arith, hit))))
      | inr miss ↦ there (first_match-listed base routes method path h (simp miss at e))
    ]

first_match-finds :
    (base : Str) (before after : List Route) (method path : Str) (h : ApiHandler)
    → All (λ r. r.path ≢ path) (before ++ after)
    → first_match base
        (before ++ record { method = method; path = path; handler = h } ∷ after)
        method
        (base ++ path)
      ≡ some h
first_match-finds base [] after method path h others =
    rw (eq_refl method, eq_refl (base ++ path)) refl
first_match-finds base (r ∷ before) after method path h others =
    elim (Bool-cases ((r.method == method) && (base ++ r.path) == (base ++ path))) [
      | inl hit ↦ absurd (
          others.0 (
            append_cancel_left base r.path path
              (eq_to (base ++ r.path) (base ++ path) (ground (arith, hit)))))
      | inr miss ↦ rw miss (first_match-finds base before after method path h others.1)
    ]

abbrev plain_axum : Axum
plain_axum = record { dispatch = first_match }

plain_axum-IsAxum : IsAxum plain_axum
plain_axum-IsAxum = record {
  listed = first_match-listed;
  finds =
      λ base before after method path h other. first_match-finds base before after method path h;
}

sample_runtime-IsRunning : IsRunning sample_config sample_runtime
sample_runtime-IsRunning =
    let (rt, e, running) =
      new-IsRunning sample_config sample_config-IsValidConfig sample_config-Fits in
    subst (IsRunning sample_config) (returned-injective (sym e ∙ sample_runtime-new)) running

abbrev a_reload : ApiRequest
a_reload = record { method = text "POST"; path = text "/api/v1/reload"; read = read_sample }

-- A reload, and a request that comes too late.
abbrev two_reloads : List ApiEvent
two_reloads = requested a_reload ∷ api_cancelled ∷ requested a_reload ∷ []

start_api_server-IsRunning_example :
    (replies : List ApiReply) × (rt' : GatewayRuntime) × (start_api_server plain_axum
        (text "0.1.0")
        sample_path
        (λ addr. ok tt)
        two_reloads
        sample_runtime
      ≡ returned (replies, rt', is_cancelled two_reloads))
    × (length replies ≡ 1)
    × IsRunning sample_config rt'
    × (All (λ req. req.method ≢ text "POST") (requests two_reloads) → rt' ≡ sample_runtime)
start_api_server-IsRunning_example =
    start_api_server-IsRunning plain_axum (text "0.1.0") sample_path plain_axum-IsAxum sample_config
      (λ addr. ok tt) two_reloads sample_runtime refl (read_sample-ReadsFit, tt)
      sample_runtime-IsRunning
