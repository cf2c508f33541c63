-- ===== src/Reload/Static.antt =====
-- What `load_config` accepts, what `static_config_same` compares, and what a reload does
-- (src/config.rs).
use portiq.Base.{
  ◌≡◌, ◌↔◌, inl, inr, refl, sym, ap, ◌∙◌, subst, true, false, Option, none, some, Str, returned,
  Result, ok, err, ok-injective, eqb_iff, Result-cases, some-injective, Bool-cases, arith,
}
use portiq.Config.{GatewayConfig}
use portiq.Config.Paths.{compared_tls}
use portiq.Config.Validate.{validate}
use portiq.Config.Valid.{IsValidConfig, validate_iff}
use portiq.Runtime.{GatewayRuntime}
use portiq.Runtime.Consistent.{Fits, IsConsistent, new-IsConsistent}
use portiq.Reload.{
  AdminApiConfig-discrete, GatewayLog-discrete, AccessLog-discrete, Tls-discrete,
  Listeners-discrete, same, static_config_same, load_config, reload_config, static_changed,
}

-- The part of a configuration that a running gateway keeps; paths are the same if their components are.
pub record SameStatic (a b : GatewayConfig) : Type 0 where
  pub version : a.version ≡ b.version
  pub admin_api : a.admin_api ≡ b.admin_api
  pub log : a.log ≡ b.log
  pub access_log : a.access_log ≡ b.access_log
  pub tls : compared_tls a.tls ≡ compared_tls b.tls
  pub listeners : a.listeners ≡ b.listeners

same_sound {ℓ} : {A : Type ℓ} (d : Discrete A) (a b : A) → same d a b ≡ true → a ≡ b
same_sound d a b h = go (d a b) h
  where
    go : (e : Dec (a ≡ b)) → (elim e [ yes _ ↦ true | no _ ↦ false ]) ≡ true → a ≡ b
    go (yes p) h = p
    go (no n) h = cc

same_complete {ℓ} : {A : Type ℓ} (d : Discrete A) (a b : A) → a ≡ b → same d a b ≡ true
same_complete d a b p = go (d a b)
  where
    go : (e : Dec (a ≡ b)) → (elim e [ yes _ ↦ true | no _ ↦ false ]) ≡ true
    go (yes q) = refl
    go (no n) = absurd (n p)

static_config_same_sound : (a b : GatewayConfig) → static_config_same a b ≡ true → SameStatic a b
unfolding static_config_same
static_config_same_sound a b h = record {
  version = ground arith;
  admin_api = same_sound AdminApiConfig-discrete a.admin_api b.admin_api (ground arith);
  log = same_sound GatewayLog-discrete a.log b.log (ground arith);
  access_log = same_sound AccessLog-discrete a.access_log b.access_log (ground arith);
  tls = same_sound Tls-discrete (compared_tls a.tls) (compared_tls b.tls) (ground arith);
  listeners = same_sound Listeners-discrete a.listeners b.listeners (ground arith);
}

static_config_same_complete : (a b : GatewayConfig) → SameStatic a b → static_config_same a b ≡ true
unfolding static_config_same
static_config_same_complete a b s = rw (
  (eqb_iff a.version b.version).1 s.version,
  same_complete AdminApiConfig-discrete a.admin_api b.admin_api s.admin_api,
  same_complete GatewayLog-discrete a.log b.log s.log,
  same_complete AccessLog-discrete a.access_log b.access_log s.access_log,
  same_complete Tls-discrete (compared_tls a.tls) (compared_tls b.tls) s.tls,
  same_complete Listeners-discrete a.listeners b.listeners s.listeners,
)

-- The comparison passes exactly if the static parts are equal.
pub static_config_same_iff :
    (a b : GatewayConfig) → (static_config_same a b ≡ true) ↔ SameStatic a b
static_config_same_iff a b = (static_config_same_sound a b, static_config_same_complete a b)

load_config-valid :
    (p : Str) (read : Str → Result GatewayConfig Str) (cfg : GatewayConfig)
    → load_config (some p) read ≡ ok cfg
    → (read p ≡ ok cfg) × IsValidConfig cfg
unfolding load_config
load_config-valid p read cfg h = elim (Result-cases (read p)) [
  | inl (e, unread) ↦ cc (unread)
  | inr (c, parsed) ↦ elim (Result-cases (validate c)) [
    | inl (e, invalid) ↦ cc (parsed, invalid)
    | inr (u, valid) ↦
        let c≡cfg : c ≡ cfg = ok-injective (rw (parsed, load_config, valid) at h) in
        (parsed ∙ ap ok c≡cfg, subst IsValidConfig c≡cfg ((validate_iff c).0 valid))
  ]
]

-- `load_config` answers with a configuration exactly if the path is set, the file reads as that
-- configuration, and it is valid.
pub load_config_iff :
    (path : Option Str) (read : Str → Result GatewayConfig Str) (cfg : GatewayConfig)
    → (load_config path read ≡ ok cfg)
      ↔ ((p : Str) × (path ≡ some p) × (read p ≡ ok cfg) × IsValidConfig cfg)
unfolding load_config
load_config_iff none read cfg = (λ h. cc, λ h. cc (h.1))
load_config_iff (some p) read cfg = (
  λ h. let (parsed, valid) = load_config-valid p read cfg h in (p, refl, parsed, valid),
  λ h. rw (some-injective h.1, h.2, load_config, (validate_iff cfg).1 h.3),
)

-- What a reload answers, and the state it leaves.
pub data Reloaded (path : Option Str) (read : Str → Result GatewayConfig Str) (rt : GatewayRuntime)
    : Result (Unit {0}) Str → GatewayRuntime → Type 0 where
  unread : (e : Str) → load_config path read ≡ err e → Reloaded path read rt (err e) rt
  refused :
      (cfg : GatewayConfig)
      → load_config path read ≡ ok cfg
      → ¬ SameStatic rt.applied_config cfg
      → Reloaded path read rt (err static_changed) rt
  swapped :
      (p : Str) (rt' : GatewayRuntime)
      → path ≡ some p
      → read p ≡ ok rt'.applied_config
      → IsValidConfig rt'.applied_config
      → SameStatic rt.applied_config rt'.applied_config
      → IsConsistent rt'.applied_config rt'.router
      → Reloaded path read rt (ok tt) rt'

-- A reload does not panic where the files read fit a balancer; it fails and leaves the state if
-- the file cannot be loaded or the static part differs, its paths compared by their components,
-- and otherwise puts in the consistent runtime of the valid configuration that was read.
pub reload_config-Reloaded :
    (path : Option Str) (read : Str → Result GatewayConfig Str) (rt : GatewayRuntime)
    → ((p : Str) (cfg : GatewayConfig) → read p ≡ ok cfg → Fits cfg)
    → (r : Result (Unit {0}) Str) × (rt' : GatewayRuntime) × (reload_config path read rt
        ≡ returned (r, rt'))
      × Reloaded path read rt r rt'
unfolding reload_config
reload_config-Reloaded path read rt fits = elim (Result-cases (load_config path read)) [
  | inl (e, failed) ↦ (err e, rt, rw (failed, reload_config), unread e failed)
  | inr (cfg, loaded) ↦ elim (Bool-cases (static_config_same rt.applied_config cfg)) [
    | inl same_static ↦
        let (p, set, parsed, valid) = (load_config_iff path read cfg).0 loaded in
        let (rt', built, applied, consistent) = new-IsConsistent cfg (fits p cfg parsed) in
        (
          ok tt,
          rt',
          rw (loaded, reload_config, same_static, built),
          swapped p rt' set (parsed ∙ ap ok (sym applied)) (subst IsValidConfig (sym applied) valid)
              (subst (SameStatic rt.applied_config) (sym applied)
                (static_config_same_sound rt.applied_config cfg same_static))
              (subst (λ c. IsConsistent c rt'.router) (sym applied) consistent),
        )
    | inr changed ↦ (
      err static_changed,
      rt,
      rw (loaded, reload_config, changed),
      refused cfg loaded (λ s. cc (changed, static_config_same_complete rt.applied_config cfg s)),
    )
  ]
]
