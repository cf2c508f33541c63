-- ===== src/Server/Chosen.antt =====
-- Which certificate a client gets from `init_rustls_server_config` and `resolve` (src/server/tls.rs).
use portiq.Base.{
  subst, some-injective, text, ◌≡◌, inl, inr, refl, ap, ◌∙◌, List, [], ◌∷◌, ◌++◌, some, returned,
  ok, find, All, Bool-cases, arith,
}
use portiq.Config.{TlsConfig}
use portiq.Config.Validate.{default_count}
use portiq.Server.Tls.{
  Rustls, CertifiedKey, certified_key, SniCertificateResolver, new_resolver, resolve, ServerConfig,
  init_rustls_server_config,
}
use portiq.Server.Added.{IsRustls, Loads, IsNamed, add_configs-ConfigsAdded}

-- Where one entry is marked as the default, it is found.
pub find-default :
    (cfgs : List TlsConfig)
    → default_count cfgs ≡ 1
    → (cfg : TlsConfig) × (find (λ c. c.default) cfgs ≡ some cfg)
find-default [] h = absurd (omega arith)
find-default (c ∷ cs) h = elim (Bool-cases c.default) [
  | inl e ↦ (c, simp e)
  | inr e ↦ let (d, found) = find-default cs (rw e at h) in (d, simp e found)
]

module _ (tls : Rustls) (laws : IsRustls tls) where
  -- The last entry that has a name the client asks for, or the default if none has.
  pub data Chosen (hello : tls.ClientHello) (default : TlsConfig) (cfgs : List TlsConfig)
      (cfg : TlsConfig) : Type 0 where
    by_name :
        (before after : List TlsConfig)
        → cfgs ≡ before ++ cfg ∷ after
        → IsNamed tls laws hello cfg
        → All (λ c. ¬ IsNamed tls laws hello c) after
        → Chosen hello default cfgs cfg
    by_default :
        All (λ c. ¬ IsNamed tls laws hello c) cfgs → cfg ≡ default → Chosen hello default cfgs cfg

  All-find :
      (cfgs : List TlsConfig) {cfg : TlsConfig}
      → All (Loads tls laws) cfgs
      → find (λ c. c.default) cfgs ≡ some cfg
      → Loads tls laws cfg
  All-find [] all e = cc
  All-find (c ∷ cs) all e = elim (Bool-cases c.default) [
    | inl marked ↦ subst (Loads tls laws) (some-injective (simp marked at e)) all.0
    | inr unmarked ↦ All-find cs all.1 (simp unmarked at e)
  ]

  -- If rustls behaves as documented, one entry is marked as the default and all entries load, the server
  -- configuration is made without a panic, and every client gets the key of the last entry that has a
  -- name it asks for, or the default entry's if none has.
  pub init_rustls_server_config-Chosen :
      (cfgs : List TlsConfig)
      → default_count cfgs ≡ 1
      → All (Loads tls laws) cfgs
      → (config : ServerConfig tls) × (default : TlsConfig) × (init_rustls_server_config tls cfgs
          ≡ returned config)
        × (find (λ c. c.default) cfgs ≡ some default)
        × ((hello : tls.ClientHello)
            → (cfg : TlsConfig) × (key : CertifiedKey tls) × Chosen hello default cfgs cfg
              × (certified_key tls cfg.cert_file cfg.key_file ≡ ok key)
              × (resolve tls config.cert_resolver hello ≡ some key))
  unfolding init_rustls_server_config new_resolver resolve
  init_rustls_server_config-Chosen cfgs one all =
      let (default, found) = find-default cfgs one in
      let d = All-find cfgs all found in
      let start : SniCertificateResolver tls = record { default = d.key; sni = tls.new_sni } in
      let (added, runs, (same, finds)) = add_configs-ConfigsAdded tls laws start cfgs all in
      (
        record { cert_resolver = added; alpn_protocols = text "h2" ∷ text "http/1.1" ∷ [] },
        default,
        rw (found, d.loads, runs) refl,
        found,
        λ hello. elim (finds hello) [
          | inl (before, cfg, after, key, split, named, later, loaded, resolved) ↦ (
            cfg,
            key,
            by_name before after split named later,
            loaded,
            rw (resolve, resolved) refl,
          )
          | inr (unnamed, kept) ↦ (
            default,
            d.key,
            by_default unnamed refl,
            d.loads,
            rw (resolve, kept ∙ laws.resolve-new hello) (ap some same),
          )
        ],
      )
