-- ===== src/Server/Added.antt =====
-- What the loops of `init_rustls_server_config` (src/server/tls.rs) put into the resolver.
use portiq.Base.{
  ◌≡◌, ◌⊎◌, inl, inr, refl, ap, ◌∙◌, Bool, true, List, [], ◌∷◌, ◌++◌, none, some, Str, returned, ok,
  All, Any, here, there, not-Any-cons, Bool-cases, if◌then◌else◌,
}
use portiq.Config.{TlsConfig}
use portiq.Server.Tls.{
  Rustls, CertifiedKey, certified_key, SniCertificateResolver, add_sni_cert, add_hosts, hosts_of,
  add_configs,
}

-- The documented behaviour of the resolver by server name: it knows no name at first, and of a name
-- that is added it gives the key last added. `names` says whether a client asks for a name.
pub record IsRustls (tls : Rustls) : Type 0 where
  pub names : tls.ClientHello → Str → Bool
  pub resolve-new : (hello : tls.ClientHello) → tls.resolve_sni tls.new_sni hello ≡ none
  pub resolve-add :
      (sni sni' : tls.Sni) (host : Str) (key : CertifiedKey tls) (hello : tls.ClientHello)
      → tls.add_sni sni host key ≡ ok sni'
      → tls.resolve_sni sni' hello
        ≡ (if names hello host then some key else tls.resolve_sni sni hello)

module _ (tls : Rustls) (laws : IsRustls tls) where
  -- The files of an entry load, and rustls takes its key for each of its host names.
  pub record Loads (cfg : TlsConfig) : Type 0 where
    pub key : CertifiedKey tls
    pub loads : certified_key tls cfg.cert_file cfg.key_file ≡ ok key
    pub accepted :
        All
          (λ host. (sni : tls.Sni) → (sni' : tls.Sni) × (tls.add_sni sni host key ≡ ok sni'))
          (hosts_of tls cfg)

  abbrev pub IsNamed : tls.ClientHello → TlsConfig → Type 0
  IsNamed hello cfg = Any (λ host. laws.names hello host ≡ true) (hosts_of tls cfg)

  -- After a loop the resolver by name gives the key, or what it gave before.
  abbrev pub HostsAdded :
      SniCertificateResolver tls → SniCertificateResolver tls → CertifiedKey tls → List Str → Type 0
  HostsAdded resolver added key hosts =
      (added.default ≡ resolver.default)
      × ((hello : tls.ClientHello)
          → (Any (λ host. laws.names hello host ≡ true) hosts
              × (tls.resolve_sni added.sni hello ≡ some key))
            ⊎ ((¬ Any (λ host. laws.names hello host ≡ true) hosts)
                × (tls.resolve_sni added.sni hello ≡ tls.resolve_sni resolver.sni hello)))

  HostsAdded-cons :
      (resolver added : SniCertificateResolver tls) (key : CertifiedKey tls) (host : Str)
      (hosts : List Str) (sni' : tls.Sni)
      → tls.add_sni resolver.sni host key ≡ ok sni'
      → HostsAdded (record resolver { sni = sni' }) added key hosts
      → HostsAdded resolver added key (host ∷ hosts)
  HostsAdded-cons resolver added key host hosts sni' e (same, finds) = (
    same,
    λ hello. elim (finds hello) [
      | inl (named, found) ↦ inl (there named, found)
      | inr (unnamed, kept) ↦ elim (Bool-cases (laws.names hello host)) [
        | inl asked ↦
            inl (
              here asked,
              kept ∙ laws.resolve-add resolver.sni sni' host key hello e ∙ rw asked refl,
            )
        | inr other ↦ inr (
          not-Any-cons _ (λ asked. cc) unnamed,
          kept ∙ laws.resolve-add resolver.sni sni' host key hello e ∙ rw other refl,
        )
      ]
    ],
  )

  add_hosts-HostsAdded :
      (resolver : SniCertificateResolver tls) (cfg : TlsConfig) (key : CertifiedKey tls)
      (hosts : List Str)
      → certified_key tls cfg.cert_file cfg.key_file ≡ ok key
      → All
          (λ host. (sni : tls.Sni) → (sni' : tls.Sni) × (tls.add_sni sni host key ≡ ok sni'))
          hosts
      → (added : SniCertificateResolver tls) × (add_hosts tls resolver cfg hosts ≡ returned added)
        × HostsAdded resolver added key hosts
  unfolding add_hosts add_sni_cert
  add_hosts-HostsAdded resolver cfg key [] loads accepted =
      (resolver, refl, (refl, λ hello. inr ((λ named. elim named [ ]), refl)))
  add_hosts-HostsAdded resolver cfg key (host ∷ hosts) loads accepted =
      let (sni', e) = accepted.0 resolver.sni in
      let (added, runs, goes) =
        add_hosts-HostsAdded (record resolver { sni = sni' }) cfg key hosts loads accepted.1 in
      (added, rw (loads, e) runs, HostsAdded-cons resolver added key host hosts sni' e goes)

  -- The same of the loop over the entries, with the entry whose key it is.
  abbrev pub ConfigsAdded :
      SniCertificateResolver tls → SniCertificateResolver tls → List TlsConfig → Type 0
  ConfigsAdded resolver added cfgs =
      (added.default ≡ resolver.default)
      × ((hello : tls.ClientHello)
          → ((before : List TlsConfig) × (cfg : TlsConfig) × (after : List TlsConfig)
              × (key : CertifiedKey tls) × (cfgs ≡ before ++ cfg ∷ after)
              × IsNamed hello cfg
              × All (λ c. ¬ IsNamed hello c) after
              × (certified_key tls cfg.cert_file cfg.key_file ≡ ok key)
              × (tls.resolve_sni added.sni hello ≡ some key))
            ⊎ (All (λ c. ¬ IsNamed hello c) cfgs
                × (tls.resolve_sni added.sni hello ≡ tls.resolve_sni resolver.sni hello)))

  ConfigsAdded-cons :
      (resolver first added : SniCertificateResolver tls) (cfg : TlsConfig) (cfgs : List TlsConfig)
      (key : CertifiedKey tls)
      → certified_key tls cfg.cert_file cfg.key_file ≡ ok key
      → HostsAdded resolver first key (hosts_of tls cfg)
      → ConfigsAdded first added cfgs
      → ConfigsAdded resolver added (cfg ∷ cfgs)
  ConfigsAdded-cons resolver first added cfg cfgs key loads (same, adds) (same', finds) = (
    same' ∙ same,
    λ hello. elim (finds hello) [
      | inl (before, c, after, k, split, named, later, loaded, found) ↦
          inl (cfg ∷ before, c, after, k, ap (◌∷◌ cfg) split, named, later, loaded, found)
      | inr (unnamed, kept) ↦ elim (adds hello) [
        | inl (named, found) ↦ inl ([], cfg, cfgs, key, refl, named, unnamed, loads, kept ∙ found)
        | inr (other, kept') ↦ inr ((other, unnamed), kept ∙ kept')
      ]
    ],
  )

  pub add_configs-ConfigsAdded :
      (resolver : SniCertificateResolver tls) (cfgs : List TlsConfig)
      → All Loads cfgs
      → (added : SniCertificateResolver tls) × (add_configs tls resolver cfgs ≡ returned added)
        × ConfigsAdded resolver added cfgs
  unfolding add_configs
  add_configs-ConfigsAdded resolver [] all = (resolver, refl, (refl, λ hello. inr (tt, refl)))
  add_configs-ConfigsAdded resolver (cfg ∷ cfgs) all =
      let (first, runs, adds) =
        add_hosts-HostsAdded resolver cfg all.0.key (hosts_of tls cfg) all.0.loads all.0.accepted in
      let (added, runs', finds) = add_configs-ConfigsAdded first cfgs all.1 in
      (
        added,
        rw runs runs',
        ConfigsAdded-cons resolver first added cfg cfgs all.0.key all.0.loads adds finds,
      )
