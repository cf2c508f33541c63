-- ===== src/Server/Tls.antt =====
-- Certificates: `SNICertificateResolver` and `init_rustls_server_config` of src/server/tls.rs, with the
-- loading of files in src/utils.rs. The files, the PEM format and rustls are the parameter `Rustls`.
use portiq.Base.{
  List, [], ◌∷◌, ◌++◌, Option, none, some, Str, text, Exec, returned, panicked, ◌>>=◌, unwrap,
  Result, ok, err, find,
}
use portiq.Config.{TlsConfig}

-- What the program uses: `read` of a file, the certificates of a PEM text that can be read, its private
-- key, a signing key of it, and the resolver by server name, with what a client says first.
pub record Rustls : Type 1 where
  pub Certificate : Type 0
  pub PrivateKey : Type 0
  pub SigningKey : Type 0
  pub Sni : Type 0
  pub ClientHello : Type 0
  pub read : Str → Result Str Str
  pub pem_certs : Str → List Certificate
  pub pem_private_key : Str → Result PrivateKey Str
  pub any_supported_type : PrivateKey → Result SigningKey Str
  pub new_sni : Sni
  pub add_sni : Sni → Str → List Certificate × SigningKey → Result Sni Str
  pub resolve_sni : Sni → ClientHello → Option (List Certificate × SigningKey)

-- The operator `?`, and `unwrap` of a `Result`.
abbrev pub and_then : {A B : Type 0} → Result A Str → (A → Result B Str) → Result B Str
and_then (err e) next = err e
and_then (ok a) next = next a

abbrev pub map_err : {A : Type 0} → (Str → Str) → Result A Str → Result A Str
map_err f (err e) = err (f e)
map_err f (ok a) = ok a

abbrev pub unwrap_ok : {A : Type 0} → Result A Str → Exec A
unwrap_ok (err e) = panicked
unwrap_ok (ok a) = returned a

module _ (tls : Rustls) where
  abbrev pub CertifiedKey : Type 0
  CertifiedKey = List tls.Certificate × tls.SigningKey

  unfoldable pub open_file : Str → Result Str Str
  open_file filename =
      map_err (λ e. text "Failed to open " ++ (filename ++ (text ": " ++ e))) (tls.read filename)

  unfoldable pub load_certs : Str → Result (List tls.Certificate) Str
  load_certs filename = and_then (open_file filename) λ pem. ok (tls.pem_certs pem)

  unfoldable pub load_private_key : Str → Result tls.PrivateKey Str
  load_private_key filename =
      and_then (open_file filename)
        λ pem. map_err (λ e. text "Failed to read private key: " ++ e) (tls.pem_private_key pem)

  -- The certificates with a signing key: what `new` and `add_sni_cert` load alike.
  unfoldable pub certified_key : Str → Str → Result CertifiedKey Str
  certified_key cert_file key_file = and_then (load_certs cert_file) λ certs.
      and_then (load_private_key key_file) λ private_key.
        and_then (tls.any_supported_type private_key) λ signing_key. ok (certs, signing_key)

  pub record SniCertificateResolver : Type 0 where
    pub default : CertifiedKey
    pub sni : tls.Sni

  unfoldable pub new_resolver : Str → Str → Exec SniCertificateResolver
  new_resolver cert_file key_file = do
    key ← unwrap_ok (certified_key cert_file key_file)
    returned (record { default = key; sni = tls.new_sni })

  unfoldable pub add_sni_cert :
      SniCertificateResolver → Str → Str → Str → Result SniCertificateResolver Str
  add_sni_cert resolver hostname cert_file key_file =
      and_then (certified_key cert_file key_file) λ key.
        and_then (tls.add_sni resolver.sni hostname key) λ sni. ok (record resolver { sni = sni })

  unfoldable pub resolve : SniCertificateResolver → tls.ClientHello → Option CertifiedKey
  resolve resolver client_hello = elim (tls.resolve_sni resolver.sni client_hello) [
    | none ↦ some resolver.default
    | some key ↦ some key
  ]

  -- The loop over the host names of one entry.
  unfoldable pub add_hosts :
      SniCertificateResolver → TlsConfig → List Str → Exec SniCertificateResolver
  add_hosts resolver tls_config [] = returned resolver
  add_hosts resolver tls_config (host ∷ hosts) = do
    added ← unwrap_ok (add_sni_cert resolver host tls_config.cert_file tls_config.key_file)
    add_hosts added tls_config hosts

  abbrev pub hosts_of : TlsConfig → List Str
  hosts_of tls_config = elim tls_config.hostnames [ none ↦ [] | some hosts ↦ hosts ]

  -- The loop over the entries.
  unfoldable pub add_configs : SniCertificateResolver → List TlsConfig → Exec SniCertificateResolver
  add_configs resolver [] = returned resolver
  add_configs resolver (tls_config ∷ tls_configs) = do
    added ← add_hosts resolver tls_config (hosts_of tls_config)
    add_configs added tls_configs

  -- What of `rustls::ServerConfig` is set.
  pub record ServerConfig : Type 0 where
    pub cert_resolver : SniCertificateResolver
    pub alpn_protocols : List Str

  unfoldable pub init_rustls_server_config : List TlsConfig → Exec ServerConfig
  init_rustls_server_config tls_configs = do
    default_cfg ← unwrap (find (λ cfg. cfg.default) tls_configs)
    resolver ← new_resolver default_cfg.cert_file default_cfg.key_file
    added ← add_configs resolver tls_configs
    returned (record { cert_resolver = added; alpn_protocols = text "h2" ∷ text "http/1.1" ∷ [] })
