-- ===== src/Server/PlainTls.antt =====
-- A concrete rustls for the tests: a file holds its own name, and the resolver is a list of names.
use portiq.Base.{
  Bool, false, List, [], ◌∷◌, Option, none, some, Str, text, ◌==◌, get, refl, ok, ok-injective,
  Result, ◌≡◌, if◌then◌else◌,
}
use portiq.Server.Tls.{Rustls, certified_key, open_file, load_certs, load_private_key}
use portiq.Server.Added.{IsRustls, Loads}
use portiq.Samples.{certificate}

abbrev find_name : List (Str × (List Str × Str)) → Option Str → Option (List Str × Str)
find_name sni none = none
find_name sni (some name) = get name sni

abbrev asks_for : Option Str → Str → Bool
asks_for none host = false
asks_for (some name) host = host == name

abbrev pub plain_tls : Rustls
plain_tls = record {
  Certificate = Str;
  PrivateKey = Str;
  SigningKey = Str;
  Sni = List (Str × (List Str × Str));
  ClientHello = Option Str;
  read = λ filename. ok filename;
  pem_certs = λ pem. pem ∷ [];
  pem_private_key = λ pem. ok pem;
  any_supported_type = λ key. ok key;
  new_sni = [];
  add_sni = λ sni host key. ok ((host, key) ∷ sni);
  resolve_sni = find_name;
}

plain_tls-resolve :
    (sni sni' : List (Str × (List Str × Str))) (host : Str) (key : List Str × Str)
    (hello : Option Str)
    → Path (Result (List (Str × (List Str × Str))) Str) (ok ((host, key) ∷ sni)) (ok sni')
    → find_name sni' hello ≡ (if asks_for hello host then some key else find_name sni hello)
unfolding get
plain_tls-resolve sni sni' host key none e = refl
plain_tls-resolve sni sni' host key (some name) e = rw (← ok-injective e) refl

plain_tls-resolve_new : (hello : Option Str) → find_name [] hello ≡ none
unfolding get
plain_tls-resolve_new none = refl
plain_tls-resolve_new (some name) = refl

pub plain_tls-IsRustls : IsRustls plain_tls
plain_tls-IsRustls = record {
  names = asks_for;
  resolve-new = plain_tls-resolve_new;
  resolve-add = λ sni sni' host key hello e. plain_tls-resolve sni sni' host key hello e;
}

pub certificate-Loads : Loads plain_tls plain_tls-IsRustls certificate
unfolding certified_key load_certs load_private_key open_file
certificate-Loads = record {
  key = (text "cert.pem" ∷ [], text "key.pem");
  loads = refl;
  accepted =
      ((λ sni. ((text "api.example.com", (text "cert.pem" ∷ [], text "key.pem")) ∷ sni, refl)), tt);
}
