-- ===== src/Config/Paths.antt =====
-- `PathBuf`, as the certificates of src/config.rs have it: paths are compared by their components, as
-- the standard library makes them on Unix.
use portiq.Base.{
  ℕ, Bool, not, ◌||◌, List, [], ◌∷◌, Option, Str, text, ◌==◌, eqb, starts_with, keep, if◌then◌else◌,
  none, some, map,
}
use portiq.Config.{TlsConfig}

abbrev attach : ℕ → List Str → List Str
attach b [] = (b ∷ []) ∷ []
attach b (segment ∷ segments) = (b ∷ segment) ∷ segments

-- What stands between the slashes.
unfoldable pub segments : Str → List Str
segments [] = [] ∷ []
segments (b ∷ path) = let rest = segments path in if eqb b b'/' then [] ∷ rest else attach b rest

-- An empty segment and a `.` are passed over, but for a `.` at the front.
abbrev is_component : Str → Bool
is_component segment = not (segment == [] || segment == text ".")

abbrev at_front : Str → Bool
at_front path = path == text "." || starts_with path (text "./")

-- `Path::components`; the root is the component `/`.
unfoldable pub components : Str → List Str
unfolding segments
components path =
    let inner = keep is_component (segments path) in
    if starts_with path (text "/")
    then text "/" ∷ inner
    else if at_front path
    then text "." ∷ inner
    else inner

-- What `==` compares of a certificate's entry.
abbrev pub Compared : Type 0
Compared = List Str × List Str × Bool × Option (List Str)

abbrev pub compared : TlsConfig → Compared
compared tls_config = (
  components tls_config.cert_file,
  components tls_config.key_file,
  tls_config.default,
  tls_config.hostnames,
)

abbrev pub compared_tls : Option (List TlsConfig) → Option (List Compared)
compared_tls none = none
compared_tls (some tls_config) = some (map compared tls_config)
