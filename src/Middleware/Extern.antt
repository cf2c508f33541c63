-- ===== src/Middleware/Extern.antt =====
-- What src/middleware and src/server use of the crates hyper, http, uuid and reqwest, and of the clock.
use portiq.Base.{
  ℕ, ◌+◌, ◌≤◌, ◌<◌, ◌≡◌, ◌≢◌, ◌⊎◌, ◌&&◌, leb, if◌then◌else◌, List, [], map, length, Option, some,
  Str, All,
}
use portiq.RateLimiter.Ieee.{Float}

-- A request to an upstream, as it is given to `reqwest`.
pub record Outgoing : Type 0 where
  pub method : Str
  pub url : Str
  pub headers : List (Str × Str)
  pub body : Option Str

pub record Crates : Type 1 where
  pub float : Float
  -- The n-th reading of the clock, in nanoseconds, and the n-th identifier as text.
  pub instant : ℕ → ℕ
  pub new_v4 : ℕ → Str
  -- `Display` for `Ipv6Addr`, by its segments.
  pub show_v6 : List ℕ → Str
  -- The headers of a request; hyper reads few enough that one more can be inserted.
  pub HeaderMap : Type 0
  pub HeaderValue : Type 0
  pub get : HeaderMap → Str → Option HeaderValue
  pub insert : HeaderMap → Str → HeaderValue → HeaderMap
  pub to_str : HeaderValue → Option Str
  pub from_str : Str → Option HeaderValue
  pub from_u64 : ℕ → HeaderValue
  pub Uri : Type 0
  pub PathAndQuery : Type 0
  pub path : Uri → Str
  pub query : Uri → Option Str
  pub path_and_query : Uri → Option PathAndQuery
  pub as_str : PathAndQuery → Str
  pub host : Uri → Option Str
  pub authority : Uri → Option Str
  pub scheme : Uri → Option Str
  pub parse_path_and_query : Str → Option PathAndQuery
  -- `Uri::from_parts` after setting that part.
  pub with_path_and_query : Uri → PathAndQuery → Option Uri
  -- What an upstream answers, after the requests sent before: status, headers and body, the body if
  -- it can be read; or nothing, if sending fails.
  pub send : List Outgoing → Outgoing → Option (ℕ × List (Str × HeaderValue) × Option Str)

abbrev pub Visible : ℕ → Type 0
Visible b = (32 ≤ b) × (b < 127)

abbrev pub lower_byte : ℕ → ℕ
lower_byte b = if leb b'A' b && leb b b'Z' then b + 32 else b

-- `str::to_ascii_lowercase`.
abbrev pub to_ascii_lowercase : Str → Str
to_ascii_lowercase = map lower_byte

-- A header's name as the program's constants have it: lower-case letters and dashes, not too many.
abbrev pub NameByte : ℕ → Type 0
NameByte b = (b ≡ b'-') ⊎ ((b'a' ≤ b) × (b ≤ b'z'))

abbrev pub IsName : Str → Type 0
IsName name = (name ≢ []) × (length name ≤ 65535) × All NameByte name

-- The documented behaviour that proofs rest on. The names of headers are the same in upper and in
-- lower case, and a header map holds under a name what was inserted there; a text of visible ASCII is
-- a header value, and identifiers are such texts.
pub record IsHyper (ext : Crates) : Type 0 where
  pub get-lower :
      (headers : ext.HeaderMap) (name : Str)
      → ext.get headers name ≡ ext.get headers (to_ascii_lowercase name)
  pub get-insert :
      (headers : ext.HeaderMap) (name : Str) (v : ext.HeaderValue)
      → IsName name
      → ext.get (ext.insert headers name v) name ≡ some v
  pub get-insert_ne :
      (headers : ext.HeaderMap) (name other : Str) (v : ext.HeaderValue)
      → IsName name
      → to_ascii_lowercase other ≢ name
      → ext.get (ext.insert headers name v) other ≡ ext.get headers other
  pub from_str-visible :
      (s : Str) → All Visible s → (v : ext.HeaderValue) × (ext.from_str s ≡ some v)
  pub new_v4-visible : (n : ℕ) → All Visible (ext.new_v4 n)
