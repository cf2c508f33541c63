-- ===== src/Middleware/Plain.antt =====
-- An instance of `Crates`: headers in an association list of texts, an identifier that is always the
-- same, and upstreams that all answer alike. Input for the tests.
use portiq.Base.{
  ℕ, ◌≡◌, ◌≢◌, All, refl, inl, inr, List, [], ◌∷◌, Option, none, some, Str, text, Map, get, insert,
  get-insert, eq_refl, eq_to, ◌==◌, Bool-cases, eqb, if◌then◌else◌, arith,
}
use portiq.RateLimiter.Billionths.{billionths}
use portiq.Middleware.Extern.{Crates, IsHyper, NameByte, lower_byte, to_ascii_lowercase}

pub record PlainUri : Type 0 where
  pub scheme : Option Str
  pub host : Option Str
  pub path : Str

abbrev pub no_headers : List (Str × Str)
no_headers = []

-- A text up to its fragment.
abbrev pub before_fragment : Str → Str
before_fragment [] = []
before_fragment (b ∷ s) = if eqb b b'#' then [] else b ∷ before_fragment s

abbrev pub plain : Crates
plain = record {
  float = billionths;
  instant = λ n. 1000;
  new_v4 = λ n. text "67e55044-10b1-426f";
  show_v6 = λ segments. segments;
  HeaderMap = Map Str;
  HeaderValue = Str;
  get = λ headers name. get (to_ascii_lowercase name) headers;
  insert = λ headers name v. insert (to_ascii_lowercase name) v headers;
  to_str = λ v. some v;
  from_str = λ s. some s;
  from_u64 = λ n. n ∷ [];
  Uri = PlainUri;
  PathAndQuery = Str;
  path = λ uri. before_fragment uri.path;
  query = λ uri. none;
  path_and_query = λ uri. some uri.path;
  as_str = λ pq. before_fragment pq;
  host = λ uri. uri.host;
  authority = λ uri. uri.host;
  scheme = λ uri. uri.scheme;
  parse_path_and_query = λ s. some s;
  with_path_and_query = λ uri pq. some (record uri { path = pq });
  send = λ before request. some (200, (text "server", text "nginx") ∷ no_headers, some (text "ok"));
}

plain-get_ne :
    (m : Map Str) (name other v : Str) → other ≢ name → get other (insert name v m) ≡ get other m
plain-get_ne m name other v ne = elim (Bool-cases (name == other)) [
  | inl e ↦ absurd (ne (cc (eq_to name other e)))
  | inr e ↦ rw (get-insert name other v m, e) refl
]

lower_byte_twice : (b : ℕ) → lower_byte (lower_byte b) ≡ lower_byte b
lower_byte_twice b = ground arith

to_ascii_lowercase_twice :
    (s : Str) → to_ascii_lowercase (to_ascii_lowercase s) ≡ to_ascii_lowercase s
to_ascii_lowercase_twice [] = refl
to_ascii_lowercase_twice (b ∷ s) = rw (lower_byte_twice b, to_ascii_lowercase_twice s) refl

to_ascii_lowercase_name : (s : Str) → All NameByte s → to_ascii_lowercase s ≡ s
to_ascii_lowercase_name [] h = refl
to_ascii_lowercase_name (b ∷ s) h =
    let same : lower_byte b ≡ b = elim h.0 [
      | inl e ↦ ground (arith, e)
      | inr l ↦ ground (arith, l)
    ] in
    rw (same, to_ascii_lowercase_name s h.1) refl

pub plain-IsHyper : IsHyper plain
plain-IsHyper = record {
  get-lower = λ m name. rw (to_ascii_lowercase_twice name) refl;
  get-insert = λ m name v h.
      rw (to_ascii_lowercase_name name h.2, get-insert name name v m, eq_refl name) refl;
  get-insert_ne = λ m name other v h ne.
      rw (to_ascii_lowercase_name name h.2) (plain-get_ne m name (to_ascii_lowercase other) v ne);
  from_str-visible = λ s h. (s, refl);
  new_v4-visible = λ n. omega arith;
}
