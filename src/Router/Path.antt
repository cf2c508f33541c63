-- ===== src/Router/Path.antt =====
-- `Router::match_path` (src/router.rs) against the relation that it decides.
use portiq.Base.{
  ℕ, ◌-◌, ◌≡◌, ◌↔◌, inl, inr, refl, sym, ap, ◌∙◌, subst, true, false, ◌||◌, [], ◌∷◌, ◌++◌,
  append_assoc, Str, text, ◌==◌, eq_to, eq_iff, starts_with, starts_with_to, starts_with-append,
  ends_with, ends_with_to, ends_with-append, Bool-cases, if◌then◌else◌, length, length-append, take,
  arith,
}
use portiq.Router.{match_path}

abbrev pub slash : Str
slash = text "/"

abbrev pub slash_star : Str
slash_star = text "/*"

abbrev pub IsWild : Str → Type 0
IsWild rp = (p : Str) × (rp ≡ p ++ slash_star)

-- A pattern `p/*` matches a path that ends in a slash if that begins with `p/`, and any other path
-- if that begins with `p`. A pattern of another form matches itself, with or without a slash.
pub data PathMatches (path rp : Str) : Type 0 where
  exact : ¬ IsWild rp → path ≡ rp → PathMatches path rp
  trailing : ¬ IsWild rp → path ≡ rp ++ slash → PathMatches path rp
  below :
      (p t : Str)
      → rp ≡ p ++ slash_star
      → path ≡ (p ++ slash) ++ t
      → ends_with path slash ≡ true
      → PathMatches path rp
  prefixed :
      (p t : Str)
      → rp ≡ p ++ slash_star
      → path ≡ p ++ t
      → ends_with path slash ≡ false
      → PathMatches path rp

take-length : (xs ys : Str) → take (length xs) (xs ++ ys) ≡ xs
take-length [] ys = refl
take-length (x ∷ xs) ys = ap (◌∷◌ x) (take-length xs ys)

-- `s[..s.len() - 1]` drops the last byte.
take-concat : (xs : Str) (b : ℕ) → take (length (xs ++ b ∷ []) - 1) (xs ++ b ∷ []) ≡ xs
take-concat xs b =
    let len : length (xs ++ b ∷ []) - 1 ≡ length xs = omega (arith, length-append xs (b ∷ [])) in
    rw len (take-length xs (b ∷ []))

match_path-wild :
    (path p : Str)
    → match_path path (p ++ slash_star)
      ≡ (if ends_with path slash then starts_with path (p ++ slash) else starts_with path p)
unfolding match_path
match_path-wild path p =
    let split : p ++ slash_star ≡ (p ++ slash) ++ text "*" =
      sym (append_assoc p slash (text "*")) in
    let cut : take (length (p ++ slash_star) - 1) (p ++ slash_star) ≡ p ++ slash =
      rw split (take-concat (p ++ slash) b'*') in
    rw (ends_with-append p slash_star, cut, take-concat p b'/')

match_path-plain :
    (path rp : Str)
    → ends_with rp slash_star ≡ false
    → match_path path rp ≡ (path == rp || path == rp ++ slash)
unfolding match_path
match_path-plain path rp h = rw h

not-IsWild : (rp : Str) → ends_with rp slash_star ≡ false → ¬ IsWild rp
not-IsWild rp h (p, e) =
    ground
      (arith, subst (λ s. ends_with s slash_star ≡ true) (sym e) (ends_with-append p slash_star))

ends_with-of_not : (rp : Str) → ¬ IsWild rp → ends_with rp slash_star ≡ false
ends_with-of_not rp h = elim (Bool-cases (ends_with rp slash_star)) [
  | inl wild ↦ absurd (h (ends_with_to rp slash_star wild))
  | inr plain ↦ plain
]

sound_plain :
    (path rp : Str)
    → ends_with rp slash_star ≡ false
    → (path == rp || path == rp ++ slash) ≡ true
    → PathMatches path rp
sound_plain path rp plain h = elim (Bool-cases (path == rp)) [
  | inl same ↦ exact (not-IsWild rp plain) (eq_to path rp same)
  | inr differ ↦ trailing (not-IsWild rp plain) (eq_to path (rp ++ slash) (ground arith))
]

sound_wild :
    (path rp p : Str)
    → rp ≡ p ++ slash_star
    → (if ends_with path slash then starts_with path (p ++ slash) else starts_with path p) ≡ true
    → PathMatches path rp
sound_wild path rp p e h = elim (Bool-cases (ends_with path slash)) [
  | inl dir ↦ let (t, q) = starts_with_to path (p ++ slash) (rw dir at h) in below p t e q dir
  | inr file ↦ let (t, q) = starts_with_to path p (rw file at h) in prefixed p t e q file
]

match_path_sound : (path rp : Str) → match_path path rp ≡ true → PathMatches path rp
match_path_sound path rp h = elim (Bool-cases (ends_with rp slash_star)) [
  | inl wild ↦
      let (p, e) = ends_with_to rp slash_star wild in
      sound_wild path rp p e (sym (match_path-wild path p) ∙ ap (match_path path) (sym e) ∙ h)
  | inr plain ↦ sound_plain path rp plain (sym (match_path-plain path rp plain) ∙ h)
]

match_path_complete : (path rp : Str) → PathMatches path rp → match_path path rp ≡ true
match_path_complete path rp (exact n e) =
    rw (match_path-plain path rp (ends_with-of_not rp n), (eq_iff path rp).1 e)
match_path_complete path rp (trailing n e) =
    rw (match_path-plain path rp (ends_with-of_not rp n), (eq_iff path (rp ++ slash)).1 e)
      (ground arith)
match_path_complete path rp (below p t e q dir) =
    rw (e, match_path-wild path p, dir)
      (subst (λ s. starts_with s (p ++ slash) ≡ true) (sym q) (starts_with-append (p ++ slash) t))
match_path_complete path rp (prefixed p t e q file) =
    rw (e, match_path-wild path p, file)
      (subst (λ s. starts_with s p ≡ true) (sym q) (starts_with-append p t))

-- `match_path` accepts exactly the paths that the pattern matches.
pub match_path_iff : (path rp : Str) → (match_path path rp ≡ true) ↔ PathMatches path rp
match_path_iff path rp = (match_path_sound path rp, match_path_complete path rp)

-- A pattern `p/*` also matches a path that only runs on from `p`, with no slash after it.
pub match_path-no_boundary :
    (p t : Str) → ends_with (p ++ t) slash ≡ false → match_path (p ++ t) (p ++ slash_star) ≡ true
match_path-no_boundary p t h =
    match_path_complete (p ++ t) (p ++ slash_star) (prefixed p t refl refl h)
