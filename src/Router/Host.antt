-- ===== src/Router/Host.antt =====
-- `Router::match_host` (src/router.rs) against the relation that it decides.
use portiq.Base.{
  ℕ, ◌≡◌, ◌≢◌, ◌↔◌, inl, inr, refl, sym, ap, ◌∙◌, subst, Bool, true, false, not, ◌&&◌, List, [],
  ◌∷◌, ◌++◌, Option, none, some, Str, text, ◌==◌, eq_to, eq_iff, some-injective, strip_prefix,
  strip_prefix_iff, ends_with, ends_with_to, ends_with-append, Any, here, there, All, Bool-cases,
  Option-cases, if◌then◌else◌, length, length-append, arith,
}
use portiq.Router.{match_host}

abbrev pub star_dot : Str
star_dot = text "*."

-- A pattern `*.s` matches what ends in `s` with something before it; any other matches itself.
pub data HostMatches (host rh : Str) : Type 0 where
  exact : ((s : Str) → rh ≢ star_dot ++ s) → rh ≡ host → HostMatches host rh
  wildcard : (x s : Str) → rh ≡ star_dot ++ s → x ≢ [] → host ≡ x ++ s → HostMatches host rh

append_self : (x s : Str) → x ++ s ≡ s → x ≡ []
append_self [] s e = refl
append_self (a ∷ x) s e = absurd (omega (arith, ap length e, length-append x s))

suffix_test :
    (host s : Str) (x : Str) → x ≢ [] → host ≡ x ++ s → (ends_with host s && not (host == s)) ≡ true
suffix_test host s x ne e = elim (Bool-cases (host == s)) [
  | inl same ↦ absurd (ne (append_self x s (sym e ∙ eq_to host s same)))
  | inr differ ↦
      rw differ (ground (arith, subst (λ h. ends_with h s ≡ true) (sym e) (ends_with-append x s)))
]

suffix_found :
    (host s : Str)
    → (ends_with host s && not (host == s)) ≡ true
    → (x : Str) × (x ≢ []) × (host ≡ x ++ s)
suffix_found host s h =
    let (x, e) = ends_with_to host s (ground arith) in
    (x, λ n. let same = (eq_iff host s).1 (e ∙ ap (λ y. y ++ s) n) in ground (arith, same), e)

-- The test of one pattern.
abbrev host_test : Str → Str → Bool
host_test host rh = elim (strip_prefix star_dot rh) [
  | some suffix ↦ ends_with host suffix && not (host == suffix)
  | none ↦ rh == host
]

host_test_sound : (host rh : Str) → host_test host rh ≡ true → HostMatches host rh
host_test_sound host rh h = elim (Option-cases (strip_prefix star_dot rh)) [
  | inl e ↦
      exact (λ s q. cc (e, (strip_prefix_iff star_dot rh s).1 q))
        (eq_to rh host (rw (e, host_test) at h))
  | inr (s, e) ↦
      let (x, ne, q) = suffix_found host s (rw (e, host_test) at h) in
      wildcard x s ((strip_prefix_iff star_dot rh s).0 e) ne q
]

host_test_complete : (host rh : Str) → HostMatches host rh → host_test host rh ≡ true
host_test_complete host rh (exact plain same) = elim (Option-cases (strip_prefix star_dot rh)) [
  | inl e ↦ rw (e, host_test) ((eq_iff rh host).1 same)
  | inr (s, e) ↦ absurd (plain s ((strip_prefix_iff star_dot rh s).0 e))
]
host_test_complete host rh (wildcard x s q ne e) =
    rw ((strip_prefix_iff star_dot rh s).1 q, host_test) (suffix_test host s x ne e)

match_host-cons :
    (host rh : Str) (rest : List Str)
    → match_host host (rh ∷ rest) ≡ (if host_test host rh then true else match_host host rest)
unfolding match_host
match_host-cons host rh rest = elim (Option-cases (strip_prefix star_dot rh)) [
  | inl e ↦ rw (e, match_host, host_test)
  | inr (s, e) ↦ rw (e, match_host, host_test)
]

match_host_sound :
    (host : Str) (router_hosts : List Str)
    → match_host host router_hosts ≡ true
    → Any (HostMatches host) router_hosts
unfolding match_host
match_host_sound host [] h = cc
match_host_sound host (rh ∷ rest) h = elim (Bool-cases (host_test host rh)) [
  | inl hit ↦ here (host_test_sound host rh hit)
  | inr miss ↦ there (match_host_sound host rest (rw (match_host-cons host rh rest, miss) at h))
]

match_host_complete :
    (host : Str) {router_hosts : List Str}
    → Any (HostMatches host) router_hosts
    → match_host host router_hosts ≡ true
match_host_complete host (here {x = rh} {xs = rest} m) =
    rw (match_host-cons host rh rest, host_test_complete host rh m)
match_host_complete host (there {x = rh} {xs = rest} later) =
    rw (match_host-cons host rh rest) (ground (arith, match_host_complete host later))

-- `match_host` accepts exactly the hosts that some pattern of the list matches.
pub match_host_iff :
    (host : Str) (router_hosts : List Str)
    → (match_host host router_hosts ≡ true) ↔ Any (HostMatches host) router_hosts
match_host_iff host router_hosts = (match_host_sound host router_hosts, match_host_complete host)

-- A wildcard pattern's suffix need not start at a label: `*.s` accepts `x` and `s` run together,
-- for every `x` but the empty one.
pub match_host-no_boundary :
    (x s : Str) (before after : List Str)
    → x ≢ []
    → match_host (x ++ s) (before ++ (star_dot ++ s) ∷ after) ≡ true
match_host-no_boundary x s [] after ne =
    match_host_complete (x ++ s) (here (wildcard x s refl ne refl))
match_host-no_boundary x s (rh ∷ before) after ne =
    rw (match_host-cons (x ++ s) rh (before ++ (star_dot ++ s) ∷ after))
      (ground (arith, match_host-no_boundary x s before after ne))

-- A pattern that ends in another byte than `b`, and is not `*.` alone.
abbrev pub EndsOtherThan : ℕ → Str → Type 0
EndsOtherThan b rh = (r : Str) × (a : ℕ) × (rh ≡ r ++ a ∷ []) × (a ≢ b) × (rh ≢ star_dot)

last? : Str → Option ℕ
last? [] = none
last? (a ∷ []) = some a
last? (a ∷ b ∷ s) = last? (b ∷ s)

last?-append : (s : Str) (a : ℕ) (t : Str) → last? (s ++ a ∷ t) ≡ last? (a ∷ t)
unfolding last?
last?-append [] a t = refl
last?-append (b ∷ []) a t = refl
last?-append (b ∷ c ∷ s) a t = last?-append (c ∷ s) a t

other_end-not-HostMatches :
    (h : Str) (b : ℕ) (rh : Str) → EndsOtherThan b rh → ¬ HostMatches (h ++ b ∷ []) rh
unfolding last?
other_end-not-HostMatches h b rh (r, a, e, ne, _) (exact _ same) =
    ne (some-injective (sym (last?-append r a []) ∙ ap last? (sym e ∙ same) ∙ last?-append h b []))
other_end-not-HostMatches h b rh (r, a, e, ne, bare) (wildcard x [] q _ _) = bare q
other_end-not-HostMatches h b rh (r, a, e, ne, bare) (wildcard x (c ∷ s) q _ host) = ne (
    some-injective (
      sym (last?-append r a [])
      ∙ ap last? (sym e ∙ q)
      ∙ last?-append star_dot c s
      ∙ sym (last?-append x c s)
      ∙ ap last? (sym host)
      ∙ last?-append h b []))

other_end-none :
    (h : Str) (b : ℕ) {router_hosts : List Str}
    → All (EndsOtherThan b) router_hosts
    → ¬ Any (HostMatches (h ++ b ∷ [])) router_hosts
other_end-none h b all (here {x = rh} m) = other_end-not-HostMatches h b rh all.0 m
other_end-none h b all (there m) = other_end-none h b all.1 m

-- A host that ends in a byte in which no pattern ends, as the digit of a port does, is not matched,
-- whatever stands before.
pub match_host-other_end :
    (h : Str) (b : ℕ) (router_hosts : List Str)
    → All (EndsOtherThan b) router_hosts
    → match_host (h ++ b ∷ []) router_hosts ≡ false
match_host-other_end h b router_hosts all =
    elim (Bool-cases (match_host (h ++ b ∷ []) router_hosts)) [
      | inl hit ↦ absurd (other_end-none h b all (match_host_sound _ router_hosts hit))
      | inr miss ↦ miss
    ]
