-- ===== src/Config/Seen.antt =====
-- The sets `seen_listeners` and `seen_services` of `GatewayConfig::validate` (src/config.rs): names
-- put in one by one, each rejected if it is there already.
use portiq.Base.{
  ◌≡◌, ◌↔◌, ◌⊎◌, inl, inr, sym, true, false, List, [], ◌∷◌, Str, ◌==◌, eq_to, eq_iff, contains, Any,
  here, there, All, Bool-cases, arith,
}

abbrev pub Named : Str → List Str → Type 0
Named k = Any (λ j. j ≡ k)

abbrev pub Distinct : List Str → Type 0
Distinct [] = Unit
Distinct (x ∷ xs) = (¬ Named x xs) × Distinct xs

contains_sound : (s : List Str) (k : Str) → contains s k ≡ true → Named k s
unfolding contains
contains_sound [] k h = cc
contains_sound (j ∷ s) k h = elim (Bool-cases (j == k)) [
  | inl hit ↦ here (eq_to j k hit)
  | inr miss ↦ there (contains_sound s k (rw miss at h))
]

contains_complete : (k : Str) {s : List Str} → Named k s → contains s k ≡ true
unfolding contains
contains_complete k (here {x = j} {xs = s} e) = rw ((eq_iff j k).1 e)
contains_complete k (there {x = j} {xs = s} m) = ground (arith, contains_complete k m)

pub contains_iff : (s : List Str) (k : Str) → (contains s k ≡ true) ↔ Named k s
contains_iff s k = (contains_sound s k, contains_complete k)

pub contains-false_iff : (s : List Str) (k : Str) → (contains s k ≡ false) ↔ (¬ Named k s)
contains-false_iff s k = (
  λ h m. ground (arith, contains_complete k m),
  λ n. elim (Bool-cases (contains s k)) [ inl h ↦ absurd (n (contains_sound s k h)) | inr h ↦ h ],
)

-- The set after the names have been put in.
unfoldable pub onto : List Str → List Str → List Str
onto [] seen = seen
onto (x ∷ xs) seen = onto xs (x ∷ seen)

abbrev pub FreshFrom : List Str → List Str → Type 0
FreshFrom seen [] = Unit
FreshFrom seen (x ∷ xs) = (¬ Named x seen) × FreshFrom (x ∷ seen) xs

onto-Named_sound :
    (k : Str) (xs seen : List Str) → Named k (onto xs seen) → Named k xs ⊎ Named k seen
unfolding onto
onto-Named_sound k [] seen m = inr m
onto-Named_sound k (x ∷ xs) seen m = elim (onto-Named_sound k xs (x ∷ seen) m) [
  | inl later ↦ inl (there later)
  | inr (here e) ↦ inl (here e)
  | inr (there earlier) ↦ inr earlier
]

onto-Named_complete :
    (k : Str) (xs seen : List Str) → Named k xs ⊎ Named k seen → Named k (onto xs seen)
unfolding onto
onto-Named_complete k [] seen (inl m) = elim m [ ]
onto-Named_complete k [] seen (inr m) = m
onto-Named_complete k (x ∷ xs) seen (inl (here e)) =
    onto-Named_complete k xs (x ∷ seen) (inr (here e))
onto-Named_complete k (x ∷ xs) seen (inl (there m)) = onto-Named_complete k xs (x ∷ seen) (inl m)
onto-Named_complete k (x ∷ xs) seen (inr m) = onto-Named_complete k xs (x ∷ seen) (inr (there m))

pub contains-onto_iff : (k : Str) (xs : List Str) → (contains (onto xs []) k ≡ true) ↔ Named k xs
contains-onto_iff k xs = (
  λ h. elim (onto-Named_sound k xs [] (contains_sound _ k h)) [ inl m ↦ m | inr m ↦ elim m [ ] ],
  λ m. contains_complete k (onto-Named_complete k xs [] (inl m)),
)

unnamed : (x : Str) (seen xs : List Str) → All (λ y. ¬ Named y (x ∷ seen)) xs → ¬ Named x xs
unnamed x seen [] h m = elim m [ ]
unnamed x seen (y ∷ ys) h (here e) = h.0 (here (sym e))
unnamed x seen (y ∷ ys) h (there m) = unnamed x seen ys h.1 m

outside :
    (x : Str) (seen xs : List Str)
    → All (λ y. ¬ Named y (x ∷ seen)) xs
    → All (λ y. ¬ Named y seen) xs
outside x seen [] h = tt
outside x seen (y ∷ ys) h = (λ m. h.0 (there m), outside x seen ys h.1)

inside :
    (x : Str) (seen xs : List Str)
    → All (λ y. ¬ Named y seen) xs
    → ¬ Named x xs
    → All (λ y. ¬ Named y (x ∷ seen)) xs
inside x seen [] h n = tt
inside x seen (y ∷ ys) h n = (apart, inside x seen ys h.1 (λ m. n (there m)))
  where
    apart : ¬ Named y (x ∷ seen)
    apart (here e) = n (here (sym e))
    apart (there m) = h.0 m

FreshFrom-sound :
    (seen xs : List Str) → FreshFrom seen xs → All (λ y. ¬ Named y seen) xs × Distinct xs
FreshFrom-sound seen [] h = (tt, tt)
FreshFrom-sound seen (x ∷ xs) h =
    let (apart, distinct) = FreshFrom-sound (x ∷ seen) xs h.1 in
    ((h.0, outside x seen xs apart), (unnamed x seen xs apart, distinct))

FreshFrom-complete :
    (seen xs : List Str) → All (λ y. ¬ Named y seen) xs → Distinct xs → FreshFrom seen xs
FreshFrom-complete seen [] h d = tt
FreshFrom-complete seen (x ∷ xs) h d =
    (h.0, FreshFrom-complete (x ∷ seen) xs (inside x seen xs h.1 d.0) d.1)

none-Named : (xs : List Str) → All (λ y. ¬ Named y []) xs
none-Named [] = tt
none-Named (x ∷ xs) = (λ m. elim m [ ], none-Named xs)

pub FreshFrom-nil_iff : (xs : List Str) → FreshFrom [] xs ↔ Distinct xs
FreshFrom-nil_iff xs =
    (λ h. (FreshFrom-sound [] xs h).1, λ d. FreshFrom-complete [] xs (none-Named xs) d)
