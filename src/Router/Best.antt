-- ===== src/Router/Best.antt =====
-- `filter` and `max_by_key` as `Router::get_http_route` (src/router.rs) chains them.
use portiq.Base.{
  ℕ, ◌≤◌, ◌<◌, ◌≡◌, inl, inr, refl, sym, ap, ◌∙◌, Bool, true, false, List, [], ◌∷◌, ◌++◌, none,
  some, keep, keep-true, keep-false, All, Bool-cases, ltb, arith, All-append, All-imp, append-nil,
  append_assoc, ◌⊎◌,
}
use portiq.Router.{max_from, max_by_key}

-- `best` is an element that no other beats, and that beats all after it: the last of the greatest.
pub record IsLastMax {ℓ} {A : Type ℓ} (key : A → ℕ) (P : A → Bool) (xs : List A) (best : A)
    : Type ℓ where
  pub before : List A
  pub after : List A
  pub split : xs ≡ before ++ best ∷ after
  pub holds : P best ≡ true
  pub not_beaten : All (λ x. P x ≡ true → key x ≤ key best) before
  pub beats : All (λ x. P x ≡ true → key x < key best) after

module _ {ℓ} {A : Type ℓ} (key : A → ℕ) (P : A → Bool) (xs : List A) where
  abbrev NotBeaten : A → A → Type 0
  NotBeaten best x = P x ≡ true → key x ≤ key best

  abbrev Beaten : A → A → Type 0
  Beaten best x = P x ≡ true → key x < key best

  moved :
      (before : List A) (best : A) (passed : List A) (x : A) (rest : List A)
      → xs ≡ before ++ best ∷ (passed ++ x ∷ rest)
      → xs ≡ before ++ best ∷ ((passed ++ x ∷ []) ++ rest)
  moved before best passed x rest e =
      e ∙ ap (λ r. before ++ best ∷ r) (sym (append_assoc passed (x ∷ []) rest))

  -- The loop of `max_by_key` over what is left, with the elements already passed.
  max_from-IsLastMax :
      (before : List A) (best : A) (passed rest : List A)
      → xs ≡ before ++ best ∷ (passed ++ rest)
      → P best ≡ true
      → All (NotBeaten best) before
      → All (Beaten best) passed
      → IsLastMax key P xs (max_from key best (keep P rest))
  unfolding max_from
  max_from-IsLastMax before best passed [] e p nb b = record {
    before = before;
    after = passed;
    split = e ∙ ap (λ r. before ++ best ∷ r) (append-nil passed);
    holds = p;
    not_beaten = nb;
    beats = b;
  }
  max_from-IsLastMax before best passed (x ∷ rest) e p nb b = elim (Bool-cases (P x)) [
    | inl px ↦ elim (Bool-cases (ltb (key x) (key best))) [
      | inl less ↦
          rw (keep-true P x rest px, max_from, less)
            (max_from-IsLastMax before best (passed ++ x ∷ []) rest
              (moved before best passed x rest e) p nb
              (All-append (Beaten best) passed (x ∷ []) b (λ _. ground arith, tt)))
      | inr more ↦
          let better : key best ≤ key x = ground arith in
          let earlier =
            All-append (NotBeaten x) before (best ∷ passed)
              (All-imp (NotBeaten best) (NotBeaten x) (λ y h q. omega (arith, h q)) before nb)
              (
                λ _. better,
                All-imp (Beaten best) (NotBeaten x) (λ y h q. omega (arith, h q)) passed b,
              ) in
          rw (keep-true P x rest px, max_from, more)
            (max_from-IsLastMax (before ++ best ∷ passed) x [] rest
              (e ∙ sym (append_assoc before (best ∷ passed) (x ∷ rest))) px earlier tt)
    ]
    | inr no_px ↦ rw (keep-false P x rest no_px) (
        max_from-IsLastMax before best (passed ++ x ∷ []) rest (moved before best passed x rest e) p
          nb (All-append (Beaten best) passed (x ∷ []) b (λ px. cc, tt)))
  ]

  max_by_key-keep_from :
      (before rest : List A)
      → xs ≡ before ++ rest
      → All (λ x. P x ≡ false) before
      → ((max_by_key key (keep P rest) ≡ none) × All (λ x. P x ≡ false) xs)
        ⊎ ((best : A) × (max_by_key key (keep P rest) ≡ some best) × IsLastMax key P xs best)
  unfolding max_by_key
  max_by_key-keep_from before [] e h = inl (refl, rw (e, append-nil before) h)
  max_by_key-keep_from before (x ∷ rest) e h = elim (Bool-cases (P x)) [
    | inl px ↦
        let skipped = All-imp (λ y. P y ≡ false) (NotBeaten x) (λ y q r. cc) before h in
        inr (
          max_from key x (keep P rest),
          rw (keep-true P x rest px),
          max_from-IsLastMax before x [] rest e px skipped tt,
        )
    | inr no_px ↦ rw (keep-false P x rest no_px) (
        max_by_key-keep_from (before ++ x ∷ []) rest (e ∙ sym (append_assoc before (x ∷ []) rest))
          (All-append (λ y. P y ≡ false) before (x ∷ []) h (no_px, tt)))
  ]

  -- Filtering and `max_by_key` give the last of the greatest elements that pass, if any pass.
  pub max_by_key-keep :
      ((max_by_key key (keep P xs) ≡ none) × All (λ x. P x ≡ false) xs)
      ⊎ ((best : A) × (max_by_key key (keep P xs) ≡ some best) × IsLastMax key P xs best)
  max_by_key-keep = max_by_key-keep_from [] xs refl tt
