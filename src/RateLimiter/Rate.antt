-- ===== src/RateLimiter/Rate.antt =====
-- One bucket of src/middleware/rate_limiter/token_bucket.rs over time: how many calls it allows, up to
-- the rounding of `f64`.
use portiq.Base.{
  one_if, ℕ, ◌+◌, ◌-◌, ◌*◌, ◌≤◌, ◌<◌, ◌≡◌, refl, ap, true, false, List, [], ◌∷◌, All, length,
  Bool-cases, leb, leb→le, inl, inr, arith,
}
use native.Mathlib.Nat.{mul-le-mul_left}
use portiq.RateLimiter.Ieee.{Float, IsIeee}
use portiq.RateLimiter.Rounding.{IsRounded, rate_of, precision, duration_end}
use portiq.RateLimiter.{TokenBucket, new_bucket, refill, take_token}

-- A run of calls at these instants: how many are allowed, and what they leave.
unfoldable pub pass : (fl : Float) → List ℕ → TokenBucket fl → ℕ × TokenBucket fl
pass fl [] bucket = (0, bucket)
pass fl (now ∷ instants) bucket =
    let (allowed, bucket') = take_token fl bucket now in
    let (count, bucket'') = pass fl instants bucket' in (one_if allowed + count, bucket'')

-- A limit of 32 bits, a duration, and instants in the range of durations.
abbrev pub InBounds : ℕ → ℕ → ℕ → Type 0
InBounds limit duration last =
    (limit < 4294967296) × (0 < duration) × (duration < duration_end) × (last < duration_end)

-- A bucket of a limiter with this limit and duration, which was last refilled by `now`.
pub record IsOf (fl : Float) (limit duration now : ℕ) (bucket : TokenBucket fl) : Type 0 where
  pub capacity : bucket.capacity ≡ limit
  pub rate : bucket.refill_rate ≡ rate_of fl limit duration
  pub not_over : fl.lt (fl.of_u32 limit) bucket.available_tokens ≡ false
  pub not_negative : fl.ge bucket.available_tokens fl.zero ≡ true
  pub not_later : bucket.last_refill ≤ now

-- One refill in numbers, multiplied by the duration.
scaled :
    (d u x g c gain : ℕ)
    → precision * u ≤ precision * (x + g) + c
    → precision * (d * g) ≤ gain
    → precision * (d * u) ≤ precision * (d * x) + gain + d * c
scaled d u x g c gain h k = omega (arith, mul-le-mul_left d h)

module _ (fl : Float) (ieee : IsIeee fl) (rounds : IsRounded fl) (limit duration : ℕ) where
  open rounds use {units, per_one}

  pub new_bucket-IsOf :
      (now last : ℕ)
      → now ≤ last
      → IsOf fl limit duration last (new_bucket fl limit (rate_of fl limit duration) now)
  unfolding new_bucket
  new_bucket-IsOf now last h = record {
    capacity = refl;
    rate = refl;
    not_over = ieee.lt_irrefl (fl.of_u32 limit);
    not_negative = rounds.of_u32-ge_zero limit;
    not_later = h;
  }

  -- Time that has not passed adds nothing.
  gain-advances :
      (rate : fl.F) (now before : ℕ)
      → fl.lt fl.zero (fl.mul rate (fl.as_secs_f64 (now - before))) ≡ true
      → before ≤ now
  gain-advances rate now before h = elim (Bool-cases (leb before now)) [
    | inl e ↦ leb→le before now e
    | inr e ↦
        let none : now - before ≡ 0 = ground arith in
        let h' = rw none at h in cc (ieee.mul-no_time rate)
  ]

  refill-IsOf :
      (bucket : TokenBucket fl) (now last : ℕ)
      → IsOf fl limit duration last bucket
      → now ≤ last
      → IsOf fl limit duration last (refill fl bucket now)
  unfolding refill
  refill-IsOf bucket now last b k =
      let gained = fl.mul bucket.refill_rate (fl.as_secs_f64 (now - bucket.last_refill)) in
      ground (
        arith,
        ieee.lt_irrefl (fl.of_u32 limit),
        rounds.of_u32-ge_zero limit,
        rounds.add-ge_zero bucket.available_tokens gained,
      )

  -- What a refill adds, in the time by which it moves the bucket on.
  refill-units :
      (bucket : TokenBucket fl) (now last : ℕ)
      → IsOf fl limit duration last bucket
      → now ≤ last
      → InBounds limit duration last
      → let bucket' = refill fl bucket now in
        let elapsed = bucket'.last_refill - bucket.last_refill in
        (bucket.last_refill ≤ bucket'.last_refill)
        × (precision * (duration * units bucket'.available_tokens)
            ≤ precision * (duration * units bucket.available_tokens)
              + (precision * (limit * elapsed * per_one) + 8 * (limit * elapsed * per_one))
              + duration * (limit * per_one))
  unfolding refill
  refill-units bucket now last b h bounds =
      let (word, some_time, ends, instants_end) = bounds in
      let gained = fl.mul bucket.refill_rate (fl.as_secs_f64 (now - bucket.last_refill)) in
      let total = fl.add bucket.available_tokens gained in
      let sum = rounds.add-units bucket.available_tokens gained in
      elim (Bool-cases (fl.lt fl.zero gained)) [
        | inr e ↦ rw e (omega arith)
        | inl e ↦
            let rise : precision * (duration * units gained)
                ≤ precision * (limit * (now - bucket.last_refill) * per_one)
                  + 8 * (limit * (now - bucket.last_refill) * per_one) =
              rw b.rate (
                rounds.gain_upper limit duration (now - bucket.last_refill) word some_time ends
                  (omega arith)) in
            elim (Bool-cases (fl.lt (fl.of_u32 limit) total)) [
              | inl full ↦
                  let over = rounds.lt-units (fl.of_u32 limit) total full in
                  let exact = rounds.of_u32-units limit word in
                  rw (e, b.capacity, full)
                    (
                      gain-advances bucket.refill_rate now bucket.last_refill e,
                      scaled duration (units (fl.of_u32 limit)) (units bucket.available_tokens)
                          (units gained) (limit * per_one) _ (omega arith) rise,
                    )
              | inr fits ↦
                  let under = rounds.not_lt-units limit total word fits in
                  rw (e, b.capacity, fits)
                    (
                      gain-advances bucket.refill_rate now bucket.last_refill e,
                      scaled duration (units total) (units bucket.available_tokens) (units gained)
                          (limit * per_one) _ (omega arith) rise,
                    )
            ]
      ]

  pub take_token-IsOf :
      (bucket : TokenBucket fl) (now last : ℕ)
      → IsOf fl limit duration last bucket
      → now ≤ last
      → IsOf fl limit duration last (take_token fl bucket now).1
  unfolding take_token
  take_token-IsOf bucket now last b h =
      let filled = refill fl bucket now in
      let f = refill-IsOf bucket now last b h in
      ground (
        arith,
        f,
        ieee.sub_one-not_more (fl.of_u32 limit) filled.available_tokens,
        rounds.sub_one-ge_zero filled.available_tokens,
      )

  -- A call takes what it allows from the tokens.
  take_token-units :
      (bucket : TokenBucket fl) (now last : ℕ)
      → IsOf fl limit duration last bucket
      → now ≤ last
      → limit < 4294967296
      → let filled = refill fl bucket now in
        let (allowed, bucket') = take_token fl bucket now in
        (bucket'.last_refill ≡ filled.last_refill)
        × (units bucket'.available_tokens + one_if allowed * per_one
            ≡ units filled.available_tokens)
  unfolding take_token
  take_token-units bucket now last b h word =
      let filled = refill fl bucket now in
      let f = refill-IsOf bucket now last b h in
      let exact = rounds.sub_one-units limit filled.available_tokens word f.not_over in
      elim (Bool-cases (fl.ge filled.available_tokens fl.one)) [
        | inl e ↦ let taken = exact e in rw e (refl, omega arith)
        | inr e ↦ rw e (refl, omega arith)
      ]

  -- Two parts of the time gain no more than the whole.
  gain-add :
      (e e' whole : ℕ)
      → e + e' ≤ whole
      → limit * e * per_one + limit * e' * per_one ≤ limit * whole * per_one
  gain-add e e' whole h = omega (arith, mul-le-mul_left (limit * per_one) h)

  pub pass-IsOf :
      (instants : List ℕ) (bucket : TokenBucket fl) (last : ℕ)
      → All (λ now. now ≤ last) instants
      → IsOf fl limit duration last bucket
      → IsOf fl limit duration last (pass fl instants bucket).1
  unfolding pass
  pass-IsOf [] bucket last h b = b
  pass-IsOf (now ∷ instants) bucket last h b =
      pass-IsOf instants (take_token fl bucket now).1 last h.1
        (take_token-IsOf bucket now last b h.0)

  -- What a run allows is what the bucket held, and gains in the time, up to the roundings.
  pub pass-units :
      (instants : List ℕ) (bucket : TokenBucket fl) (last : ℕ)
      → All (λ now. now ≤ last) instants
      → IsOf fl limit duration last bucket
      → InBounds limit duration last
      → let elapsed = last - bucket.last_refill in
        precision * (duration * ((pass fl instants bucket).0 * per_one))
        ≤ precision * (duration * units bucket.available_tokens)
          + (precision * (limit * elapsed * per_one) + 8 * (limit * elapsed * per_one))
          + length instants * (duration * (limit * per_one))
  unfolding pass
  pass-units [] bucket last h b bounds = omega arith
  pass-units (now ∷ instants) bucket last h b bounds =
      let (allowed, bucket') = take_token fl bucket now in
      let b' = take_token-IsOf bucket now last b h.0 in
      let (moved, taken) = take_token-units bucket now last b h.0 bounds.0 in
      let (on, gained) = refill-units bucket now last b h.0 bounds in
      let later = pass-units instants bucket' last h.1 b' bounds in
      let whole =
        gain-add ((refill fl bucket now).last_refill - bucket.last_refill)
          (last - bucket'.last_refill) (last - bucket.last_refill) (omega (arith, b'.not_later)) in
      let paid = ap (λ (t : ℕ). duration * t) taken in omega (arith, later, gained, whole, paid)
