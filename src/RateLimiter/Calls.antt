-- ===== src/RateLimiter/Calls.antt =====
-- Runs of calls on the store that the limiters share (src/middleware/rate_limiter/token_bucket.rs):
-- how many calls under one key are allowed in a time, and that one is allowed again after a time.
use portiq.Base.{
  one_if, ℕ, ◌+◌, ◌-◌, ◌*◌, ◌≤◌, ◌<◌, ◌≡◌, ◌≢◌, refl, List, [], ◌∷◌, ◌&&◌, none, some, Str, ◌==◌,
  eq_to, eq_refl, Map, get, All, length, Bool-cases, inl, inr, if◌then◌else◌, arith,
}
use native.Mathlib.Nat.{zero-add, le_of_mul-le-mul_right}
use portiq.RateLimiter.Ieee.{Float, IsIeee}
use portiq.RateLimiter.Rounding.{IsRounded, rate_of, precision}
use portiq.RateLimiter.{TokenBucket, new_bucket, take_token, Limiter, allow}
use portiq.RateLimiter.Store.{allow-seen, allow-unseen, allow-others}
use portiq.RateLimiter.Rate.{InBounds, pass, new_bucket-IsOf, pass-units}

-- A bound in tokens from one in the measure of `f64`.
per_token :
    (count limit d e calls p : ℕ)
    → 0 < p
    → precision * (d * (count * p))
      ≤ precision * (d * (limit * p))
        + (precision * (limit * e * p) + 8 * (limit * e * p))
        + calls * (d * (limit * p))
    → precision * (d * count)
      ≤ precision * (d * limit) + (precision * (limit * e) + 8 * (limit * e)) + calls * (d * limit)
per_token count limit d e calls p some_p h =
    le_of_mul-le-mul_right {k = p} (omega (arith, h)) some_p

module _ (fl : Float) where
  -- A call of `allow` by some limiter of the store.
  pub record Call : Type 0 where
    pub limiter : Limiter fl
    pub key : Str
    pub created : ℕ
    pub now : ℕ

  -- What a run of calls leaves.
  unfoldable pub after : List Call → Map (TokenBucket fl) → Map (TokenBucket fl)
  after [] store = store
  after (c ∷ calls) store = after calls (allow fl c.limiter store c.key c.created c.now).1

  -- How many of the calls under a key are allowed.
  unfoldable pub granted : Str → List Call → Map (TokenBucket fl) → ℕ
  granted key [] store = 0
  granted key (c ∷ calls) store =
      let (allowed, store') = allow fl c.limiter store c.key c.created c.now in
      one_if (c.key == key && allowed) + granted key calls store'

  -- The instants of the calls under a key.
  unfoldable pub asked : Str → List Call → List ℕ
  asked key [] = []
  asked key (c ∷ calls) = if c.key == key then c.now ∷ asked key calls else asked key calls

  pub asked-All :
      (key : Str) (calls : List Call) (last : ℕ)
      → All (λ c. c.now ≤ last) calls
      → All (λ now. now ≤ last) (asked key calls)
  unfolding asked
  asked-All key [] last h = tt
  asked-All key (c ∷ calls) last h = elim (Bool-cases (c.key == key)) [
    | inl e ↦ rw e (h.0, asked-All key calls last h.1)
    | inr e ↦ rw e (asked-All key calls last h.1)
  ]

  -- Once a bucket stands under the key, the calls under it are a run of this bucket.
  pub granted-pass :
      (key : Str) (calls : List Call) (store : Map (TokenBucket fl)) (bucket : TokenBucket fl)
      → get key store ≡ some bucket
      → (granted key calls store ≡ (pass fl (asked key calls) bucket).0)
        × (get key (after calls store) ≡ some (pass fl (asked key calls) bucket).1)
  unfolding granted after asked pass
  granted-pass key [] store bucket e = (refl, e)
  granted-pass key (c ∷ calls) store bucket e =
      let store' = (allow fl c.limiter store c.key c.created c.now).1 in
      elim (Bool-cases (c.key == key)) [
        | inl hit ↦
            let seen =
              allow-seen fl c.limiter store c.key key c.created c.now bucket (eq_to c.key key hit)
                e in
            let rest = granted-pass key calls store' (take_token fl bucket c.now).1 seen.1 in
            rw (hit, seen.0, rest.0) (refl, rest.1)
        | inr miss ↦
            let other : key ≢ c.key = λ same. cc (same, miss, eq_refl c.key) in
            let kept = allow-others fl c.limiter store c.key key c.created c.now other in
            rw (miss, zero-add) (granted-pass key calls store' bucket (rw kept e))
      ]

  -- From the first call under the key, they are a run of the bucket that this call makes.
  pub granted-pass_new :
      (c : Call) (calls : List Call) (store : Map (TokenBucket fl))
      → get c.key store ≡ none
      → let fresh =
          new_bucket fl c.limiter.limit (rate_of fl c.limiter.limit c.limiter.duration) c.created in
        (granted c.key (c ∷ calls) store ≡ (pass fl (asked c.key (c ∷ calls)) fresh).0)
        × (get c.key (after (c ∷ calls) store) ≡ some (pass fl (asked c.key (c ∷ calls)) fresh).1)
  unfolding granted after asked pass
  granted-pass_new c calls store e =
      let (first, made) = allow-unseen fl c.limiter store c.key c.created c.now e in
      let rest = granted-pass c.key calls _ _ made in
      rw (eq_refl c.key, first, rest.0) (refl, rest.1)

  module _ (ieee : IsIeee fl) (rounds : IsRounded fl) where
    -- If floats behave as documented: from the first call under a key that has no bucket, by a limiter
    -- of a 32-bit limit, and with durations and instants in their range, whoever calls whatever keys
    -- in between, the calls under the key that are allowed are at most the limit of that limiter and
    -- what the limit gives in the time, but for eight roundings of the latter, and for each call one
    -- rounding of the limit.
    pub granted-le :
        (c : Call) (calls : List Call) (store : Map (TokenBucket fl)) (last : ℕ)
        → InBounds c.limiter.limit c.limiter.duration last
        → get c.key store ≡ none
        → c.created ≤ last
        → All (λ c'. c'.now ≤ last) (c ∷ calls)
        → let limit = c.limiter.limit in
          let duration = c.limiter.duration in
          let elapsed = last - c.created in
          precision * (duration * granted c.key (c ∷ calls) store)
          ≤ precision * (duration * limit)
            + (precision * (limit * elapsed) + 8 * (limit * elapsed))
            + length (asked c.key (c ∷ calls)) * (duration * limit)
    unfolding new_bucket
    granted-le c calls store last bounds e h k =
        let limit = c.limiter.limit in
        let duration = c.limiter.duration in
        let per_one = rounds.per_one in
        let fresh = new_bucket fl limit (rate_of fl limit duration) c.created in
        let b = new_bucket-IsOf fl ieee rounds limit duration c.created last h in
        let bound =
          pass-units fl ieee rounds limit duration (asked c.key (c ∷ calls)) fresh last
            (asked-All c.key (c ∷ calls) last k) b bounds in
        let full = rounds.of_u32-units limit bounds.0 in
        rw (granted-pass_new c calls store e).0 (
          per_token _ limit duration (last - c.created) _ per_one rounds.per_one_pos
            (rw full at bound))
