-- ===== src/RateLimiter/Waited.antt =====
-- How long a client of src/middleware/rate_limiter/token_bucket.rs waits at most for the next call that
-- is allowed.
use native.Mathlib.Nat.{mul-le-mul_left, mul-le-mul_right, le_of_mul-le-mul_left}
use portiq.Base.{
  ℕ, zero, suc, ◌+◌, ◌-◌, ◌*◌, ◌≤◌, ◌<◌, ◌≡◌, refl, true, List, ◌∷◌, none, Map, get, All, arith,
}
use portiq.RateLimiter.Ieee.{Float, IsIeee}
use portiq.RateLimiter.Rounding.{IsRounded, precision}
use portiq.RateLimiter.{TokenBucket, refill, take_token, Limiter, allow}
use portiq.RateLimiter.Store.{allow-seen}
use portiq.RateLimiter.Rate.{InBounds, IsOf, new_bucket-IsOf, pass-IsOf}
use portiq.RateLimiter.Calls.{Call, after, asked, asked-All, granted-pass_new}

-- The time in which a limit gives one token in a duration, and eight roundings more.
abbrev pub IsEnough : ℕ → ℕ → ℕ → Type 0
IsEnough limit duration time =
    precision * duration + 8 * (limit * time) ≤ precision * (limit * time)

-- In such a time, and in any longer one, the gain is at least a token.
whole_token :
    (limit d time longer gained p : ℕ)
    → 0 < d
    → IsEnough limit d time
    → time ≤ longer
    → precision * (limit * longer * p) ≤ precision * (d * gained) + 8 * (limit * longer * p)
    → p ≤ gained
whole_token limit d time longer gained p some_time enough h rise =
    let grown = mul-le-mul_left limit h in
    let due : precision * d + 8 * (limit * longer) ≤ precision * (limit * longer) = omega arith in
    let due' = mul-le-mul_right p due in
    le_of_mul-le-mul_left {k = d} (omega (arith, due', rise)) some_time

some_limit : (limit d time : ℕ) → 0 < d → IsEnough limit d time → 1 ≤ limit
some_limit zero d time some_time enough = absurd (omega arith)
some_limit (suc limit) d time some_time enough = omega arith

module _ (fl : Float) (ieee : IsIeee fl) (rounds : IsRounded fl) where
  open rounds use {units, per_one}

  take_token-waited :
      (limit duration last now : ℕ) (bucket : TokenBucket fl)
      → InBounds limit duration now
      → IsOf fl limit duration last bucket
      → IsEnough limit duration (now - last)
      → (take_token fl bucket now).0 ≡ true
  unfolding take_token refill
  take_token-waited limit duration last now bucket bounds b enough =
      let (word, some_time, ends, instants_end) = bounds in
      let elapsed = now - bucket.last_refill in
      let gained = fl.mul bucket.refill_rate (fl.as_secs_f64 elapsed) in
      let total = fl.add bucket.available_tokens gained in
      let rise : precision * (limit * elapsed * per_one)
          ≤ precision * (duration * units gained) + 8 * (limit * elapsed * per_one) =
        rw b.rate (rounds.gain_lower limit duration elapsed word some_time ends (omega arith)) in
      let token =
        whole_token limit duration (now - last) elapsed (units gained) per_one some_time enough
          (omega arith) rise in
      let positive = rounds.lt_zero-of_units gained (omega (arith, rounds.per_one_pos)) in
      let grown = (rounds.add-ge_zero bucket.available_tokens gained b.not_negative positive).1 in
      let one_more = rounds.ge_one-of_units total (omega arith) in
      let some_tokens = some_limit limit duration (now - last) some_time enough in
      let full = rounds.ge_one-of_units (fl.of_u32 limit) (
        rw (rounds.of_u32-units limit word)
          (omega (arith, mul-le-mul_right per_one some_tokens))) in
      ground (arith, positive, one_more, full)

  -- If floats behave as documented: after any calls from the first under a key that has no bucket, by
  -- a limiter of a 32-bit limit, and with durations and instants in their range, whoever calls
  -- whatever keys in between, a call under the key is allowed once all of them are past for the time
  -- in which the limit of that limiter gives one token, and eight roundings more.
  pub allow-waited :
      (c : Call fl) (calls : List (Call fl)) (store : Map (TokenBucket fl)) (last : ℕ)
      (limiter : Limiter fl) (created now : ℕ)
      → InBounds c.limiter.limit c.limiter.duration now
      → get c.key store ≡ none
      → c.created ≤ last
      → All (λ c'. c'.now ≤ last) (c ∷ calls)
      → IsEnough c.limiter.limit c.limiter.duration (now - last)
      → (allow fl limiter (after fl (c ∷ calls) store) c.key created now).0 ≡ true
  allow-waited c calls store last limiter created now bounds e h k enough =
      let limit = c.limiter.limit in
      let duration = c.limiter.duration in
      let times = asked fl c.key (c ∷ calls) in
      let b =
        pass-IsOf fl ieee rounds limit duration times _ last (asked-All fl c.key (c ∷ calls) last k)
          (new_bucket-IsOf fl ieee rounds limit duration c.created last h) in
      let stands = (granted-pass_new fl c calls store e).1 in
      rw
        (allow-seen fl limiter (after fl (c ∷ calls) store) c.key c.key created now _ refl stands).0
        (take_token-waited limit duration last now _ bounds b enough)
