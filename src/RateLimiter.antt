-- ===== src/RateLimiter.antt =====
-- src/middleware/rate_limiter/token_bucket.rs: token buckets in a store that limiters share. The
-- buckets count in `f64`, which is the parameter `Float`; an instant is its nanoseconds, and
-- `Instant::now()` is an argument of each call that reads the clock. Subtraction of instants stops at
-- 0, as `duration_since` does. The key of a request and the answer 429 are the middleware's.
pub mod Ieee
pub mod Billionths
pub mod Bucket
pub mod Store
pub mod Rounding
pub mod Rate
pub mod Calls
pub mod Fixed
pub mod Waited
mod Tests
use portiq.Base.{
  ℕ, ◌-◌, Bool, true, false, List, [], ◌∷◌, Option, none, some, Str, Map, get, insert, Exec,
  returned, panicked, ltb, ◌&&◌, if◌then◌else◌,
}
use portiq.Config.{RateLimitKeySource}
use portiq.RateLimiter.Ieee.{Float}

module _ (fl : Float) where
  open fl use {F, zero, one, of_u32, as_secs_f64, add, sub, mul, div, ceil_u64, lt, ge}

  pub record TokenBucket : Type 0 where
    pub capacity : ℕ
    pub refill_rate : F
    pub available_tokens : F
    pub last_refill : ℕ

  unfoldable pub new_bucket : ℕ → F → ℕ → TokenBucket
  new_bucket capacity refill_rate now = record {
    capacity = capacity;
    refill_rate = refill_rate;
    available_tokens = of_u32 capacity;
    last_refill = now;
  }

  unfoldable pub refill : TokenBucket → ℕ → TokenBucket
  refill bucket now =
      let elapsed = as_secs_f64 (now - bucket.last_refill) in
      let tokens_to_add = mul bucket.refill_rate elapsed in
      let total_tokens = add bucket.available_tokens tokens_to_add in
      if lt zero tokens_to_add
      then record bucket {
        available_tokens =
            if lt (of_u32 bucket.capacity) total_tokens
            then of_u32 bucket.capacity
            else total_tokens;
        last_refill = now;
      }
      else bucket

  -- `TokenBucket::allow`.
  unfoldable pub take_token : TokenBucket → ℕ → Bool × TokenBucket
  take_token bucket now =
      let filled = refill bucket now in
      if ge filled.available_tokens one
      then (true, record filled { available_tokens = sub filled.available_tokens one })
      else (false, filled)

  -- `TokenBucketRateLimiter` without its store, which is shared and passed along.
  pub record Limiter : Type 0 where
    pub source : RateLimitKeySource
    pub limit : ℕ
    pub duration : ℕ

  unfoldable pub new_limiter : RateLimitKeySource → ℕ → ℕ → Exec Limiter
  new_limiter source limit duration =
      if ltb 0 limit
      then (if ltb 0 duration
          then returned (record { source = source; limit = limit; duration = duration })
          else panicked)
      else panicked

  abbrev pub or_new : Option TokenBucket → TokenBucket → TokenBucket
  or_new none bucket = bucket
  or_new (some bucket) _ = bucket

  -- `RateLimiter::allow`: `created` is the instant that a new bucket would read, `now` the one that
  -- `refill` reads.
  unfoldable pub allow : Limiter → Map TokenBucket → Str → ℕ → ℕ → Bool × Map TokenBucket
  allow limiter store key created now =
      let fresh =
        new_bucket limiter.limit (div (of_u32 limiter.limit) (as_secs_f64 limiter.duration))
          created in
      let (allowed, bucket) = take_token (or_new (get key store) fresh) now in
      (allowed, insert key bucket store)

  -- In whole seconds.
  unfoldable pub retry_after : Map TokenBucket → Str → Option ℕ
  retry_after store key = elim (get key store) [
    | none ↦ none
    | some bucket ↦
        if ge bucket.available_tokens one
        then none
        else some (ceil_u64 (div (sub one bucket.available_tokens) bucket.refill_rate))
  ]
