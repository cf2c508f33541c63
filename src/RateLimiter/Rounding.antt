-- ===== src/RateLimiter/Rounding.antt =====
-- How far the `f64` of src/middleware/rate_limiter/token_bucket.rs may be off: the facts of IEEE 754 on
-- rounding to nearest, by which the rate of a bucket is bounded. Every `f64` that is not negative is a
-- multiple of 2^-1074, the smallest positive one, and is measured by how often it has that; a negative
-- number and NaN count as 0, infinity as 2^1024.
use portiq.Base.{ℕ, ◌+◌, ◌*◌, ◌≤◌, ◌<◌, ◌≡◌, true, false}
use portiq.RateLimiter.Ieee.{Float}

-- A rounding changes a number by at most one part in 2^53.
abbrev pub precision : ℕ
precision = 9007199254740992

-- Where a `Duration` ends, in nanoseconds.
abbrev pub duration_end : ℕ
duration_end = 18446744073709551616000000000

module _ (fl : Float) where
  -- The rate that `TokenBucketRateLimiter::allow` gives a new bucket.
  abbrev pub rate_of : ℕ → ℕ → fl.F
  rate_of limit duration = fl.div (fl.of_u32 limit) (fl.as_secs_f64 duration)

  -- The facts. A `u32` and taking 1 from what is between 1 and a `u32` are exact; a sum is off by at
  -- most half a unit in its last place. What a rate gains in a time takes at most eight roundings:
  -- a quotient and a product, and for each duration its seconds, its nanoseconds and their sum.
  pub record IsRounded : Type 0 where
    pub units : fl.F → ℕ
    pub per_one : ℕ
    pub per_one_pos : 0 < per_one
    pub of_u32-units : (n : ℕ) → n < 4294967296 → units (fl.of_u32 n) ≡ n * per_one
    pub lt-units : (x y : fl.F) → fl.lt x y ≡ true → units x ≤ units y
    pub not_lt-units :
        (n : ℕ) (x : fl.F) → n < 4294967296 → fl.lt (fl.of_u32 n) x ≡ false → units x ≤ n * per_one
    pub sub_one-units :
        (n : ℕ) (x : fl.F)
        → n < 4294967296
        → fl.lt (fl.of_u32 n) x ≡ false
        → fl.ge x fl.one ≡ true
        → units (fl.sub x fl.one) + per_one ≡ units x
    pub add-units :
        (x y : fl.F)
        → precision * units (fl.add x y) ≤ precision * (units x + units y) + units (fl.add x y)
    pub gain_upper :
        (n d e : ℕ)
        → n < 4294967296
        → 0 < d
        → d < duration_end
        → e < duration_end
        → precision * (d * units (fl.mul (rate_of n d) (fl.as_secs_f64 e)))
          ≤ precision * (n * e * per_one) + 8 * (n * e * per_one)
    pub gain_lower :
        (n d e : ℕ)
        → n < 4294967296
        → 0 < d
        → d < duration_end
        → e < duration_end
        → precision * (n * e * per_one)
          ≤ precision * (d * units (fl.mul (rate_of n d) (fl.as_secs_f64 e)))
            + 8 * (n * e * per_one)
    pub ge_one-of_units : (x : fl.F) → per_one ≤ units x → fl.ge x fl.one ≡ true
    pub lt_zero-of_units : (x : fl.F) → 0 < units x → fl.lt fl.zero x ≡ true
    -- A number that is not negative is one: it is not smaller than before with another added.
    pub of_u32-ge_zero : (n : ℕ) → fl.ge (fl.of_u32 n) fl.zero ≡ true
    pub sub_one-ge_zero :
        (x : fl.F) → fl.ge x fl.one ≡ true → fl.ge (fl.sub x fl.one) fl.zero ≡ true
    pub add-ge_zero :
        (x y : fl.F)
        → fl.ge x fl.zero ≡ true
        → fl.lt fl.zero y ≡ true
        → (fl.ge (fl.add x y) fl.zero ≡ true) × (units y ≤ units (fl.add x y))
