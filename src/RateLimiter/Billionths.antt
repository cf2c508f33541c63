-- ===== src/RateLimiter/Billionths.antt =====
-- An instance of what the rate limiter (src/middleware/rate_limiter/token_bucket.rs) uses of `f64`: exact
-- arithmetic in billionths.
use portiq.Base.{ℕ, ◌+◌, ◌-◌, ◌*◌, ◌/◌, refl, arith, ltb, leb}
use portiq.RateLimiter.Ieee.{Float, IsIeee}

abbrev pub unit : ℕ
unit = 1000000000

-- Exact arithmetic in billionths, rounded down; a duration is its nanoseconds.
abbrev pub billionths : Float
billionths = record {
  F = ℕ;
  zero = 0;
  one = unit;
  of_u32 = λ n. n * unit;
  as_secs_f64 = λ d. d;
  add = λ x y. x + y;
  sub = λ x y. x - y;
  mul = λ x y. x * y / unit;
  div = λ x y. x * unit / y;
  ceil_u64 = λ x. (x + 999999999) / unit;
  lt = ltb;
  ge = λ x y. leb y x;
}

pub billionths-IsIeee : IsIeee billionths
billionths-IsIeee = record {
  of_u32-sub_one = λ n h. ground arith;
  of_u32-ge_one = λ n h. ground arith;
  zero-ge_one = refl;
  of_u32-not_lt_zero = λ n. ground arith;
  lt_irrefl = λ x. ground arith;
  mul-no_time = λ x. ground arith;
  sub_one-not_more = λ c x h k. ground arith;
  sub_one-not_lt_zero = λ x h. ground arith;
  add-not_lt_zero = λ x y h k. ground arith;
}
