-- ===== src/RateLimiter/Fixed.antt =====
-- An instance of what the rate limiter (src/middleware/rate_limiter/token_bucket.rs) uses of `f64` that
-- is near enough for its rate: arithmetic with sixty decimals.
use native.Mathlib.Nat.{div-mul-le_self, lt-div-mul-add, mul-le-mul_left}
use portiq.Base.{ℕ, zero, suc, ◌+◌, ◌-◌, ◌*◌, ◌/◌, ◌≤◌, ◌<◌, refl, arith, ltb, leb}
use portiq.RateLimiter.Ieee.{Float, IsIeee}
use portiq.RateLimiter.Rounding.{IsRounded, precision, duration_end}

abbrev pub whole : ℕ
whole = 1000000000000000000000000000000000000000000000000000000000000

abbrev pub nanosecond : ℕ
nanosecond = 1000000000000000000000000000000000000000000000000000

abbrev pub fixed : Float
fixed = record {
  F = ℕ;
  zero = 0;
  one = whole;
  of_u32 = λ n. n * whole;
  as_secs_f64 = λ d. d * nanosecond;
  add = λ x y. x + y;
  sub = λ x y. x - y;
  mul = λ x y. x * y / whole;
  div = λ x y. x * whole / y;
  ceil_u64 = λ x. (x + 999999999999999999999999999999999999999999999999999999999999) / whole;
  lt = ltb;
  ge = λ x y. leb y x;
}

pub fixed-IsIeee : IsIeee fixed
fixed-IsIeee = record {
  of_u32-sub_one = λ n h. ground arith;
  of_u32-ge_one = λ n h. ground arith;
  zero-ge_one = refl;
  of_u32-not_lt_zero = λ n. ground arith;
  lt_irrefl = λ x. ground arith;
  mul-no_time = λ x. ground arith;
  sub_one-not_more = λ c x h k. ground arith;
  sub_one-not_lt_zero = λ x h. ground arith;
  add-not_lt_zero = λ x y h k. ground arith;
}

-- What a rate gains in a time: a quotient and a product, each rounded down.
abbrev gain : ℕ → ℕ → ℕ → ℕ
gain n d e = n * whole * whole / (d * nanosecond) * (e * nanosecond) / whole

gain-upper : (n d e : ℕ) → d * gain n d e ≤ n * e * whole
gain-upper n d e =
    let rate = n * whole * whole / (d * nanosecond) in
    let rate_le = div-mul-le_self (n * whole * whole) (d * nanosecond) in
    let gain_le = div-mul-le_self (rate * (e * nanosecond)) whole in
    omega (arith, mul-le-mul_left d gain_le, mul-le-mul_left e rate_le)

-- What the two roundings down have lost.
gain-lost :
    (n d e : ℕ)
    → 0 < d
    → n * e * whole * whole ≤ d * gain n d e * whole + d * whole + e * d * nanosecond
gain-lost n d e some_time =
    let rate = n * whole * whole / (d * nanosecond) in
    let some_units : 0 < d * nanosecond = omega arith in
    let rate_lt = lt-div-mul-add {a = n * whole * whole} some_units in
    let gain_lt = lt-div-mul-add {a = rate * (e * nanosecond)} {b = whole} (omega arith) in
    let rate_le : n * whole * whole ≤ rate * (d * nanosecond) + d * nanosecond = omega arith in
    let gain_le : rate * (e * nanosecond) ≤ gain n d e * whole + whole = omega arith in
    omega (arith, mul-le-mul_left d gain_le, mul-le-mul_left e rate_le)

gain-lower :
    (n d e : ℕ)
    → 0 < d
    → d < duration_end
    → precision * (n * e * whole) ≤ precision * (d * gain n d e) + 8 * (n * e * whole)
gain-lower zero d e some_time ends = omega arith
gain-lower (suc n) d zero some_time ends = omega arith
gain-lower (suc n) d (suc e) some_time ends =
    let long : d ≤ duration_end = omega arith in
    omega (
      arith,
      gain-lost (suc n) d (suc e) some_time,
      mul-le-mul_left (suc e) long,
      mul-le-mul_left (n * suc e) long,
    )

pub fixed-IsRounded : IsRounded fixed
fixed-IsRounded = record {
  units = λ x. x;
  per_one = whole;
  per_one_pos = omega arith;
  of_u32-units = λ n h. refl;
  lt-units = λ x y h. ground arith;
  not_lt-units = λ n x h k. ground arith;
  sub_one-units = λ n x h k l. ground arith;
  add-units = λ x y. omega arith;
  gain_upper = λ n d e h some_time ends ends'. omega (arith, gain-upper n d e);
  gain_lower = λ n d e h some_time ends ends'. gain-lower n d e some_time ends;
  ge_one-of_units = λ x h. ground arith;
  lt_zero-of_units = λ x h. ground arith;
  of_u32-ge_zero = λ n. ground arith;
  sub_one-ge_zero = λ x h. ground arith;
  add-ge_zero = λ x y h k. (ground arith, ground arith);
}
