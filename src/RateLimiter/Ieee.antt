-- ===== src/RateLimiter/Ieee.antt =====
-- What src/middleware/rate_limiter/token_bucket.rs uses of `f64`, with the facts of IEEE 754 that its
-- proofs rest on.
use portiq.Base.{ℕ, suc, ◌<◌, ◌≡◌, Bool, true, false}

-- The operations.
pub record Float : Type 1 where
  pub F : Type 0
  pub zero : F
  pub one : F
  pub of_u32 : ℕ → F
  pub as_secs_f64 : ℕ → F
  pub add : F → F → F
  pub sub : F → F → F
  pub mul : F → F → F
  pub div : F → F → F
  pub ceil_u64 : F → ℕ
  pub lt : F → F → Bool
  pub ge : F → F → Bool

-- The facts. A `u32` is exact in an `f64`; rounding is monotone, so that taking 1 from at least 1
-- gives neither more than before nor less than 0, and adding to what is not negative something
-- positive gives no negative number. A product with 0 is 0, or not a number, and not above 0.
pub record IsIeee (fl : Float) : Type 0 where
  pub of_u32-sub_one :
      (n : ℕ) → suc n < 4294967296 → fl.sub (fl.of_u32 (suc n)) fl.one ≡ fl.of_u32 n
  pub of_u32-ge_one : (n : ℕ) → suc n < 4294967296 → fl.ge (fl.of_u32 (suc n)) fl.one ≡ true
  pub zero-ge_one : fl.ge (fl.of_u32 0) fl.one ≡ false
  pub of_u32-not_lt_zero : (n : ℕ) → fl.lt (fl.of_u32 n) fl.zero ≡ false
  pub lt_irrefl : (x : fl.F) → fl.lt x x ≡ false
  pub mul-no_time : (x : fl.F) → fl.lt fl.zero (fl.mul x (fl.as_secs_f64 0)) ≡ false
  pub sub_one-not_more :
      (c x : fl.F) → fl.lt c x ≡ false → fl.ge x fl.one ≡ true → fl.lt c (fl.sub x fl.one) ≡ false
  pub sub_one-not_lt_zero :
      (x : fl.F) → fl.ge x fl.one ≡ true → fl.lt (fl.sub x fl.one) fl.zero ≡ false
  pub add-not_lt_zero :
      (x y : fl.F)
      → fl.lt x fl.zero ≡ false
      → fl.lt fl.zero y ≡ true
      → fl.lt (fl.add x y) fl.zero ≡ false
