-- ===== src/RateLimiter/Bucket.antt =====
-- One bucket of src/middleware/rate_limiter/token_bucket.rs.
use Prim.Native.Nat.add
use native.Mathlib.Nat.{zero-add}
use portiq.Base.{
  ℕ, zero, suc, ◌+◌, ◌-◌, ◌<◌, ◌≡◌, refl, Bool, true, false, List, [], ◌∷◌, ◌++◌, replicate,
  Bool-cases, inl, inr, arith,
}
use portiq.RateLimiter.Ieee.{Float, IsIeee}
use portiq.RateLimiter.{TokenBucket, new_bucket, refill, take_token}

-- A run of calls at one instant, with the answers.
unfoldable pub takes : (fl : Float) → ℕ → TokenBucket fl → ℕ → List Bool × TokenBucket fl
takes fl zero bucket now = ([], bucket)
takes fl (suc n) bucket now =
    let (allowed, bucket') = take_token fl bucket now in
    let (later, bucket'') = takes fl n bucket' now in (allowed ∷ later, bucket'')

-- The tokens lie between 0 and the capacity, as far as `f64` compares them.
pub record InRange (fl : Float) (bucket : TokenBucket fl) : Type 0 where
  pub not_over : fl.lt (fl.of_u32 bucket.capacity) bucket.available_tokens ≡ false
  pub not_negative : fl.lt bucket.available_tokens fl.zero ≡ false

module _ (fl : Float) (ieee : IsIeee fl) where
  pub new_bucket-InRange :
      (capacity : ℕ) (rate : fl.F) (now : ℕ) → InRange fl (new_bucket fl capacity rate now)
  unfolding new_bucket
  new_bucket-InRange capacity rate now = record {
    not_over = ieee.lt_irrefl (fl.of_u32 capacity);
    not_negative = ieee.of_u32-not_lt_zero capacity;
  }

  refill-InRange :
      (bucket : TokenBucket fl) (now : ℕ) → InRange fl bucket → InRange fl (refill fl bucket now)
  unfolding refill
  refill-InRange bucket now r =
      let elapsed = fl.as_secs_f64 (now - bucket.last_refill) in
      ground (
        arith,
        ieee.lt_irrefl (fl.of_u32 bucket.capacity),
        ieee.of_u32-not_lt_zero bucket.capacity,
        ieee.add-not_lt_zero bucket.available_tokens (fl.mul bucket.refill_rate elapsed),
      )

  refill_same :
      (bucket : TokenBucket fl) (now : ℕ)
      → ((refill fl bucket now).capacity ≡ bucket.capacity)
        × ((refill fl bucket now).refill_rate ≡ bucket.refill_rate)
  unfolding refill
  refill_same bucket now = ground arith

  spend-InRange :
      (bucket : TokenBucket fl)
      → InRange fl bucket
      → fl.ge bucket.available_tokens fl.one ≡ true
      → InRange fl (record bucket { available_tokens = fl.sub bucket.available_tokens fl.one })
  spend-InRange bucket r h = record {
    not_over =
        ieee.sub_one-not_more (fl.of_u32 bucket.capacity) bucket.available_tokens r.not_over h;
    not_negative = ieee.sub_one-not_lt_zero bucket.available_tokens h;
  }

  -- A call keeps the tokens in range, and neither capacity nor rate changes.
  pub take_token-InRange :
      (bucket : TokenBucket fl) (now : ℕ)
      → InRange fl bucket
      → InRange fl (take_token fl bucket now).1
        × ((take_token fl bucket now).1.capacity ≡ bucket.capacity)
        × ((take_token fl bucket now).1.refill_rate ≡ bucket.refill_rate)
  unfolding take_token
  take_token-InRange bucket now r =
      let filled = refill-InRange bucket now r in
      let (capacity, rate) = refill_same bucket now in
      elim (Bool-cases (fl.ge (refill fl bucket now).available_tokens fl.one)) [
        | inl enough ↦
            rw enough (spend-InRange (refill fl bucket now) filled enough, capacity, rate)
        | inr few ↦ rw few (filled, capacity, rate)
      ]

  -- At the instant of its last refill a bucket is not refilled.
  refill_now : (bucket : TokenBucket fl) → refill fl bucket bucket.last_refill ≡ bucket
  unfolding refill
  refill_now bucket =
      let no_time : bucket.last_refill - bucket.last_refill ≡ 0 = omega arith in
      rw (no_time, ieee.mul-no_time bucket.refill_rate)

  -- A bucket that holds `k` tokens and was refilled at `now`.
  abbrev holding : ℕ → fl.F → ℕ → ℕ → TokenBucket fl
  holding capacity rate now k = record {
    capacity = capacity;
    refill_rate = rate;
    available_tokens = fl.of_u32 k;
    last_refill = now;
  }

  takes_none :
      (m capacity : ℕ) (rate : fl.F) (now : ℕ)
      → takes fl m (holding capacity rate now 0) now
        ≡ (replicate m false, holding capacity rate now 0)
  unfolding takes take_token
  takes_none zero capacity rate now = refl
  takes_none (suc m) capacity rate now =
      rw
        (refill_now (holding capacity rate now 0), ieee.zero-ge_one, takes_none m capacity rate now)

  takes_some :
      (k m capacity : ℕ) (rate : fl.F) (now : ℕ)
      → k < 4294967296
      → takes fl (k + m) (holding capacity rate now k) now
        ≡ (replicate k true ++ replicate m false, holding capacity rate now 0)
  unfolding takes take_token
  takes_some zero m capacity rate now h = rw (zero-add m) (takes_none m capacity rate now)
  takes_some (suc k) m capacity rate now h = rw (
    add.suc k m,
    refill_now (holding capacity rate now (suc k)),
    ieee.of_u32-ge_one k h,
    ieee.of_u32-sub_one k h,
    takes_some k m capacity rate now (omega arith),
  )

  -- A new bucket allows exactly as many calls as its capacity before time passes, and then none.
  pub takes-new_bucket :
      (capacity m : ℕ) (rate : fl.F) (now : ℕ)
      → capacity < 4294967296
      → (takes fl (capacity + m) (new_bucket fl capacity rate now) now).0
        ≡ replicate capacity true ++ replicate m false
  unfolding new_bucket
  takes-new_bucket capacity m rate now h = rw (takes_some capacity m capacity rate now h)
