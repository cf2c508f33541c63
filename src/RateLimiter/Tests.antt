-- ===== src/RateLimiter/Tests.antt =====
-- Token buckets (src/middleware/rate_limiter/token_bucket.rs) counted in billionths of a token, and
-- the source's own tests.
use portiq.Base.{
  ◌+◌, ◌-◌, ◌*◌, ◌≤◌, ◌≡◌, ◌≢◌, refl, arith, true, false, List, [], ◌∷◌, length, none, text, ◌==◌,
  Map, get, insert,
}
use portiq.Config.{ip_source}
use portiq.RateLimiter.Billionths.{unit, billionths, billionths-IsIeee}
use portiq.RateLimiter.{TokenBucket, new_bucket, refill, take_token, Limiter, allow}
use portiq.RateLimiter.Bucket.{takes, takes-new_bucket}
use portiq.RateLimiter.Store.{allow-same}
use portiq.RateLimiter.Rounding.{precision}
use portiq.RateLimiter.Calls.{Call, after, granted, asked, granted-le}
use portiq.RateLimiter.Waited.{allow-waited}
use portiq.RateLimiter.Fixed.{fixed, fixed-IsIeee, fixed-IsRounded}

-- Two calls in ten seconds.
abbrev limiter : Limiter billionths
limiter = record { source = ip_source none; limit = 2; duration = 10 * unit }

abbrev strict_limiter : Limiter billionths
strict_limiter = record { source = ip_source none; limit = 1; duration = 60 * unit }

abbrev fresh : TokenBucket billionths
fresh = record {
  capacity = 2;
  refill_rate = 200000000;
  available_tokens = 2 * unit;
  last_refill = 1000;
}

-- What two calls at one instant leave.
abbrev spent : Map (TokenBucket billionths)
spent = (text "10.0.0.1", record fresh { available_tokens = 0 }) ∷ []

-- `test_refills_tokens_over_time`: five seconds are one token.
refills_over_time :
    (allow billionths limiter spent (text "10.0.0.1") 1000 (1000 + 5 * unit)).0 ≡ true
unfolding allow get take_token refill new_bucket insert ◌==◌
refills_over_time = refl

blocks_before : (allow billionths limiter spent (text "10.0.0.1") 1000 (1000 + 4 * unit)).0 ≡ false
unfolding allow get take_token refill new_bucket insert ◌==◌
blocks_before = refl

takes-new_bucket_example :
    (takes billionths 3 (new_bucket billionths 2 200000000 1000) 1000).0 ≡ true ∷ true ∷ false ∷ []
takes-new_bucket_example =
    takes-new_bucket billionths billionths-IsIeee 2 1 200000000 1000 (omega arith)

spent_seen : get (text "10.0.0.1") spent ≢ none
unfolding get ◌==◌
spent_seen e = cc

one_bucket_per_key :
    allow billionths limiter spent (text "10.0.0.1") 5000 5000
    ≡ allow billionths strict_limiter spent (text "10.0.0.1") 5000 5000
one_bucket_per_key =
    allow-same billionths limiter strict_limiter spent (text "10.0.0.1") 5000 5000 spent_seen

refused_now : (allow billionths limiter spent (text "10.0.0.1") 1000 1000).0 ≡ false
unfolding allow get take_token refill new_bucket insert ◌==◌
refused_now = refl

-- Two calls per ten seconds and key; the second key is another client's.
abbrev first_call : Call fixed
first_call = record {
  limiter = record { source = ip_source none; limit = 2; duration = 10 * unit };
  key = text "10.0.0.1";
  created = 1000;
  now = 1000;
}

abbrev later_calls : List (Call fixed)
later_calls =
    record first_call { key = text "10.0.0.2"; created = 2000; now = 2000 }
    ∷ record first_call { created = 3000; now = 3000 }
    ∷ record first_call { created = 4000; now = 4000 }
    ∷ []

no_buckets : get {V = TokenBucket fixed} (text "10.0.0.1") [] ≡ none
unfolding get
no_buckets = refl

granted-le_example :
    precision * (10 * unit * granted fixed (text "10.0.0.1") (first_call ∷ later_calls) [])
    ≤ precision * (10 * unit * 2)
      + (precision * (2 * (4000 - 1000)) + 8 * (2 * (4000 - 1000)))
      + length (asked fixed (text "10.0.0.1") (first_call ∷ later_calls)) * (10 * unit * 2)
granted-le_example =
    granted-le fixed fixed-IsIeee fixed-IsRounded first_call later_calls [] 4000 (omega arith)
      no_buckets (omega arith) (omega arith)

-- Of the three calls under the key two are allowed.
two_granted : granted fixed (text "10.0.0.1") (first_call ∷ later_calls) [] ≡ 2
unfolding granted allow get take_token refill new_bucket insert ◌==◌
two_granted = refl

-- A third is allowed after six seconds.
allow-waited_example :
    (allow fixed first_call.limiter
      (after fixed (first_call ∷ later_calls) [])
      (text "10.0.0.1")
      6000004000
      6000004000).0
    ≡ true
allow-waited_example =
    allow-waited fixed fixed-IsIeee fixed-IsRounded first_call later_calls [] 4000
      first_call.limiter 6000004000 6000004000 (omega arith) no_buckets (omega arith) (omega arith)
      (omega arith)
