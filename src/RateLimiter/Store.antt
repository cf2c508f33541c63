-- ===== src/RateLimiter/Store.antt =====
-- The store of buckets (src/middleware/rate_limiter/token_bucket.rs), which every limiter that the
-- factory of src/middleware/rate_limiter/mod.rs creates shares.
use portiq.Base.{
  ℕ, ◌≡◌, ◌≢◌, refl, sym, subst, false, none, some, Str, ◌==◌, eq_to, eq_refl, Map, get, insert,
  get-insert, Bool-cases, Option-cases, inl, inr, arith, some-injective,
}
use portiq.RateLimiter.Ieee.{Float, IsIeee}
use portiq.RateLimiter.{TokenBucket, new_bucket, take_token, Limiter, or_new, allow, retry_after}
use portiq.RateLimiter.Rounding.{rate_of}
use portiq.RateLimiter.Bucket.{InRange, new_bucket-InRange, take_token-InRange}

module _ (fl : Float) where
  bucket_of : Limiter fl → Map (TokenBucket fl) → Str → ℕ → TokenBucket fl
  bucket_of limiter store key created = or_new fl (get key store) (
      new_bucket fl limiter.limit
        (fl.div (fl.of_u32 limiter.limit) (fl.as_secs_f64 limiter.duration)) created)

  allow_lem :
      (limiter : Limiter fl) (store : Map (TokenBucket fl)) (key : Str) (created now : ℕ)
      → allow fl limiter store key created now ≡ (
        (take_token fl (bucket_of limiter store key created) now).0,
        insert key (take_token fl (bucket_of limiter store key created) now).1 store,
      )
  unfolding allow bucket_of
  allow_lem limiter store key created now = refl

  -- A call under one key leaves the buckets of the others.
  pub allow-others :
      (limiter : Limiter fl) (store : Map (TokenBucket fl)) (key j : Str) (created now : ℕ)
      → j ≢ key
      → get j (allow fl limiter store key created now).1 ≡ get j store
  allow-others limiter store key j created now ne =
      rw (allow_lem limiter store key created now) (elim (Bool-cases (key == j)) [
        | inl hit ↦ absurd (ne (sym (eq_to key j hit)))
        | inr miss ↦ rw (get-insert key j _ store, miss)
      ])

  -- A limiter's own limit and period decide only about a key that no limiter has seen: once a bucket
  -- stands under the key, any two limiters of the store treat it alike.
  pub allow-same :
      (one other : Limiter fl) (store : Map (TokenBucket fl)) (key : Str) (created now : ℕ)
      → get key store ≢ none
      → allow fl one store key created now ≡ allow fl other store key created now
  unfolding bucket_of
  allow-same one other store key created now seen = elim (Option-cases (get key store)) [
    | inl e ↦ absurd (seen e)
    | inr (b, e) ↦
        rw (allow_lem one store key created now, allow_lem other store key created now)
          (rw (e, bucket_of))
  ]

  get-insert_self :
      (key : Str) (b : TokenBucket fl) (store : Map (TokenBucket fl))
      → get key (insert key b store) ≡ some b
  get-insert_self key b store = rw (get-insert key key b store, eq_refl key)

  -- A call under a key that has a bucket is a call of that bucket, whoever makes it.
  pub allow-seen :
      (limiter : Limiter fl) (store : Map (TokenBucket fl)) (key j : Str) (created now : ℕ)
      (bucket : TokenBucket fl)
      → key ≡ j
      → get j store ≡ some bucket
      → ((allow fl limiter store key created now).0 ≡ (take_token fl bucket now).0)
        × (get j (allow fl limiter store key created now).1 ≡ some (take_token fl bucket now).1)
  unfolding bucket_of
  allow-seen limiter store key j created now bucket same e =
      rw (same, allow_lem limiter store j created now, e) (refl, get-insert_self j _ store)

  -- A call under a key that has none is a call of a new bucket.
  pub allow-unseen :
      (limiter : Limiter fl) (store : Map (TokenBucket fl)) (key : Str) (created now : ℕ)
      → get key store ≡ none
      → let fresh =
          new_bucket fl limiter.limit (rate_of fl limiter.limit limiter.duration) created in
        ((allow fl limiter store key created now).0 ≡ (take_token fl fresh now).0)
        × (get key (allow fl limiter store key created now).1 ≡ some (take_token fl fresh now).1)
  unfolding bucket_of
  allow-unseen limiter store key created now e =
      rw (allow_lem limiter store key created now, e) (refl, get-insert_self key _ store)

  take_token-refused :
      (bucket : TokenBucket fl) (now : ℕ)
      → (take_token fl bucket now).0 ≡ false
      → fl.ge (take_token fl bucket now).1.available_tokens fl.one ≡ false
  unfolding take_token
  take_token-refused bucket now h = ground arith

  -- After a refusal `retry_after` has an answer for the key: the time, rounded up, in which the bucket
  -- gains what it lacks of one token.
  pub retry_after-refused :
      (limiter : Limiter fl) (store : Map (TokenBucket fl)) (key : Str) (created now : ℕ)
      → (allow fl limiter store key created now).0 ≡ false
      → (bucket : TokenBucket fl) × (get key (allow fl limiter store key created now).1
          ≡ some bucket)
        × (retry_after fl (allow fl limiter store key created now).1 key
            ≡ some
                (fl.ceil_u64 (fl.div (fl.sub fl.one bucket.available_tokens) bucket.refill_rate)))
  unfolding retry_after
  retry_after-refused limiter store key created now h =
      let bucket = (take_token fl (bucket_of limiter store key created) now).1 in
      let e = allow_lem limiter store key created now in
      let few = take_token-refused (bucket_of limiter store key created) now (rw e at h) in
      (
        bucket,
        rw e (get-insert_self key bucket store),
        rw (e, get-insert_self key bucket store, retry_after, few),
      )

  abbrev pub AllInRange : Map (TokenBucket fl) → Type 0
  AllInRange store = (key : Str) (b : TokenBucket fl) → get key store ≡ some b → InRange fl b

  module _ (ieee : IsIeee fl) where
    bucket_of-InRange :
        (limiter : Limiter fl) (store : Map (TokenBucket fl)) (key : Str) (created : ℕ)
        → AllInRange store
        → InRange fl (bucket_of limiter store key created)
    unfolding bucket_of
    bucket_of-InRange limiter store key created r = elim (Option-cases (get key store)) [
      | inl e ↦ rw e (new_bucket-InRange fl ieee limiter.limit _ created)
      | inr (b, e) ↦ rw e (r key b e)
    ]

    -- Whoever calls, under whatever key and at whatever time, all buckets of the store stay in range.
    pub allow-AllInRange :
        (limiter : Limiter fl) (store : Map (TokenBucket fl)) (key : Str) (created now : ℕ)
        → AllInRange store
        → AllInRange (allow fl limiter store key created now).1
    allow-AllInRange limiter store key created now r j b h =
        let ours = bucket_of limiter store key created in
        let kept =
          (take_token-InRange fl ieee ours now (bucket_of-InRange limiter store key created r)).0 in
        elim (Bool-cases (key == j)) [
          | inl hit ↦
              let same : (take_token fl ours now).1 ≡ b = some-injective (
                rw
                  (
                    allow_lem limiter store key created now,
                    get-insert key j (take_token fl ours now).1 store,
                    hit,
                  )
                  at h) in
              subst (InRange fl) same kept
          | inr miss ↦ r j b (
              rw
                (
                  allow_lem limiter store key created now,
                  get-insert key j (take_token fl ours now).1 store,
                  miss,
                )
                at h)
        ]
