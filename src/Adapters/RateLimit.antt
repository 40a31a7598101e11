-- ===== src/Adapters/RateLimit.antt =====
-- `TokenBucketRateLimiter` of backend/app/retailer_adapters/base/rate_limit.py. Time is in
-- microseconds, and tokens are counted in the 60 000 000th part of a token, so that every microsecond
-- refills `max_requests_per_minute` of them: a float is taken for the exact number.
pub mod Overlap
pub mod Budget
use price_intelligence_india.Base.{
  ℕ, ◌+◌, ◌-◌, ◌*◌, ◌≤◌, ◌<◌, min, ◌≡◌, Bool, true, false, ◌&&◌, Option, none, some, List, [], ◌∷◌,
  if◌then◌else◌, ltb, leb,
}
use price_intelligence_india.Domain.{Datetime}

pub record RateLimitConfig : Type 0 where
  pub max_requests_per_minute : ℕ
  pub burst_size : ℕ
  pub max_concurrent_requests : ℕ
  pub rate_positive : 1 ≤ max_requests_per_minute
  pub burst_positive : 1 ≤ burst_size

-- One token
abbrev pub token : ℕ
token = 60_000_000

abbrev pub capacity : RateLimitConfig → ℕ
capacity config = config.burst_size * token

pub record Bucket : Type 0 where
  pub tokens : ℕ
  pub updated_at : Datetime

-- `__init__`
abbrev pub full_bucket : RateLimitConfig → Datetime → Bucket
full_bucket config now = record { tokens = capacity config; updated_at = now }

-- `max(0.0, now - self._updated_at)` is the subtraction that stops at zero.
unfoldable pub replenish : RateLimitConfig → Datetime → Bucket → Bucket
replenish config now b = record {
  tokens = min (capacity config) (b.tokens + (now - b.updated_at) * config.max_requests_per_minute);
  updated_at = now;
}

-- `_pace` up to its sleep: the bucket, and what the sleep has to buy, if there is one. The sleep is
-- for `needed` over the refill rate.
unfoldable pub pace : RateLimitConfig → Datetime → Bucket → Bucket × Option ℕ
pace config now b =
    let b' = replenish config now b in
    if ltb b'.tokens token
    then (b', some (token - b'.tokens))
    else (record b' { tokens = b'.tokens - token }, none)

-- `_pace` after its sleep
unfoldable pub wake : (needed : ℕ) → Datetime → Bucket → Bucket
wake needed now b = record { tokens = b.tokens + needed - token; updated_at = now }

-- The times that one call of `acquire` reads: on its arrival, in `_pace`, and after the sleep.
pub record Times : Type 0 where
  pub arrival : Datetime
  pub start : Datetime
  pub woken : Datetime

abbrev pub after_pace : Datetime → Bucket × Option ℕ → Bucket
after_pace woken (b, none) = b
after_pace woken (b, some needed) = wake needed woken b

-- `acquire` that no other call interrupts
unfoldable pub acquire : RateLimitConfig → Times → Bucket → Bucket
acquire config times b =
    after_pace times.woken (pace config times.start (replenish config times.arrival b))

abbrev pub acquire_all : RateLimitConfig → List Times → Bucket → Bucket
acquire_all config [] b = b
acquire_all config (times ∷ rest) b = acquire_all config rest (acquire config times b)

-- The limiter with its semaphore and its lock: the calls in flight, and what the call that holds the
-- lock sleeps for, if one does.
pub record Limiter : Type 0 where
  pub bucket : Bucket
  pub in_flight : ℕ
  pub asleep : Option ℕ

abbrev pub fresh : RateLimitConfig → Datetime → Limiter
fresh config now = record { bucket = full_bucket config now; in_flight = 0; asleep = none }

-- What may happen to the limiter, in any order. A call that arrives replenishes the bucket before it
-- waits for the semaphore; the lock is held over the sleep.
pub data Step (config : RateLimitConfig) : Limiter → Limiter → Type 0 where
  arrives :
      (now : Datetime) (l : Limiter)
      → Step config l (record l { bucket = replenish config now l.bucket })
  enters :
      (l : Limiter)
      → l.in_flight < config.max_concurrent_requests
      → Step config l (record l { in_flight = l.in_flight + 1 })
  paces :
      (now : Datetime) (l : Limiter)
      → l.asleep ≡ none
      → Step config l (record l {
        bucket = (pace config now l.bucket).0;
        asleep = (pace config now l.bucket).1;
      })
  wakes :
      (now : Datetime) (l : Limiter) (needed : ℕ)
      → l.asleep ≡ some needed
      → Step config l (record l { bucket = wake needed now l.bucket; asleep = none })
  releases : (l : Limiter) → Step config l (record l { in_flight = l.in_flight - 1 })

pub data Reachable (config : RateLimitConfig) (began : Datetime) : Limiter → Type 0 where
  begins : Reachable config began (fresh config began)
  goes : (l m : Limiter) → Reachable config began l → Step config l m → Reachable config began m
