-- ===== src/Adapters/RateLimit/Budget.antt =====
-- How many calls the limiter admits in a time, if none interrupts another.
use price_intelligence_india.Base.{
  ℕ, suc, ◌+◌, ◌-◌, ◌*◌, ◌≤◌, ◌<◌, ◌≡◌, refl, Bool, true, false, ◌&&◌, Option, none, some, List, [],
  ◌∷◌, length, ltb, leb, arith, Bool-cases, inl, inr,
}
use price_intelligence_india.Domain.{Datetime}
use price_intelligence_india.Adapters.RateLimit.{
  RateLimitConfig, token, capacity, Bucket, full_bucket, replenish, pace, wake, Times, after_pace,
  acquire, acquire_all,
}

-- A sleep lasts at least as long as it was asked to.
abbrev slept : RateLimitConfig → Times → Option ℕ → Bool
slept config times none = true
slept config times (some needed) =
    leb times.start times.woken
    && leb needed ((times.woken - times.start) * config.max_requests_per_minute)

-- The clock does not run backwards between the readings of one call, and none is before the last
-- update of the bucket.
abbrev pub keeps_time : RateLimitConfig → Times → Bucket → Bool
keeps_time config times b =
    leb b.updated_at times.arrival
    && leb times.arrival times.start
    && slept config times (pace config times.start (replenish config times.arrival b)).1

abbrev pub all_keep_time : RateLimitConfig → List Times → Bucket → Bool
all_keep_time config [] b = true
all_keep_time config (times ∷ rest) b =
    keeps_time config times b && all_keep_time config rest (acquire config times b)

refill_add : (r a b c : ℕ) → a ≤ b → b ≤ c → (b - a) * r + (c - b) * r ≡ (c - a) * r
refill_add r a b c h k = grind arith

-- From `b` to `c`, `n` tokens were taken from what was there and what was refilled.
record IsWithin (config : RateLimitConfig) (b : Bucket) (n : ℕ) (c : Bucket) : Type 0 where
  taken :
      c.tokens + n * token
      ≤ b.tokens + (c.updated_at - b.updated_at) * config.max_requests_per_minute
  later : b.updated_at ≤ c.updated_at

module _ (config : RateLimitConfig) where
  IsWithin-trans :
      (b c d : Bucket) (m n k : ℕ)
      → m + n ≡ k
      → IsWithin config b m c
      → IsWithin config c n d
      → IsWithin config b k d
  IsWithin-trans b c d m n k e v w = record {
    taken = omega (
      arith,
      e,
      v.taken,
      w.taken,
      refill_add config.max_requests_per_minute b.updated_at c.updated_at d.updated_at v.later
          w.later,
    );
    later = omega (arith, v.later, w.later);
  }

  updated_at-replenish : (now : Datetime) (b : Bucket) → (replenish config now b).updated_at ≡ now
  unfolding replenish
  updated_at-replenish now b = refl

  replenish-IsWithin :
      (now : Datetime) (b : Bucket)
      → b.updated_at ≤ now
      → IsWithin config b 0 (replenish config now b)
  unfolding replenish
  replenish-IsWithin now b h = record { taken = omega arith; later = h }

  take-IsWithin :
      (b : Bucket)
      → ltb b.tokens token ≡ false
      → IsWithin config b 1 (record b { tokens = b.tokens - token })
  take-IsWithin b h =
      let enough : token ≤ b.tokens = ground arith in
      record { taken = omega arith; later = omega arith }

  wake-IsWithin :
      (b : Bucket) (woken : Datetime)
      → ltb b.tokens token ≡ true
      → b.updated_at ≤ woken
      → token - b.tokens ≤ (woken - b.updated_at) * config.max_requests_per_minute
      → IsWithin config b 1 (wake (token - b.tokens) woken b)
  unfolding wake
  wake-IsWithin b woken h later k =
      let few : b.tokens < token = ground arith in record { taken = omega arith; later = later }

  paced-IsWithin :
      (times : Times) (b : Bucket)
      → b.updated_at ≡ times.start
      → slept config times (some (token - b.tokens)) ≡ true
      → ltb b.tokens token ≡ true
      → IsWithin config b 1 (wake (token - b.tokens) times.woken b)
  paced-IsWithin times b e k h =
      wake-IsWithin b times.woken h (rw e (ground arith)) (rw e (ground arith))

  pace-IsWithin :
      (times : Times) (b : Bucket)
      → b.updated_at ≤ times.start
      → slept config times (pace config times.start b).1 ≡ true
      → IsWithin config b 1 (after_pace times.woken (pace config times.start b))
  unfolding pace
  pace-IsWithin times b h k =
      let b' = replenish config times.start b in
      let first = replenish-IsWithin times.start b h in
      elim (Bool-cases (ltb b'.tokens token)) [
        | inl e ↦
            let k' = rw e at k in
            rw e (
              IsWithin-trans b b' _ 0 1 1 refl first
                (paced-IsWithin times b' (updated_at-replenish times.start b) k' e))
        | inr e ↦ rw e (IsWithin-trans b b' _ 0 1 1 refl first (take-IsWithin b' e))
      ]

  acquire-IsWithin :
      (times : Times) (b : Bucket)
      → keeps_time config times b ≡ true
      → IsWithin config b 1 (acquire config times b)
  unfolding acquire
  acquire-IsWithin times b h =
      let b' = replenish config times.arrival b in
      let arrived : b.updated_at ≤ times.arrival = ground arith in
      let started : b'.updated_at ≤ times.start =
        rw (updated_at-replenish times.arrival b) (ground arith) in
      IsWithin-trans b b' _ 0 1 1 refl (replenish-IsWithin times.arrival b arrived)
        (pace-IsWithin times b' started (ground arith))

  acquire_all-IsWithin :
      (all_times : List Times) (b : Bucket)
      → all_keep_time config all_times b ≡ true
      → IsWithin config b (length all_times) (acquire_all config all_times b)
  acquire_all-IsWithin [] b h = record { taken = omega arith; later = omega arith }
  acquire_all-IsWithin (times ∷ rest) b h =
      IsWithin-trans b (acquire config times b) _ 1 (length rest) (suc (length rest)) (omega arith)
        (acquire-IsWithin times b (ground arith))
        (acquire_all-IsWithin rest (acquire config times b) (ground arith))

  -- Calls that do not overlap are admitted within the published rate: over the whole run of a limiter
  -- that starts full, at most the burst size and what the elapsed time refills at
  -- `max_requests_per_minute`, if the clock never runs backwards and every sleep lasts as long as it
  -- was asked to.
  pub acquire_all-within_rate :
      (began : Datetime) (all_times : List Times)
      → all_keep_time config all_times (full_bucket config began) ≡ true
      → length all_times * token
        ≤ capacity config
          + ((acquire_all config all_times (full_bucket config began)).updated_at - began)
            * config.max_requests_per_minute
  acquire_all-within_rate began all_times h =
      let v = acquire_all-IsWithin all_times (full_bucket config began) h in omega (arith, v.taken)
