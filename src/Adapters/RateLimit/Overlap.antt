-- ===== src/Adapters/RateLimit/Overlap.antt =====
-- What holds of the limiter whatever the order in which concurrent calls are served, and what a call
-- that arrives during the sleep of another does to the bucket.
use price_intelligence_india.Base.{
  ℕ, ◌+◌, ◌≤◌, ◌≡◌, refl, subst, Bool, true, Option, none, some, ◌&&◌, ltb, leb, arith, Bool-cases,
  inl, inr,
}
use price_intelligence_india.Domain.{Datetime}
use price_intelligence_india.Adapters.RateLimit.{
  RateLimitConfig, token, capacity, Bucket, replenish, pace, wake, Limiter, Step, Reachable,
}

-- A sleep is for less than one token, and buys enough for one.
abbrev pub is_covered : (tokens : ℕ) → Option ℕ → Bool
is_covered tokens none = true
is_covered tokens (some needed) = leb needed token && leb token (tokens + needed)

pub record IsPaced (config : RateLimitConfig) (l : Limiter) : Type 0 where
  pub within_burst : l.bucket.tokens ≤ capacity config
  pub within_concurrency : l.in_flight ≤ config.max_concurrent_requests
  pub covered : is_covered l.bucket.tokens l.asleep ≡ true

module _ (config : RateLimitConfig) where
  token-le-capacity : token ≤ capacity config
  token-le-capacity = omega (arith, config.burst_positive)

  within-replenish :
      (now : Datetime) (b : Bucket) → (replenish config now b).tokens ≤ capacity config
  unfolding replenish
  within-replenish now b = omega arith

  covered-replenish :
      (now : Datetime) (b : Bucket) (asleep : Option ℕ)
      → b.tokens ≤ capacity config
      → is_covered b.tokens asleep ≡ true
      → is_covered (replenish config now b).tokens asleep ≡ true
  unfolding replenish
  covered-replenish now b none h k = refl
  covered-replenish now b (some needed) h k = ground (arith, token-le-capacity)

  pace-paced :
      (now : Datetime) (b : Bucket)
      → ((pace config now b).0.tokens ≤ capacity config)
        × (is_covered (pace config now b).0.tokens (pace config now b).1 ≡ true)
  unfolding pace
  pace-paced now b = elim (Bool-cases (ltb (replenish config now b).tokens token)) [
    | inl e ↦ rw e (within-replenish now b, ground arith)
    | inr e ↦ rw e (omega (arith, within-replenish now b), refl)
  ]

  wake-paced :
      (needed : ℕ) (now : Datetime) (b : Bucket)
      → b.tokens ≤ capacity config
      → is_covered b.tokens (some needed) ≡ true
      → (wake needed now b).tokens ≤ capacity config
  unfolding wake
  wake-paced needed now b h k = ground arith

abbrev Asleep : Type 0
Asleep = Option ℕ

Step-IsPaced :
    (config : RateLimitConfig) (l m : Limiter)
    → Step config l m
    → IsPaced config l
    → IsPaced config m
Step-IsPaced config _ _ (Step.arrives now l) v = record {
  within_burst = within-replenish config now l.bucket;
  within_concurrency = v.within_concurrency;
  covered = covered-replenish config now l.bucket l.asleep v.within_burst v.covered;
}
Step-IsPaced config _ _ (Step.enters l h) v = record {
  within_burst = v.within_burst;
  within_concurrency = omega arith;
  covered = v.covered;
}
Step-IsPaced config _ _ (Step.paces now l h) v = record {
  within_burst = (pace-paced config now l.bucket).0;
  within_concurrency = v.within_concurrency;
  covered = (pace-paced config now l.bucket).1;
}
Step-IsPaced config _ _ (Step.wakes now l needed h) v = record {
  within_burst =
      wake-paced config needed now l.bucket v.within_burst
        (subst (λ (o : Asleep). is_covered l.bucket.tokens o ≡ true) h v.covered);
  within_concurrency = v.within_concurrency;
  covered = refl;
}
Step-IsPaced config _ _ (Step.releases l) v = record {
  within_burst = v.within_burst;
  within_concurrency = omega (arith, v.within_concurrency);
  covered = v.covered;
}

-- In every state that the limiter reaches, however calls overlap, the tokens are within the burst size,
-- the calls in flight are within the concurrency limit, and the sleep of a call is for at most one
-- token and buys enough to take one.
pub Reachable-IsPaced :
    (config : RateLimitConfig) (began : Datetime) (l : Limiter)
    → Reachable config began l
    → IsPaced config l
Reachable-IsPaced config began _ Reachable.begins = record {
  within_burst = omega arith;
  within_concurrency = omega arith;
  covered = refl;
}
Reachable-IsPaced config began _ (Reachable.goes l m r s) =
    Step-IsPaced config l m s (Reachable-IsPaced config began l r)
