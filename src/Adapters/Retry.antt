-- ===== src/Adapters/Retry.antt =====
-- `RetryPolicy` of backend/app/retailer_adapters/base/config.py. Seconds are counted in microseconds,
-- and a float is a fraction.
use mathlib.Core.Option.{some-injective}
use native.Mathlib.Nat.{mul-le-mul_right}
use price_intelligence_india.Base.{
  subst, ℕ, zero, suc, ◌+◌, ◌*◌, ◌^◌, ◌≤◌, ◌≡◌, min, Bool, Option, none, some, if◌then◌else◌, leb,
  arith, ◌>>=◌,
}
use price_intelligence_india.Collection.Models.{AdapterErrorCode}

pub data BackoffStrategy : Type 0 where
  fixed linear exponential : BackoffStrategy

-- A non-negative fraction
pub record Fraction : Type 0 where
  pub num : ℕ
  pub den : ℕ
  pub den_positive : 1 ≤ den

-- `initial_backoff` and `max_backoff` in microseconds
pub record RetryPolicy : Type 0 where
  pub max_attempts : ℕ
  pub backoff_strategy : BackoffStrategy
  pub initial_backoff : ℕ
  pub max_backoff : ℕ
  pub backoff_multiplier : Fraction
  pub jitter_ratio : Fraction
  pub retryable_error_codes : AdapterErrorCode → Bool
  pub max_attempts_positive : 1 ≤ max_attempts

-- `code` and `retry_after_seconds`, the fields of an error that a policy reads
pub record AdapterError : Type 0 where
  pub code : AdapterErrorCode
  pub retry_after : Option ℕ

unfoldable pub is_retryable : RetryPolicy → AdapterError → Bool
is_retryable policy error = policy.retryable_error_codes error.code

-- A wait in microseconds, as a quotient
pub record Delay : Type 0 where
  pub num : ℕ
  pub den : ℕ

abbrev base_delay : RetryPolicy → BackoffStrategy → (retries : ℕ) → Delay
base_delay policy BackoffStrategy.fixed k = record { num = policy.initial_backoff; den = 1 }
base_delay policy BackoffStrategy.linear k = record {
  num = policy.initial_backoff * suc k;
  den = 1;
}
base_delay policy BackoffStrategy.exponential k = record {
  num = policy.initial_backoff * policy.backoff_multiplier.num ^ k;
  den = policy.backoff_multiplier.den ^ k;
}

-- `min(delay, bound)`
unfoldable pub at_most : (bound : ℕ) → Delay → Delay
at_most bound d = if leb d.num (bound * d.den) then d else record { num = bound; den = 1 }

-- `max(bound, delay)`
unfoldable pub at_least : (bound : ℕ) → Delay → Delay
at_least bound d = if leb (bound * d.den) d.num then d else record { num = bound; den = 1 }

-- `capped + capped * self.jitter_ratio * jitter_fraction`
unfoldable pub jittered : (ratio fraction : Fraction) → Delay → Delay
jittered ratio fraction d = record {
  num = d.num * (ratio.den * fraction.den + ratio.num * fraction.num);
  den = d.den * (ratio.den * fraction.den);
}

-- `ValueError` for an attempt below one
unfoldable pub backoff_seconds :
    RetryPolicy → (attempt : ℕ) → (jitter_fraction : Fraction) → Option Delay
backoff_seconds policy zero jitter_fraction = none
backoff_seconds policy (suc k) jitter_fraction = some (
    jittered policy.jitter_ratio jitter_fraction
      (at_most policy.max_backoff (base_delay policy policy.backoff_strategy k)))

abbrev honouring : RetryPolicy → Option ℕ → Delay → Delay
honouring policy none computed = computed
honouring policy (some retry_after) computed =
    at_most policy.max_backoff (at_least retry_after computed)

unfoldable pub delay_for :
    RetryPolicy → AdapterError → (attempt : ℕ) → (jitter_fraction : Fraction) → Option Delay
delay_for policy error attempt jitter_fraction =
    backoff_seconds policy attempt jitter_fraction >>= λ computed.
    some (honouring policy error.retry_after computed)

-- The smaller of two bounds that is reached is reached by the delay cut to one of them.
clamped :
    (r bound : ℕ) (d : Delay)
    → r * d.den ≤ d.num
    → ((at_most bound d).num ≤ bound * (at_most bound d).den)
      × (min r bound * (at_most bound d).den ≤ (at_most bound d).num)
unfolding at_most
clamped r bound d h =
    let smaller : min r bound * d.den ≤ r * d.den = mul-le-mul_right d.den (omega arith) in
    ground (arith, smaller)

at_least-reached : (bound : ℕ) (d : Delay) → bound * (at_least bound d).den ≤ (at_least bound d).num
unfolding at_least
at_least-reached bound d = ground arith

-- After an error that names a time to wait, the wait is at most the maximal backoff, and at least the
-- time that was named, or the maximal backoff where that is shorter.
pub delay_for-bounds :
    (policy : RetryPolicy) (code : AdapterErrorCode) (retry_after attempt : ℕ)
    (jitter_fraction : Fraction) (w : Delay)
    → delay_for policy
        (record { code = code; retry_after = some retry_after })
        attempt
        jitter_fraction
      ≡ some w
    → (w.num ≤ policy.max_backoff * w.den) × (min retry_after policy.max_backoff * w.den ≤ w.num)
unfolding delay_for backoff_seconds
delay_for-bounds policy code retry_after zero jitter_fraction w h = cc
delay_for-bounds policy code retry_after (suc k) jitter_fraction w h =
    let computed =
      jittered policy.jitter_ratio jitter_fraction
        (at_most policy.max_backoff (base_delay policy policy.backoff_strategy k)) in
    subst
      (λ (d : Delay).
        (d.num ≤ policy.max_backoff * d.den) × (min retry_after policy.max_backoff * d.den ≤ d.num))
      (some-injective _ _ h)
      (clamped retry_after policy.max_backoff (at_least retry_after computed)
        (at_least-reached retry_after computed))
