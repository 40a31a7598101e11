-- ===== src/Adapters/Tests.antt =====
-- Runs of the limiter and of the retry loop, and their theorems at these inputs.
use price_intelligence_india.Base.{
  none, ℕ, ◌+◌, ◌-◌, ◌*◌, ◌≤◌, ◌≡◌, min, refl, Bool, true, false, some, List, [], ◌∷◌, length,
  arith, ◌==◌,
}
use price_intelligence_india.Collection.Models.{AdapterErrorCode, RetailerAdapterError}
use price_intelligence_india.Adapters.RateLimit.{
  RateLimitConfig, token, capacity, full_bucket, replenish, pace, wake, Times, acquire, acquire_all,
  Limiter, fresh, Step, Reachable,
}
use price_intelligence_india.Adapters.RateLimit.Overlap.{IsPaced, Reachable-IsPaced}
use price_intelligence_india.Adapters.RateLimit.Budget.{all_keep_time, acquire_all-within_rate}
use price_intelligence_india.Adapters.Retry.{
  BackoffStrategy, Fraction, RetryPolicy, AdapterError, at_most, at_least, jittered,
  backoff_seconds, delay_for, delay_for-bounds, is_retryable,
}
use price_intelligence_india.Adapters.Execution.{
  Outcome, Ending, CallContext, run_attempt, after_attempt, execute_from, execute,
}
use price_intelligence_india.Adapters.Execution.Attempts.{ending_of, decides, execute-decides}

-- One request a second, one at a time.
abbrev config : RateLimitConfig
config = record {
  max_requests_per_minute = 60;
  burst_size = 1;
  max_concurrent_requests = 2;
  rate_positive = omega arith;
  burst_positive = omega arith;
}

abbrev second : ℕ
second = 1_000_000

-- Two calls at once: the second one sleeps for a second.
abbrev calls : List Times
calls =
    record { arrival = 0; start = 0; woken = 0 }
    ∷ record { arrival = 0; start = 0; woken = second }
    ∷ []

on_time : all_keep_time config calls (full_bucket config 0) ≡ true
unfolding acquire pace wake replenish
on_time = refl

acquire_all-within_rate_example :
    2 * token
    ≤ capacity config + ((acquire_all config calls (full_bucket config 0)).updated_at - 0) * 60
acquire_all-within_rate_example = acquire_all-within_rate config 0 calls on_time

abbrev arrived : Limiter
arrived = record (fresh config 0) { bucket = replenish config second (full_bucket config 0) }

arrived-Reachable : Reachable config 0 arrived
arrived-Reachable = Reachable.goes _ _ Reachable.begins (Step.arrives second (fresh config 0))

Reachable-IsPaced_example : IsPaced config arrived
Reachable-IsPaced_example = Reachable-IsPaced config 0 arrived arrived-Reachable

abbrev whole : ℕ → Fraction
whole n = record { num = n; den = 1; den_positive = omega arith }

abbrev is_limited : AdapterErrorCode → Bool
is_limited AdapterErrorCode.rate_limited = true
is_limited _ = false

abbrev policy : RetryPolicy
policy = record {
  max_attempts = 3;
  backoff_strategy = BackoffStrategy.exponential;
  initial_backoff = 500_000;
  max_backoff = 10_000_000;
  backoff_multiplier = whole 2;
  jitter_ratio = record { num = 1; den = 10; den_positive = omega arith };
  retryable_error_codes = is_limited;
  max_attempts_positive = omega arith;
}

abbrev limited : AdapterError
limited = record { code = AdapterErrorCode.rate_limited; retry_after = some 2_000_000 }

-- Two seconds were asked for, and half a second was computed.
waits : delay_for policy limited 1 (whole 0) ≡ some (record { num = 2_000_000; den = 1 })
unfolding delay_for backoff_seconds at_most at_least jittered
waits = refl

delay_for-bounds_example : (2_000_000 ≤ 10_000_000 * 1) × (min 2_000_000 10_000_000 * 1 ≤ 2_000_000)
delay_for-bounds_example =
    delay_for-bounds policy AdapterErrorCode.rate_limited 2_000_000 1 (whole 0)
      (record { num = 2_000_000; den = 1 }) waits

abbrev context : CallContext
context = record { retailer_id = 97 ∷ []; operation = "get_price" }

abbrev limited_error : RetailerAdapterError
limited_error = record {
  code = AdapterErrorCode.rate_limited;
  message = "";
  retailer_id = 97 ∷ [];
  operation = none;
  retry_after = some 2_000_000;
}

-- The first attempt is refused, and the second one answers.
abbrev answers : ℕ → Outcome ℕ
answers n = elim (n == 1) [ true ↦ Outcome.fails limited_error | false ↦ Outcome.returns 7 ]

second_answers : (execute context policy (λ n. whole 0) answers).ending ≡ Ending.returned 7
unfolding execute execute_from after_attempt run_attempt is_retryable
second_answers = refl

execute-decides_example :
    ((execute context policy (λ n. whole 0) answers).ending
      ≡ ending_of (run_attempt context (answers (decides context policy (λ n. whole 0) answers))))
    × ((execute context policy (λ n. whole 0) answers).attempts
        ≡ decides context policy (λ n. whole 0) answers)
    × (length (execute context policy (λ n. whole 0) answers).delays + 1
        ≡ decides context policy (λ n. whole 0) answers)
    × (decides context policy (λ n. whole 0) answers ≤ 3)
execute-decides_example = execute-decides context policy (λ n. whole 0) answers
