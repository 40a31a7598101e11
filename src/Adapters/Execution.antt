-- ===== src/Adapters/Execution.antt =====
-- `AdapterExecutor` of backend/app/retailer_adapters/base/execution.py: the retry loop around one
-- operation. The attempts of an adapter are a parameter; messages, the limiter, the timeouts' clock, metrics
-- and log records are left out.
pub mod Attempts
use Prim.Native.String.{String}
use price_intelligence_india.Base.{
  ℕ, zero, suc, ◌+◌, ◌-◌, Bool, true, false, ◌&&◌, Option, none, some, List, [], ◌∷◌, ◌++◌,
  if◌then◌else◌, ltb,
}
use price_intelligence_india.Collection.Models.{AdapterErrorCode, RetailerAdapterError}
use price_intelligence_india.Domain.{Text}
use price_intelligence_india.Adapters.Retry.{
  Fraction, RetryPolicy, AdapterError, Delay, is_retryable, delay_for,
}

-- What an awaited call gives: a value, a framework error, no answer in time, or another exception.
pub data Outcome (A : Type 0) : Type 0 where
  returns : A → Outcome A
  fails : RetailerAdapterError → Outcome A
  times_out : Outcome A
  leaks : (type_name : String) → Outcome A

-- What an attempt is after `_run_attempt`: every exception is a framework error.
pub data Attempt (A : Type 0) : Type 0 where
  value : A → Attempt A
  error : RetailerAdapterError → Attempt A

-- The retailer and the operation that the executor names in an error of its own
pub record CallContext : Type 0 where
  pub retailer_id : Text
  pub operation : String

abbrev pub framework_error : CallContext → AdapterErrorCode → RetailerAdapterError
framework_error context code = record {
  code = code;
  message = "";
  retailer_id = context.retailer_id;
  operation = some context.operation;
  retry_after = none;
}

-- The fields of an error that a policy reads
abbrev pub as_policy_reads : RetailerAdapterError → AdapterError
as_policy_reads e = record { code = e.code; retry_after = e.retry_after }

-- A framework error of the hook passes as it is.
unfoldable pub run_attempt : {A : Type 0} → CallContext → Outcome A → Attempt A
run_attempt context (Outcome.returns a) = Attempt.value a
run_attempt context (Outcome.fails e) = Attempt.error e
run_attempt context Outcome.times_out =
    Attempt.error (framework_error context AdapterErrorCode.timeout)
run_attempt context (Outcome.leaks type_name) =
    Attempt.error (framework_error context AdapterErrorCode.unexpected_adapter_failure)

-- What `execute` returns or raises, after the waits between the attempts.
pub data Ending (A : Type 0) : Type 0 where
  returned : A → Ending A
  raised : RetailerAdapterError → Ending A
  assertion_error : Ending A

pub record Execution (A : Type 0) : Type 0 where
  pub ending : Ending A
  pub attempts : ℕ
  pub delays : List (Option Delay)

module _ {A : Type 0} (context : CallContext) (policy : RetryPolicy) (jitter : ℕ → Fraction)
    (call : ℕ → Outcome A) where
  abbrev pub should_retry : RetailerAdapterError → (attempt : ℕ) → Bool
  should_retry e attempt =
      is_retryable policy (as_policy_reads e) && ltb attempt policy.max_attempts

  -- What follows an attempt, given what the later attempts would do.
  unfoldable pub after_attempt :
      Attempt A
      → (attempt : ℕ) → List (Option Delay)
      → (List (Option Delay) → Execution A)
      → Execution A
  after_attempt (Attempt.value a) attempt delays later = record {
    ending = Ending.returned a;
    attempts = attempt;
    delays = delays;
  }
  after_attempt (Attempt.error e) attempt delays later =
      if should_retry e attempt
      then later (delays ++ delay_for policy (as_policy_reads e) attempt (jitter attempt) ∷ [])
      else record { ending = Ending.raised e; attempts = attempt; delays = delays }

  -- The loop from an attempt on; `left` counts the attempts that are left.
  unfoldable pub execute_from : (attempt left : ℕ) → List (Option Delay) → Execution A
  execute_from attempt zero delays = record {
    ending = Ending.assertion_error;
    attempts = attempt - 1;
    delays = delays;
  }
  execute_from attempt (suc left) delays =
      after_attempt (run_attempt context (call attempt)) attempt delays
        (λ more. execute_from (attempt + 1) left more)

  unfoldable pub execute : Execution A
  execute = execute_from 1 policy.max_attempts []
