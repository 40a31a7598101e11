-- ===== src/Collection/Tests.antt =====
-- Sample bodies of jobs, runs of the collection on them, and its theorems at these inputs.
use price_intelligence_india.Base.{
  ℕ, suc, zero, ◌+◌, ◌≤◌, ◌≡◌, refl, Bool, true, none, some, List, [], ◌∷◌, length, arith,
}
use price_intelligence_india.Domain.{Text}
use price_intelligence_india.Collection.Models.{
  CollectionJobType, success, failed, CollectionErrorCategory, AdapterErrorCode, CollectionFailure,
  Raised, Call, CollectionConfig, max_attempts,
}
use price_intelligence_india.Collection.Retry.{
  backoff_seconds, is_retryable, collection_failure_from_exception, collection_failure_from_adapter,
}
use price_intelligence_india.Collection.Jobs.{RetailerJobOutcome, run_refresh}
use price_intelligence_india.Collection.Rounds.{
  Environment, RunState, execute_with_policy, attempts_from, after_attempt, record_error,
  record_item_errors,
}
use price_intelligence_india.Collection.Rows.{Store, run_status, save_job}
use price_intelligence_india.Collection.Orchestrator.{
  new_job, finish_job, finalize_outcome, finalize_failure, execute_job, run_found, run_one_retailer,
  run_retailers, status_for_outcome,
}
use price_intelligence_india.Collection.Orchestrator.Attempts.{
  deciding, is_failure, one_if, execute_with_policy-deciding,
}
use price_intelligence_india.Collection.Orchestrator.Idempotency.{run_one_retailer-reused}

abbrev config : CollectionConfig
config = record {
  max_retries = 2;
  initial_backoff = 500_000;
  max_backoff = 30_000_000;
  multiplier_num = 2;
  multiplier_den = 1;
  multiplier_is_positive = omega arith;
  multiplier_ge_one = omega arith;
}

abbrev env : Environment
env = record {
  sanitize = λ s. some s;
  sanitize_target = λ t. t;
  message_of = λ s. s;
  operation_of = λ t. "price_refresh";
  started = 10;
  completed = 20;
  occurred = λ n. 10 + n;
  duration = 7;
}

abbrev timed_out : CollectionFailure
timed_out = record {
  message = "timed out";
  category = CollectionErrorCategory.timeout;
  retailer_id = 97 ∷ [];
  retryable = true;
  operation = none;
  operation_target = none;
}

abbrev two_prices : RetailerJobOutcome
two_prices = record { succeeded = 2; failed = 0; skipped = 1; item_errors = [] }

-- One timeout, then an outcome.
abbrev second_time : ℕ → Call RetailerJobOutcome
second_time (suc zero) = Call.raises (Raised.collection_failure timed_out)
second_time _ = Call.returns two_prices

abbrev broken : ℕ → Call RetailerJobOutcome
broken attempt = Call.raises (Raised.other_exception "ValueError")

abbrev empty_store : Store
empty_store = record { jobs = []; errors = []; sleeps = []; next_id = 1 }

abbrev key : Text
key = 107 ∷ []

abbrev slug : Text
slug = 97 ∷ []

abbrev job_type : CollectionJobType
job_type = CollectionJobType.price_refresh

-- The collection opened, for runs by evaluation.
program : Unit {0}
unfolding backoff_seconds is_retryable collection_failure_from_exception
    collection_failure_from_adapter run_refresh execute_with_policy attempts_from after_attempt
    record_error record_item_errors finish_job finalize_outcome finalize_failure execute_job
    run_found run_one_retailer run_retailers run_status status_for_outcome save_job
program = tt

second_time_succeeds :
    ((run_one_retailer env config job_type second_time slug key empty_store).1.status ≡ success)
    × (length (run_one_retailer env config job_type second_time slug key empty_store).0.errors ≡ 1)
    × ((run_one_retailer env config job_type broken slug key empty_store).1.status ≡ failed)
unfolding program
second_time_succeeds = (refl, refl, refl)

abbrev start : RunState
start = record { job = new_job env config job_type 1 slug key; errors = []; sleeps = [] }

execute_with_policy-deciding_example :
    let d = deciding second_time 1 2 in
    let (result, left) = execute_with_policy env config second_time start in
    (result ≡ second_time d)
    × (left.job.retry_count + 1 ≡ d)
    × (d ≤ max_attempts config)
    × (length left.errors + 1 ≡ length start.errors + d + one_if (is_failure (second_time d)))
    × (length left.sleeps + 1 ≡ length start.sleeps + d)
execute_with_policy-deciding_example = execute_with_policy-deciding env config second_time start

run_one_retailer-reused_example :
    let (first, r) = run_one_retailer env config job_type second_time slug key empty_store in
    let (second, again) = run_one_retailer env config job_type broken slug key first in
    (second ≡ first)
    × (again.reused_existing ≡ true)
    × (again.job_id ≡ r.job_id)
    × (again.status ≡ r.status)
unfolding program
run_one_retailer-reused_example =
    run_one_retailer-reused env config job_type second_time broken slug key empty_store refl

abbrev adapters : List (Text × Text × (ℕ → Call RetailerJobOutcome))
adapters = (slug, key, broken) ∷ (98 ∷ [], 108 ∷ [], second_time) ∷ []

abbrev item : Text → Call Bool
item [] = Call.raises (Raised.collection_failure timed_out)
item (c ∷ rest) = Call.returns true

abbrev limited : Raised
limited = Raised.adapter_error record {
  code = AdapterErrorCode.rate_limited;
  message = "slow down";
  retailer_id = 97 ∷ [];
  operation = none;
  retry_after = none;
}
