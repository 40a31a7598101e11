-- ===== src/Collection/Orchestrator.antt =====
-- backend/app/collectors/orchestrator.py: `CollectionOrchestrator`. The body of a job at each attempt
-- is a parameter: it is what the adapter, the limiter and the timeouts let happen. Metrics, log
-- records and the flushes of the session are left out.
pub mod Attempts
pub mod Lifecycle
pub mod Idempotency
use Prim.Native.String.{String}
use price_intelligence_india.Base.{
  ℕ, zero, suc, ◌+◌, ◌-◌, Bool, true, false, ◌&&◌, ◌||◌, not, Option, none, some, List, [], ◌∷◌,
  ◌++◌, map, all, any, length, head?, filter, if◌then◌else◌, ltb, ◌==◌, is_some,
}
use price_intelligence_india.Domain.{Text, Uuid, Datetime}
use price_intelligence_india.Pricing.Ranking.{same_text}
use price_intelligence_india.Collection.Models.{
  CollectionJobType, CollectionJobStatus, pending, running, success, partial_success, failed,
  CollectionErrorCategory, CollectionFailure, Raised, Call, CollectionConfig, max_attempts,
  CollectionJob, CollectionErrorRow,
}
use price_intelligence_india.Collection.Retry.{
  is_retryable, backoff_seconds, Wait, collection_failure_from_exception,
}
use price_intelligence_india.Collection.Jobs.{RetailerJobOutcome}
use price_intelligence_india.Collection.Rounds.{
  RunState, Environment, error_row, record_error, record_item_errors, begin_attempt, sleep,
  after_attempt, attempts_from, execute_with_policy,
}
use price_intelligence_india.Collection.Rows.{
  is_terminal_success, RetailerRunResult, Store, has_key, get_by_idempotency_key, add_job, save_job,
  is_failed, has_status, is_success, is_partial, run_status,
}

unfoldable pub status_for_outcome : RetailerJobOutcome → CollectionJobStatus
status_for_outcome o =
    if ltb 0 o.failed && ltb 0 o.succeeded
    then partial_success
    else if ltb 0 o.failed
    then failed
    else success

abbrev last_error : List CollectionFailure → Option CollectionFailure
last_error [] = none
last_error (e ∷ []) = some e
last_error (e ∷ next ∷ rest) = last_error (next ∷ rest)

module _ (env : Environment) where
  -- `_finalize_failure`
  unfoldable pub finalize_failure : CollectionJob → CollectionFailure → CollectionJob
  finalize_failure job error = record job {
    status = failed;
    completed_at = some env.completed;
    duration = some env.duration;
    error_category = some error.category;
    error_message = env.sanitize error.message;
  }

  -- The error fields of a job whose body returned.
  abbrev pub recorded_error :
      CollectionJobStatus → List CollectionFailure → Option CollectionFailure
  recorded_error status item_errors = if is_failed status then last_error item_errors else none

  unfoldable pub finalize_outcome : CollectionJob → RetailerJobOutcome → CollectionJob
  unfolding status_for_outcome
  finalize_outcome job outcome =
      let status = status_for_outcome outcome in
      let error = recorded_error status outcome.item_errors in
      record job {
        status = status;
        completed_at = some env.completed;
        duration = some env.duration;
        error_category = elim error [ none ↦ none | some e ↦ some e.category ];
        error_message = elim error [ none ↦ none | some e ↦ env.sanitize e.message ];
      }

  abbrev result_of : CollectionJob → (succeeded failures skipped : ℕ) → RetailerRunResult
  result_of job succeeded failures skipped = record {
    retailer_id = job.retailer_id;
    job_id = some job.id;
    status = job.status;
    idempotency_key = job.idempotency_key;
    reused_existing = false;
    succeeded = succeeded;
    failed = failures;
    skipped = skipped;
  }

  -- The object of the job after the `try` statement, its rows, and the result.
  unfoldable pub finish_job :
      CollectionConfig → Call RetailerJobOutcome → RunState → RunState × RetailerRunResult
  unfolding finalize_failure finalize_outcome record_item_errors
  finish_job config (Call.returns outcome) s =
      let recorded = record_item_errors env config s outcome.item_errors (s.job.retry_count + 1) in
      let job = finalize_outcome recorded.job outcome in
      (
        record recorded { job = job },
        result_of job outcome.succeeded outcome.failed outcome.skipped,
      )
  finish_job config (Call.raises raised) s =
      let error =
        collection_failure_from_exception env.message_of raised s.job.retailer_id
          (env.operation_of s.job.job_type) none in
      let job = finalize_failure s.job error in (record s { job = job }, result_of job 0 1 0)

  module _ (config : CollectionConfig) (job_type : CollectionJobType) where
    abbrev pub new_job : Uuid → Text → Text → CollectionJob
    new_job id retailer_id key = record {
      id = id;
      job_type = job_type;
      retailer_id = retailer_id;
      status = pending;
      started_at = none;
      completed_at = none;
      duration = none;
      retry_count = 0;
      error_category = none;
      error_message = none;
      idempotency_key = key;
    }

    abbrev start_time : Option Datetime → Datetime
    start_time none = env.started
    start_time (some t) = t

    abbrev pub start_job : CollectionJob → CollectionJob
    start_job job = record job { status = running; started_at = some (start_time job.started_at) }

    -- A job from its start to its result, in the store.
    unfoldable pub execute_job :
        (body : ℕ → Call RetailerJobOutcome) → CollectionJob → Store → Store × RetailerRunResult
    unfolding execute_with_policy finish_job
    execute_job body job store =
        let s : RunState = record {
          job = start_job job;
          errors = store.errors;
          sleeps = store.sleeps;
        } in
        let (outcome, executed) = execute_with_policy env config body s in
        let (final, result) = finish_job config outcome executed in
        (
          record store {
            jobs = save_job final.job store.jobs;
            errors = final.errors;
            sleeps = final.sleeps;
          },
          result,
        )

    -- The rest of `_run_one_retailer` after the look-up of the job.
    unfoldable pub run_found :
        (body : ℕ → Call RetailerJobOutcome)
        → (retailer_id key : Text) → Store
        → Option CollectionJob
        → Store × RetailerRunResult
    unfolding execute_job save_job
    run_found body retailer_id key store none =
        let job = new_job store.next_id retailer_id key in execute_job body job (add_job job store)
    run_found body retailer_id key store (some existing) =
        if is_terminal_success existing.status
        then (
          store,
          record {
            retailer_id = retailer_id;
            job_id = some existing.id;
            status = existing.status;
            idempotency_key = key;
            reused_existing = true;
            succeeded = 0;
            failed = 0;
            skipped = 0;
          },
        )
        else execute_job body existing store

    -- `_run_one_retailer` of the retailer, whose job has the key.
    unfoldable pub run_one_retailer :
        (body : ℕ → Call RetailerJobOutcome)
        → (retailer_id key : Text) → Store
        → Store × RetailerRunResult
    unfolding run_found
    run_one_retailer body retailer_id key store =
        run_found body retailer_id key store (get_by_idempotency_key key store)

    -- The loop of `run` over the adapters: each one's identity, its key, and what its body does.
    unfoldable pub run_retailers :
        List (Text × Text × (ℕ → Call RetailerJobOutcome)) → Store → Store × List RetailerRunResult
    run_retailers [] store = (store, [])
    run_retailers ((retailer_id, key, body) ∷ adapters) store =
        let (next, result) = run_one_retailer body retailer_id key store in
        let (final, results) = run_retailers adapters next in (final, result ∷ results)
