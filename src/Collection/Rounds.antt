-- ===== src/Collection/Rounds.antt =====
-- backend/app/collectors/orchestrator.py: the retry loop of `CollectionOrchestrator` and the error rows
-- that it adds. Metrics, log records and the flushes of the session are left out.
use Prim.Native.String.{String}
use price_intelligence_india.Base.{
  ℕ, zero, suc, ◌+◌, ◌-◌, Option, none, some, List, [], ◌∷◌, ◌++◌, length, if◌then◌else◌,
}
use price_intelligence_india.Domain.{Text, Datetime}
use price_intelligence_india.Collection.Models.{
  CollectionJobType, CollectionFailure, Raised, Call, CollectionConfig, max_attempts, CollectionJob,
  CollectionErrorRow,
}
use price_intelligence_india.Collection.Retry.{is_retryable, backoff_seconds, Wait}
use price_intelligence_india.Collection.Jobs.{RetailerJobOutcome}

-- The job that runs, the error rows that were added and the waits that were slept, oldest first.
pub record RunState : Type 0 where
  pub job : CollectionJob
  pub errors : List CollectionErrorRow
  pub sleeps : List (Option Wait)

-- `sanitize_text` of a message and of an operation's target, the sentence of an unexpected exception,
-- and the clocks' readings: the start and the end of the job, the time of each error row, and the
-- measured duration.
pub record Environment : Type 0 where
  pub sanitize : String → Option String
  pub sanitize_target : Option Text → Option Text
  pub message_of : String → String
  pub operation_of : CollectionJobType → String
  pub started : Datetime
  pub completed : Datetime
  pub occurred : ℕ → Datetime
  pub duration : ℕ

-- `sanitize_text` gives no empty text.
abbrev or_default : Option String → String
or_default none = "Collection failed."
or_default (some s) = s

module _ (env : Environment) (config : CollectionConfig) where
  -- The row that `_record_error` adds.
  abbrev pub error_row : RunState → CollectionFailure → ℕ → CollectionErrorRow
  error_row s error attempt = record {
    collection_job_id = s.job.id;
    retailer_id = error.retailer_id;
    error_category = error.category;
    error_message = or_default (env.sanitize error.message);
    attempt = attempt;
    max_attempts = max_attempts config;
    retryable = error.retryable;
    operation = error.operation;
    operation_target = env.sanitize_target error.operation_target;
    occurred_at = env.occurred (length s.errors);
  }

  unfoldable pub record_error : RunState → CollectionFailure → ℕ → RunState
  record_error s error attempt = record s { errors = s.errors ++ (error_row s error attempt ∷ []) }

  unfoldable pub record_item_errors : RunState → List CollectionFailure → ℕ → RunState
  unfolding record_error
  record_item_errors s [] attempt = s
  record_item_errors s (error ∷ rest) attempt =
      record_item_errors (record_error s error attempt) rest attempt

  abbrev pub begin_attempt : ℕ → RunState → RunState
  begin_attempt attempt s = record s { job = record s.job { retry_count = attempt - 1 } }

  abbrev pub sleep : Option Wait → RunState → RunState
  sleep wait s = record s { sleeps = s.sleeps ++ (wait ∷ []) }

  -- The rest of a round of `_execute_with_policy` after its body; `next` is the following round.
  unfoldable pub after_attempt :
      (attempt : ℕ) (s : RunState)
      → (next : RunState → Call RetailerJobOutcome × RunState) → Call RetailerJobOutcome
      → Call RetailerJobOutcome × RunState
  unfolding record_error
  after_attempt attempt s next (Call.returns outcome) = (Call.returns outcome, s)
  after_attempt attempt s next (Call.raises (Raised.collection_failure error)) =
      let recorded = record_error s error attempt in
      if is_retryable error attempt (max_attempts config)
      then next (sleep (backoff_seconds config attempt) recorded)
      else (Call.raises (Raised.collection_failure error), recorded)
  after_attempt attempt s next (Call.raises raised) = (Call.raises raised, s)

  -- The rounds of `_execute_with_policy` from `attempt` on, with so many left. The last round
  -- raises, so the `assert` after the loop is not reached.
  unfoldable pub attempts_from :
      (body : ℕ → Call RetailerJobOutcome)
      → (attempt left : ℕ) → RunState
      → Call RetailerJobOutcome × RunState
  unfolding after_attempt
  attempts_from body attempt zero s = (Call.raises (Raised.other_exception "AssertionError"), s)
  attempts_from body attempt (suc left) s =
      after_attempt attempt (begin_attempt attempt s)
        (λ next. attempts_from body (attempt + 1) left next) (body attempt)

  unfoldable pub execute_with_policy :
      (body : ℕ → Call RetailerJobOutcome) → RunState → Call RetailerJobOutcome × RunState
  execute_with_policy body s = attempts_from body 1 (max_attempts config) s
