-- ===== src/Collection/Rows.antt =====
-- backend/app/collectors/orchestrator.py: the rows of the jobs, the result of a retailer, and the status
-- of a run.
use price_intelligence_india.Base.{
  ℕ, ◌+◌, Bool, true, false, ◌||◌, Option, List, [], ◌∷◌, ◌++◌, all, any, head?, filter,
  if◌then◌else◌,
}
use price_intelligence_india.Domain.{Text, Uuid}
use price_intelligence_india.Pricing.Ranking.{same_text}
use price_intelligence_india.Collection.Models.{
  CollectionJobStatus, success, partial_success, failed, CollectionJob, CollectionErrorRow,
}
use price_intelligence_india.Collection.Retry.{Wait}

-- The `in` test of `_TERMINAL_SUCCESS`
abbrev pub is_terminal_success : CollectionJobStatus → Bool
is_terminal_success CollectionJobStatus.success = true
is_terminal_success CollectionJobStatus.partial_success = true
is_terminal_success _ = false

pub record RetailerRunResult : Type 0 where
  pub retailer_id : Text
  pub job_id : Option Uuid
  pub status : CollectionJobStatus
  pub idempotency_key : Text
  pub reused_existing : Bool
  pub succeeded : ℕ
  pub failed : ℕ
  pub skipped : ℕ

-- The rows of the database, and the waits that were slept. A new row takes the next identity.
pub record Store : Type 0 where
  pub jobs : List CollectionJob
  pub errors : List CollectionErrorRow
  pub sleeps : List (Option Wait)
  pub next_id : Uuid

abbrev pub has_key : Text → CollectionJob → Bool
has_key key job = same_text job.idempotency_key key

-- `get_by_idempotency_key`
abbrev pub get_by_idempotency_key : Text → Store → Option CollectionJob
get_by_idempotency_key key store = head? (filter (has_key key) store.jobs)

-- `self._jobs.add`
abbrev pub add_job : CollectionJob → Store → Store
add_job job store = record store { jobs = store.jobs ++ (job ∷ []); next_id = store.next_id + 1 }

-- The row of a job holds what the job's object does: the key is unique, so it names the row.
unfoldable pub save_job : CollectionJob → List CollectionJob → List CollectionJob
save_job job [] = []
save_job job (row ∷ rows) =
    let saved = save_job job rows in
    if same_text row.idempotency_key job.idempotency_key then job ∷ saved else row ∷ saved

abbrev pub is_failed : CollectionJobStatus → Bool
is_failed CollectionJobStatus.failed = true
is_failed _ = false

-- `CollectionRunResult.status`
abbrev pub has_status : (CollectionJobStatus → Bool) → List RetailerRunResult → Bool
has_status p = any λ r. p r.status

abbrev pub is_success : CollectionJobStatus → Bool
is_success CollectionJobStatus.success = true
is_success _ = false

abbrev pub is_partial : CollectionJobStatus → Bool
is_partial CollectionJobStatus.partial_success = true
is_partial _ = false

unfoldable pub run_status : List RetailerRunResult → CollectionJobStatus
run_status [] = success
run_status (first ∷ rest) =
    let retailers = first ∷ rest in
    if all (λ r. is_success r.status) retailers
    then success
    else if has_status is_success retailers || has_status is_partial retailers
    then (if has_status is_failed retailers || has_status is_partial retailers
        then partial_success
        else success)
    else failed
