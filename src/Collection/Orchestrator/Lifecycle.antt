-- ===== src/Collection/Orchestrator/Lifecycle.antt =====
-- The life of a job through `_run_one_retailer`, and the runs over all retailers.
use price_intelligence_india.Base.{
  ℕ, suc, ◌≡◌, refl, ap, Bool, true, false, ◌||◌, not, Option, none, some, List, [], ◌∷◌, length,
  arith, if◌then◌else◌, Bool-cases, inl, inr, all,
}
use price_intelligence_india.Domain.{Text}
use price_intelligence_india.Collection.Models.{
  CollectionJobType, CollectionJobStatus, success, partial_success, failed, Call, CollectionConfig,
  CollectionJob,
}
use price_intelligence_india.Collection.Jobs.{RetailerJobOutcome}
use price_intelligence_india.Collection.Rounds.{RunState, Environment, execute_with_policy}
use price_intelligence_india.Collection.Rows.{
  Store, RetailerRunResult, add_job, run_status, is_terminal_success, get_by_idempotency_key,
  has_status, is_success, is_failed, is_partial,
}
use price_intelligence_india.Collection.Orchestrator.{
  status_for_outcome, finish_job, finalize_failure, finalize_outcome, execute_job, run_found,
  new_job, start_job, run_one_retailer, run_retailers,
}

-- The status of a job that is over.
abbrev pub is_terminal : CollectionJobStatus → Bool
is_terminal CollectionJobStatus.pending = false
is_terminal CollectionJobStatus.running = false
is_terminal _ = true

status_for_outcome-terminal : (o : RetailerJobOutcome) → is_terminal (status_for_outcome o) ≡ true
unfolding status_for_outcome
status_for_outcome-terminal o = ground arith

module _ (env : Environment) (config : CollectionConfig) (job_type : CollectionJobType) where
  finish_job-terminal :
      (c : Call RetailerJobOutcome) (s : RunState)
      → is_terminal (finish_job env config c s).1.status ≡ true
  unfolding finish_job finalize_outcome finalize_failure
  finish_job-terminal (Call.returns o) s = status_for_outcome-terminal o
  finish_job-terminal (Call.raises e) s = refl

  execute_job-terminal :
      (body : ℕ → Call RetailerJobOutcome) (job : CollectionJob) (store : Store)
      → is_terminal (execute_job env config job_type body job store).1.status ≡ true
  unfolding execute_job
  execute_job-terminal body job store =
      let s : RunState = record {
        job = start_job env config job_type job;
        errors = store.errors;
        sleeps = store.sleeps;
      } in
      let (outcome, executed) = execute_with_policy env config body s in
      finish_job-terminal outcome executed

  terminal_of_success :
      (status : CollectionJobStatus) → is_terminal_success status ≡ true → is_terminal status ≡ true
  terminal_of_success status h = ground arith

  run_found-terminal :
      (body : ℕ → Call RetailerJobOutcome) (retailer_id key : Text) (store : Store)
      (found : Option CollectionJob)
      → is_terminal (run_found env config job_type body retailer_id key store found).1.status ≡ true
  unfolding run_found
  run_found-terminal body retailer_id key store none =
      let job = new_job env config job_type store.next_id retailer_id key in
      execute_job-terminal body job (add_job job store)
  run_found-terminal body retailer_id key store (some job) =
      elim (Bool-cases (is_terminal_success job.status)) [
        | inl e ↦ rw e (terminal_of_success job.status e)
        | inr e ↦ rw e (execute_job-terminal body job store)
      ]

  -- Whatever the body of a job does at each attempt, its retailer gets a result, and the result's
  -- job is over.
  pub run_one_retailer-terminal :
      (body : ℕ → Call RetailerJobOutcome) (retailer_id key : Text) (store : Store)
      → is_terminal (run_one_retailer env config job_type body retailer_id key store).1.status
        ≡ true
  unfolding run_one_retailer
  run_one_retailer-terminal body retailer_id key store =
      run_found-terminal body retailer_id key store (get_by_idempotency_key key store)

  -- A run gives each adapter one result, in the order of the adapters, whatever their bodies do.
  pub run_retailers-length :
      (adapters : List (Text × Text × (ℕ → Call RetailerJobOutcome))) (store : Store)
      → let (final, results) = run_retailers env config job_type adapters store in
        (length results ≡ length adapters) × (all (λ r. is_terminal r.status) results ≡ true)
  unfolding run_retailers
  run_retailers-length [] store = (refl, refl)
  run_retailers-length ((retailer_id, key, body) ∷ adapters) store =
      let next = (run_one_retailer env config job_type body retailer_id key store).0 in
      let (count, over) = run_retailers-length adapters next in
      (ap suc count, rw (run_one_retailer-terminal body retailer_id key store) over)

abbrev all_over : List RetailerRunResult → Bool
all_over = all λ r. is_terminal r.status

all-success :
    (rs : List RetailerRunResult)
    → all_over rs ≡ true
    → all (λ r. is_success r.status) rs ≡ not (has_status is_failed rs || has_status is_partial rs)
all-success [] h = refl
all-success (r ∷ rs) h = ground (arith, all-success rs)

all-failed :
    (rs : List RetailerRunResult)
    → all_over rs ≡ true
    → all (λ r. is_failed r.status) rs ≡ not (has_status is_success rs || has_status is_partial rs)
all-failed [] h = refl
all-failed (r ∷ rs) h = ground (arith, all-failed rs)

status_of :
    (succeeds fails partial all_succeed all_fail : Bool)
    → all_succeed ≡ not (fails || partial)
    → all_fail ≡ not (succeeds || partial)
    → (if all_succeed
        then success
        else if succeeds || partial
        then (if fails || partial then partial_success else success)
        else failed)
      ≡ (if all_succeed then success else if all_fail then failed else partial_success)
status_of succeeds fails partial all_succeed all_fail h k = ground arith

-- If every retailer's job is over, the status of a run is SUCCESS if all retailers succeeded, FAILED
-- if there are retailers and all of them failed, and PARTIAL_SUCCESS otherwise.
pub run_status-eq :
    (rs : List RetailerRunResult)
    → all (λ r. is_terminal r.status) rs ≡ true
    → run_status rs ≡ (
        if all (λ r. is_success r.status) rs
        then success
        else if all (λ r. is_failed r.status) rs
        then failed
        else partial_success)
unfolding run_status
run_status-eq [] h = refl
run_status-eq (r ∷ rs) h =
    let every = r ∷ rs in
    status_of (has_status is_success every) (has_status is_failed every)
      (has_status is_partial every) (all (λ x. is_success x.status) every)
      (all (λ x. is_failed x.status) every) (all-success every h) (all-failed every h)
