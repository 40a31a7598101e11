-- ===== src/Collection/Orchestrator/Idempotency.antt =====
-- A job that succeeded is not executed again.
use mathlib.Core.Bool.{false≢true}
use mathlib.Core.Option.{some-injective}
use price_intelligence_india.Base.{
  ℕ, suc, zero, ◌+◌, ◌≡◌, refl, ap, ◌∙◌, sym, subst, true, some, List, [], ◌∷◌, ◌++◌, arith,
  Bool-cases, inl, inr, any, filter, head?, filter-cons_true, Option-cases,
}
use price_intelligence_india.Base.Compare.{compare_list-IsComparison, compare-IsComparison}
use price_intelligence_india.Domain.{Text}
use price_intelligence_india.Pricing.Ranking.{same_text}
use price_intelligence_india.Collection.Models.{
  CollectionJobType, CollectionFailure, Raised, Call, CollectionConfig, CollectionJob, max_attempts,
}
use price_intelligence_india.Collection.Retry.{is_retryable, backoff_seconds}
use price_intelligence_india.Collection.Jobs.{RetailerJobOutcome}
use price_intelligence_india.Collection.Rounds.{
  RunState, Environment, attempts_from, after_attempt, execute_with_policy, record_item_errors,
  record_error, begin_attempt, sleep,
}
use price_intelligence_india.Collection.Rows.{
  Store, RetailerRunResult, save_job, add_job, is_terminal_success, get_by_idempotency_key, has_key,
}
use price_intelligence_india.Collection.Orchestrator.{
  finish_job, finalize_failure, finalize_outcome, execute_job, run_found, run_one_retailer, new_job,
  start_job,
}

same_text-eq : (s t : Text) → same_text s t ≡ true → s ≡ t
same_text-eq s t h = (compare_list-IsComparison compare-IsComparison).equal s t (ground arith)

same_text_self : (s : Text) → same_text s s ≡ true
same_text_self s = rw ((compare_list-IsComparison compare-IsComparison).reflexive s) refl

-- The saved job is the one that its key finds, if the key has a row.
get-save :
    (job : CollectionJob) (rows : List CollectionJob)
    → any (has_key job.idempotency_key) rows ≡ true
    → head? (filter (has_key job.idempotency_key) (save_job job rows)) ≡ some job
unfolding save_job
get-save job [] h = absurd (false≢true h)
get-save job (row ∷ rows) h = elim (Bool-cases (has_key job.idempotency_key row)) [
  | inl e ↦ rw (e, same_text_self job.idempotency_key) refl
  | inr e ↦ rw (e, e) (get-save job rows (rw e at h))
]

any-of_found :
    (key : Text) (rows : List CollectionJob) (job : CollectionJob)
    → head? (filter (has_key key) rows) ≡ some job
    → (any (has_key key) rows ≡ true) × (job.idempotency_key ≡ key)
any-of_found key [] job h = cc
any-of_found key (row ∷ rows) job h = elim (Bool-cases (has_key key row)) [
  | inl e ↦
      let same : row ≡ job =
        some-injective _ _ (ap head? (sym (filter-cons_true (has_key key) row rows e)) ∙ h) in
      (
        rw e refl,
        ap (λ (j : CollectionJob). j.idempotency_key) (sym same)
            ∙ same_text-eq row.idempotency_key key e,
      )
  | inr e ↦ let (a, b) = any-of_found key rows job (rw e at h) in (ground arith, b)
]

any-added :
    (job : CollectionJob) (rows : List CollectionJob)
    → any (has_key job.idempotency_key) (rows ++ (job ∷ [])) ≡ true
any-added job [] = rw (same_text_self job.idempotency_key) refl
any-added job (row ∷ rows) = ground (arith, any-added job rows)

module _ (env : Environment) (config : CollectionConfig) where
  abbrev key_of : RunState → Text
  key_of s = s.job.idempotency_key

  after_attempt-key :
      (attempt : ℕ) (s : RunState) (next : RunState → Call RetailerJobOutcome × RunState)
      (c : Call RetailerJobOutcome)
      → ((n : RunState) → key_of (next n).1 ≡ key_of n)
      → key_of (after_attempt env config attempt s next c).1 ≡ key_of s
  unfolding after_attempt record_error
  after_attempt-key attempt s next (Call.returns o) h = refl
  after_attempt-key attempt s next (Call.raises (Raised.collection_failure f)) h =
      elim (Bool-cases (is_retryable f attempt (max_attempts config))) [
        | inl e ↦ rw e (
            h (
              sleep env config (backoff_seconds config attempt)
                (record_error env config s f attempt)))
        | inr e ↦ rw e refl
      ]
  after_attempt-key attempt s next (Call.raises (Raised.adapter_error f)) h = refl
  after_attempt-key attempt s next (Call.raises (Raised.other_exception f)) h = refl

  attempts-key :
      (body : ℕ → Call RetailerJobOutcome) (left attempt : ℕ) (s : RunState)
      → key_of (attempts_from env config body attempt left s).1 ≡ key_of s
  unfolding attempts_from
  attempts-key body zero attempt s = refl
  attempts-key body (suc left) attempt s =
      after_attempt-key attempt (begin_attempt env config attempt s)
        (λ next. attempts_from env config body (attempt + 1) left next) (body attempt)
        (attempts-key body left (attempt + 1))

  items-job :
      (s : RunState) (errors : List CollectionFailure) (attempt : ℕ)
      → (record_item_errors env config s errors attempt).job ≡ s.job
  unfolding record_item_errors record_error
  items-job s [] attempt = refl
  items-job s (e ∷ errors) attempt = items-job (record_error env config s e attempt) errors attempt

  -- The result tells the status and the identity of the job, which keeps its key.
  abbrev Tells : CollectionJob → RetailerRunResult → Type 0
  Tells job r = (r.status ≡ job.status) × (r.job_id ≡ some job.id)

  finish_job-Tells :
      (c : Call RetailerJobOutcome) (s : RunState)
      → let (final, r) = finish_job env config c s in (key_of final ≡ key_of s) × Tells final.job r
  unfolding finish_job finalize_outcome finalize_failure
  finish_job-Tells (Call.returns o) s = (
    ap (λ (j : CollectionJob). j.idempotency_key)
        (items-job s o.item_errors (s.job.retry_count + 1)),
    (refl, refl),
  )
  finish_job-Tells (Call.raises e) s = (refl, (refl, refl))

  module _ (job_type : CollectionJobType) where
    -- The store has a job under the key, and the result tells it.
    abbrev Stored : Text → Store × RetailerRunResult → Type 0
    Stored key (store, r) =
        (job : CollectionJob) × (get_by_idempotency_key key store ≡ some job) × Tells job r

    execute_job-Stored :
        (body : ℕ → Call RetailerJobOutcome) (key : Text) (job : CollectionJob) (store : Store)
        → job.idempotency_key ≡ key
        → any (has_key key) store.jobs ≡ true
        → Stored key (execute_job env config job_type body job store)
    unfolding execute_job execute_with_policy
    execute_job-Stored body key job store k h =
        let s : RunState = record {
          job = start_job env config job_type job;
          errors = store.errors;
          sleeps = store.sleeps;
        } in
        let (outcome, executed) = execute_with_policy env config body s in
        let (final, r) = finish_job env config outcome executed in
        let (kept, told) = finish_job-Tells outcome executed in
        let same : key_of final ≡ key = kept ∙ (attempts-key body (max_attempts config) 1 s ∙ k) in
        (
          final.job,
          subst (λ t. head? (filter (has_key t) (save_job final.job store.jobs)) ≡ some final.job)
              same
              (get-save final.job store.jobs
                (subst (λ t. any (has_key t) store.jobs ≡ true) (sym same) h)),
          told,
        )

    run_one-Stored :
        (body : ℕ → Call RetailerJobOutcome) (retailer_id key : Text) (store : Store)
        → Stored key (run_one_retailer env config job_type body retailer_id key store)
    unfolding run_one_retailer run_found
    run_one-Stored body retailer_id key store =
        elim (Option-cases (get_by_idempotency_key key store)) [
          | inl e ↦
              let job = new_job env config job_type store.next_id retailer_id key in
              rw e (
                execute_job-Stored body key job (add_job job store) refl (any-added job store.jobs))
          | inr (job, e) ↦ elim (Bool-cases (is_terminal_success job.status)) [
            | inl t ↦ rw (e, t) (job, e, (refl, refl))
            | inr t ↦
                let (found, same) = any-of_found key store.jobs job e in
                rw (e, t) (execute_job-Stored body key job store same found)
          ]
        ]

    run_one-found :
        (body : ℕ → Call RetailerJobOutcome) (retailer_id key : Text) (store : Store)
        (job : CollectionJob)
        → get_by_idempotency_key key store ≡ some job
        → is_terminal_success job.status ≡ true
        → let (second, again) = run_one_retailer env config job_type body retailer_id key store in
          (second ≡ store)
          × (again.reused_existing ≡ true)
          × (again.job_id ≡ some job.id)
          × (again.status ≡ job.status)
    unfolding run_one_retailer run_found
    run_one-found body retailer_id key store job found t = rw (found, t) (refl, refl, refl, refl)

    -- After a run of a retailer that succeeded in part or in whole, a run with the same key executes
    -- nothing, whatever its body would do: it leaves the store as it is and reports the same job
    -- with the same status as reused.
    pub run_one_retailer-reused :
        (body later_body : ℕ → Call RetailerJobOutcome) (retailer_id key : Text) (store : Store)
        → is_terminal_success
            (run_one_retailer env config job_type body retailer_id key store).1.status
          ≡ true
        → let (first, r) = run_one_retailer env config job_type body retailer_id key store in
          let (second, again) =
            run_one_retailer env config job_type later_body retailer_id key first in
          (second ≡ first)
          × (again.reused_existing ≡ true)
          × (again.job_id ≡ r.job_id)
          × (again.status ≡ r.status)
    run_one_retailer-reused body later_body retailer_id key store h =
        let first = (run_one_retailer env config job_type body retailer_id key store).0 in
        let (job, found, (status, id)) = run_one-Stored body retailer_id key store in
        let (same, reused, again_id, again_status) =
          run_one-found later_body retailer_id key first job found
            (ap is_terminal_success (sym status) ∙ h) in
        (same, reused, again_id ∙ sym id, again_status ∙ sym status)
