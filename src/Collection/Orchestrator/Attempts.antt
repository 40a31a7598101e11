-- ===== src/Collection/Orchestrator/Attempts.antt =====
-- The retry loop `_execute_with_policy`: which attempt decides, and what is recorded on the way.
use mathlib.Core.Bool.{false≢true}
use price_intelligence_india.Base.{
  ℕ, zero, suc, ◌+◌, ◌-◌, ◌≤◌, ◌<◌, ◌≡◌, refl, ap, ◌∙◌, sym, subst, Bool, true, false, ◌&&◌, List,
  [], ◌∷◌, ◌++◌, length, arith, if◌then◌else◌, leb, Bool-cases, inl, inr,
}
use price_intelligence_india.Collection.Models.{
  CollectionFailure, Raised, Call, CollectionConfig, max_attempts,
}
use price_intelligence_india.Collection.Retry.{is_retryable, is_retryable_category, backoff_seconds}
use price_intelligence_india.Collection.Jobs.{RetailerJobOutcome}
use price_intelligence_india.Collection.Rounds.{
  RunState, Environment, attempts_from, after_attempt, execute_with_policy, record_error,
  begin_attempt, sleep,
}

-- The failure may be tried again while attempts remain.
abbrev pub is_temporary : Call RetailerJobOutcome → Bool
is_temporary (Call.raises (Raised.collection_failure error)) =
    error.retryable && is_retryable_category error.category
is_temporary _ = false

abbrev pub is_failure : Call RetailerJobOutcome → Bool
is_failure (Call.raises (Raised.collection_failure error)) = true
is_failure _ = false

-- The first attempt from `attempt` on whose body is no temporary failure, or the last one of those
-- left.
abbrev pub deciding : (body : ℕ → Call RetailerJobOutcome) → (attempt left : ℕ) → ℕ
deciding body attempt zero = attempt
deciding body attempt (suc left) =
    let later = deciding body (attempt + 1) left in
    if is_temporary (body attempt) then later else attempt

abbrev pub one_if : Bool → ℕ
one_if b = if b then 1 else 0

length-snoc {ℓ} : {A : Type ℓ} (xs : List A) (x : A) → length (xs ++ (x ∷ [])) ≡ length xs + 1
length-snoc [] x = refl
length-snoc (y ∷ ys) x = omega (arith, length-snoc ys x)

module _ (env : Environment) (config : CollectionConfig) (body : ℕ → Call RetailerJobOutcome) where
  errors-left :
      (f : CollectionFailure) (attempt : ℕ) (s : RunState)
      → length (record_error env config (begin_attempt env config attempt s) f attempt).errors
          + attempt
        ≡ length s.errors + attempt + 1
  unfolding record_error
  errors-left f attempt s = omega (arith, length-snoc s.errors _)

  -- What a run of the loop from `attempt` to the deciding attempt `d` leaves behind.
  abbrev Left : (attempt d : ℕ) → RunState → Call RetailerJobOutcome × RunState → Type 0
  Left attempt d s r =
      (r.0 ≡ body d)
      × (r.1.job.retry_count ≡ d - 1)
      × (length r.1.errors + attempt ≡ length s.errors + d + one_if (is_failure (body d)))
      × (length r.1.sleeps + attempt ≡ length s.sleeps + d)

  -- The loop goes on after the outcome of an attempt.
  abbrev goes_on : ℕ → Call RetailerJobOutcome → Bool
  goes_on attempt c = if leb (max_attempts config) attempt then false else is_temporary c

  attempts-stop :
      (c : Call RetailerJobOutcome) (left attempt : ℕ) (s : RunState)
      → body attempt ≡ c
      → goes_on attempt c ≡ false
      → Left attempt attempt s (attempts_from env config body attempt (suc left) s)
  unfolding attempts_from after_attempt is_retryable
  attempts-stop (Call.returns o) left attempt s e g = rw e (refl, refl, omega arith, omega arith)
  attempts-stop (Call.raises (Raised.collection_failure f)) left attempt s e g =
      rw (e, g) (refl, refl, errors-left f attempt s, omega arith)
  attempts-stop (Call.raises (Raised.adapter_error f)) left attempt s e g =
      rw e (refl, refl, omega arith, omega arith)
  attempts-stop (Call.raises (Raised.other_exception n)) left attempt s e g =
      rw e (refl, refl, omega arith, omega arith)

  -- The state in which the next attempt starts.
  abbrev next_state : CollectionFailure → ℕ → RunState → RunState
  next_state f attempt s =
      sleep env config (backoff_seconds config attempt)
        (record_error env config (begin_attempt env config attempt s) f attempt)

  attempts-go_on :
      (f : CollectionFailure) (left attempt : ℕ) (s : RunState)
      → body attempt ≡ Call.raises (Raised.collection_failure f)
      → goes_on attempt (Call.raises (Raised.collection_failure f)) ≡ true
      → attempts_from env config body attempt (suc left) s
        ≡ attempts_from env config body (attempt + 1) left (next_state f attempt s)
  unfolding attempts_from after_attempt is_retryable
  attempts-go_on f left attempt s e g = rw (e, g) refl

  next_state-lengths :
      (f : CollectionFailure) (attempt : ℕ) (s : RunState)
      → (length (next_state f attempt s).errors ≡ length s.errors + 1)
        × (length (next_state f attempt s).sleeps ≡ length s.sleeps + 1)
  unfolding record_error
  next_state-lengths f attempt s = (length-snoc s.errors _, length-snoc s.sleeps _)

  Left-of_next :
      (f : CollectionFailure) (attempt d : ℕ) (s : RunState)
      (r : Call RetailerJobOutcome × RunState)
      → Left (attempt + 1) d (next_state f attempt s) r
      → Left attempt d s r
  Left-of_next f attempt d s r (same, count, errors, sleeps) =
      let (e, w) = next_state-lengths f attempt s in
      (same, count, omega (arith, errors, e), omega (arith, sleeps, w))

  temporary-failure :
      (c : Call RetailerJobOutcome)
      → is_temporary c ≡ true
      → (f : CollectionFailure) × (c ≡ Call.raises (Raised.collection_failure f))
  temporary-failure (Call.returns o) t = absurd (false≢true t)
  temporary-failure (Call.raises (Raised.collection_failure f)) t = (f, refl)
  temporary-failure (Call.raises (Raised.adapter_error f)) t = absurd (false≢true t)
  temporary-failure (Call.raises (Raised.other_exception n)) t = absurd (false≢true t)

  goes_on-last :
      (attempt : ℕ) (c : Call RetailerJobOutcome)
      → max_attempts config ≤ attempt
      → goes_on attempt c ≡ false
  goes_on-last attempt c h = ground arith

  goes_on-temporary :
      (attempt : ℕ) (c : Call RetailerJobOutcome) (b : Bool)
      → attempt < max_attempts config
      → is_temporary c ≡ b
      → goes_on attempt c ≡ b
  goes_on-temporary attempt c b h t = ground arith

  goes_on-permanent :
      (attempt : ℕ) (c : Call RetailerJobOutcome)
      → is_temporary c ≡ false
      → goes_on attempt c ≡ false
  goes_on-permanent attempt c t = ground arith

  attempts_from-Left :
      (left attempt : ℕ) (s : RunState)
      → attempt + left ≡ max_attempts config
      → Left attempt
          (deciding body attempt left)
          s
          (attempts_from env config body attempt (suc left) s)
  attempts_from-Left zero attempt s e =
      attempts-stop (body attempt) 0 attempt s refl
        (goes_on-last attempt (body attempt) (omega (arith, e)))
  attempts_from-Left (suc left) attempt s e = elim (Bool-cases (is_temporary (body attempt))) [
    | inr t ↦ rw t (
        attempts-stop (body attempt) (suc left) attempt s refl
          (goes_on-permanent attempt (body attempt) t))
    | inl t ↦
        let (f, same) = temporary-failure (body attempt) t in
        let go = attempts-go_on f (suc left) attempt s same (
          ap (goes_on attempt) (sym same)
          ∙ goes_on-temporary attempt (body attempt) true (omega (arith, e)) t) in
        let later =
          attempts_from-Left left (attempt + 1) (next_state f attempt s) (omega (arith, e)) in
        let d = deciding body (attempt + 1) left in
        let moved : Left attempt d s
            (attempts_from env config body (attempt + 1) (suc left) (next_state f attempt s)) =
          Left-of_next f attempt d s
            (attempts_from env config body (attempt + 1) (suc left) (next_state f attempt s))
            later in
        rw t (subst (Left attempt d s) (sym go) moved)
  ]

  deciding-bounds :
      (left attempt : ℕ)
      → (attempt ≤ deciding body attempt left) × (deciding body attempt left ≤ attempt + left)
  deciding-bounds zero attempt = (omega arith, omega arith)
  deciding-bounds (suc left) attempt = ground (arith, deciding-bounds left (attempt + 1))

  -- The retry loop gives what the deciding attempt gives: the first one that is no temporary
  -- failure, or the last one that is allowed. Each attempt before it, and it if it is a collection
  -- failure, adds one error row; there is one wait before each attempt but the first; `retry_count`
  -- is the number of retries, and there are never more attempts than configured.
  pub execute_with_policy-deciding :
      (s : RunState)
      → let d = deciding body 1 config.max_retries in
        let (result, left) = execute_with_policy env config body s in
        (result ≡ body d)
        × (left.job.retry_count + 1 ≡ d)
        × (d ≤ max_attempts config)
        × (length left.errors + 1 ≡ length s.errors + d + one_if (is_failure (body d)))
        × (length left.sleeps + 1 ≡ length s.sleeps + d)
  unfolding execute_with_policy
  execute_with_policy-deciding s =
      let (same, count, errors, sleeps) = attempts_from-Left config.max_retries 1 s (omega arith) in
      let (low, high) = deciding-bounds config.max_retries 1 in
      (same, omega (arith, count, low), omega (arith, high), errors, sleeps)
