-- ===== src/Adapters/Execution/Attempts.antt =====
-- Which attempt of an operation decides how it ends.
use price_intelligence_india.Base.{
  ℕ, zero, suc, ◌+◌, ◌-◌, ◌≤◌, ◌≡◌, refl, sym, subst, ap, Bool, true, false, ◌&&◌, Option, List, [],
  ◌∷◌, ◌++◌, length, if◌then◌else◌, ltb, arith, Bool-cases, inl, inr,
}
use price_intelligence_india.Adapters.Retry.{Fraction, RetryPolicy, Delay, is_retryable, delay_for}
use price_intelligence_india.Adapters.Execution.{
  Outcome, Attempt, CallContext, as_policy_reads, run_attempt, Ending, Execution, after_attempt,
  execute_from, execute,
}

abbrev pub ending_of : {A : Type 0} → Attempt A → Ending A
ending_of (Attempt.value a) = Ending.returned a
ending_of (Attempt.error e) = Ending.raised e

abbrev pub is_temporary : {A : Type 0} → RetryPolicy → Attempt A → Bool
is_temporary policy (Attempt.value a) = false
is_temporary policy (Attempt.error e) = is_retryable policy (as_policy_reads e)

length-snoc : {A : Type 0} (xs : List A) (x : A) → length (xs ++ x ∷ []) ≡ length xs + 1
length-snoc [] x = omega arith
length-snoc (y ∷ ys) x = omega (arith, length-snoc ys x)

last_attempt : (n : ℕ) → 1 ≤ n → suc (n - 1) ≡ n
last_attempt n h = omega arith

module _ {A : Type 0} (context : CallContext) (policy : RetryPolicy) (jitter : ℕ → Fraction)
    (call : ℕ → Outcome A) where
  -- The first attempt that is no temporary failure, or the last one of those left.
  abbrev pub deciding : (attempt left : ℕ) → ℕ
  deciding attempt zero = attempt
  deciding attempt (suc left) =
      let later = deciding (attempt + 1) left in
      if is_temporary policy (run_attempt context (call attempt)) then later else attempt

  deciding-le : (attempt left : ℕ) → deciding attempt left ≤ attempt + left
  deciding-le attempt zero = omega arith
  deciding-le attempt (suc left) = ground (arith, deciding-le (attempt + 1) left)

  -- How the loop ends that reaches the deciding attempt `d`.
  record Ends (attempt : ℕ) (delays : List (Option Delay)) (d : ℕ) (r : Execution A) : Type 0 where
    ending_eq : r.ending ≡ ending_of (run_attempt context (call d))
    attempts_eq : r.attempts ≡ d
    delays_eq : length r.delays + attempt ≡ length delays + d

  stops :
      (a : Attempt A) (attempt : ℕ) (delays : List (Option Delay))
      (later : List (Option Delay) → Execution A)
      → run_attempt context (call attempt) ≡ a
      → (is_temporary policy a && ltb attempt policy.max_attempts) ≡ false
      → Ends attempt delays attempt
          (after_attempt context policy jitter call a attempt delays later)
  unfolding after_attempt
  stops (Attempt.value a) attempt delays later e h = record {
    ending_eq = ap ending_of (sym e);
    attempts_eq = refl;
    delays_eq = refl;
  }
  stops (Attempt.error f) attempt delays later e h =
      rw h (record { ending_eq = ap ending_of (sym e); attempts_eq = refl; delays_eq = refl })

  goes_on :
      (a : Attempt A) (attempt d : ℕ) (delays : List (Option Delay))
      (later : List (Option Delay) → Execution A)
      → (is_temporary policy a && ltb attempt policy.max_attempts) ≡ true
      → ((more : List (Option Delay)) → Ends (attempt + 1) more d (later more))
      → Ends attempt delays d (after_attempt context policy jitter call a attempt delays later)
  unfolding after_attempt
  goes_on (Attempt.value a) attempt d delays later h k = cc
  goes_on (Attempt.error f) attempt d delays later h k =
      let delay = delay_for policy (as_policy_reads f) attempt (jitter attempt) in
      let next = k (delays ++ delay ∷ []) in
      rw h (record {
        ending_eq = next.ending_eq;
        attempts_eq = next.attempts_eq;
        delays_eq = omega (arith, next.delays_eq, length-snoc delays delay);
      })

  loop-Ends :
      (attempt left : ℕ) (delays : List (Option Delay))
      → attempt + left ≡ policy.max_attempts
      → Ends attempt delays
          (deciding attempt left)
          (execute_from context policy jitter call attempt (suc left) delays)
  unfolding execute_from
  loop-Ends attempt zero delays e = stops _ attempt delays _ refl (ground arith)
  loop-Ends attempt (suc left) delays e =
      elim (Bool-cases (is_temporary policy (run_attempt context (call attempt)))) [
        | inl t ↦ rw t (
            goes_on _ attempt _ delays _ (ground arith)
              (λ more. loop-Ends (attempt + 1) left more (omega arith)))
        | inr t ↦ rw t (stops _ attempt delays _ refl (ground arith))
      ]

  -- The deciding attempt of an operation
  abbrev pub decides : ℕ
  decides = deciding 1 (policy.max_attempts - 1)

  execute-Ends : Ends 1 [] decides (execute context policy jitter call)
  unfolding execute
  execute-Ends =
      subst (λ n. Ends 1 [] decides (execute_from context policy jitter call 1 n []))
        (last_attempt policy.max_attempts policy.max_attempts_positive)
        (loop-Ends 1 (policy.max_attempts - 1) [] (omega (arith, policy.max_attempts_positive)))

  -- The loop always ends, within the attempts that the policy allows, with the value or the error of
  -- the first attempt whose failure is not retried, or of the last attempt: it never runs out without
  -- a result, and it waits once before every attempt but the first.
  pub execute-decides :
      ((execute context policy jitter call).ending ≡ ending_of (run_attempt context (call decides)))
      × ((execute context policy jitter call).attempts ≡ decides)
      × (length (execute context policy jitter call).delays + 1 ≡ decides)
      × (decides ≤ policy.max_attempts)
  execute-decides =
      let e = execute-Ends in
      (
        e.ending_eq,
        e.attempts_eq,
        omega (arith, e.delays_eq),
        omega (arith, deciding-le 1 (policy.max_attempts - 1), policy.max_attempts_positive),
      )
