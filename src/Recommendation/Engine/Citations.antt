-- ===== src/Recommendation/Engine/Citations.antt =====
-- The rules that `recommend` cites for its decision.
use price_intelligence_india.Base.{
  ◌≡◌, refl, Bool, true, false, none, some, List, [], ◌∷◌, all, arith,
}
use price_intelligence_india.Base.Members.{all-of_filter}
use price_intelligence_india.Recommendation.Models.{
  Recommendation, RecommendationInput, EvaluatedRule, RecommendationConfig, same_recommendation,
}
use price_intelligence_india.Recommendation.Rules.{
  evaluate_gates, evaluate_prediction_usability, evaluate_buy_signals, evaluate_wait_signals,
  evaluate_watch_signals,
}
use price_intelligence_india.Recommendation.Engine.{
  decide, Decision, only_fired, or_else, first_only, decision_of, buy_rules, wait_rules,
  watch_rules, strongly, wait_fired,
}

-- The rule speaks for the decision.
abbrev pub speaks_for : Recommendation → EvaluatedRule → Bool
speaks_for decision r = elim r.supports [
  | none ↦ false
  | some supported ↦ same_recommendation supported decision
]

all-or_else :
    (p : EvaluatedRule → Bool) (xs ys : List EvaluatedRule)
    → all p xs ≡ true
    → all p ys ≡ true
    → all p (or_else xs ys) ≡ true
all-or_else p [] ys h k = k
all-or_else p (x ∷ xs) ys h k = h

all-first_only :
    (p : EvaluatedRule → Bool) (xs : List EvaluatedRule)
    → all p xs ≡ true
    → all p (first_only xs) ≡ true
all-first_only p [] h = refl
all-first_only p (x ∷ xs) h = ground arith

abbrev cites_own : Decision → Bool
cites_own (decision, insufficient, chosen) = all (speaks_for decision) chosen

decide-cites :
    (gates unused buy waits watches : List EvaluatedRule) (s w : Bool)
    → all (speaks_for Recommendation.insufficient_data) gates ≡ true
    → all (speaks_for Recommendation.watch) unused ≡ true
    → all (speaks_for Recommendation.buy_now) buy ≡ true
    → all (speaks_for Recommendation.wait) waits ≡ true
    → all (speaks_for Recommendation.watch) watches ≡ true
    → cites_own (decide gates unused buy waits watches s w) ≡ true
unfolding decide
decide-cites (g ∷ gates) unused buy waits watches s w hg hu hb hw hx = hg
decide-cites [] unused buy waits watches true true hg hu hb hw hx =
    let speaks = speaks_for Recommendation.watch in
    all-or_else speaks (only_fired watches) (first_only watches)
      (all-of_filter speaks (λ r. r.fired) watches hx) (all-first_only speaks watches hx)
decide-cites [] unused buy waits watches false true hg hu hb hw hx =
    all-of_filter (speaks_for Recommendation.wait) (λ r. r.fired) waits hw
decide-cites [] unused buy waits watches true false hg hu hb hw hx =
    all-of_filter (speaks_for Recommendation.buy_now) (λ r. r.fired) buy hb
decide-cites [] unused buy waits watches false false hg hu hb hw hx =
    let speaks = speaks_for Recommendation.watch in
    all-or_else speaks (only_fired watches) (or_else unused (first_only watches))
      (all-of_filter speaks (λ r. r.fired) watches hx)
      (all-or_else speaks unused (first_only watches) hu (all-first_only speaks watches hx))

module _ (config : RecommendationConfig) (payload : RecommendationInput) where
  usability-cites :
      all (speaks_for Recommendation.watch) ((evaluate_prediction_usability payload config).1)
      ≡ true
  unfolding evaluate_prediction_usability
  usability-cites = ground arith

  gates-cite :
      all (speaks_for Recommendation.insufficient_data) (only_fired (evaluate_gates payload config))
      ≡ true
  unfolding evaluate_gates
  gates-cite =
      all-of_filter (speaks_for Recommendation.insufficient_data) (λ r. r.fired)
        (evaluate_gates payload config) refl

  -- Every rule that the decision is made on speaks for this decision.
  pub decision_of-cites :
      let (decision, insufficient, chosen) = decision_of config payload in
      all (speaks_for decision) chosen ≡ true
  unfolding evaluate_buy_signals evaluate_wait_signals evaluate_watch_signals
  decision_of-cites =
      decide-cites _ _ (buy_rules config payload) (wait_rules config payload)
        (watch_rules config payload) (strongly config payload) (wait_fired config payload)
        gates-cite usability-cites refl refl refl
