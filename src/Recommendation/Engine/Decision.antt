-- ===== src/Recommendation/Engine/Decision.antt =====
-- The decision of `recommend` against a description of it by the values it compares.
use price_intelligence_india.Base.{
  ◌≡◌, refl, Bool, true, false, ◌&&◌, ◌||◌, not, Option, none, some, is_some, if◌then◌else◌, arith,
  ◌∙◌, List, [], ◌∷◌,
}
use price_intelligence_india.Domain.{is_stale, is_missing}
use price_intelligence_india.Recommendation.Models.{
  Recommendation, InsufficientRecommendationReason, RuleId, PredictionInput, RecommendationInput,
  RecommendationConfig, EvaluatedRule,
}
use price_intelligence_india.Recommendation.Rules.{
  evaluate_gates, evaluate_prediction_usability, evaluate_buy_signals, evaluate_wait_signals,
  strongly_favorable_from, wait_evidence_from, prediction_is_usable, short_history,
  favorable_percentile, strong_percentile, near_low, strong_near_low, below_both, unfavorable,
  above_averages, material_predicted, event_wait, fired_in, rule,
}
use price_intelligence_india.Recommendation.Engine.{
  decide, gate_reason_code, recommend, strongly, wait_fired, prediction_used, only_fired,
}

-- The decision by the three facts that it depends on.
abbrev pub table : (enough strongly waits : Bool) → Recommendation
table enough strongly waits =
    if not enough
    then Recommendation.insufficient_data
    else if strongly && waits
    then Recommendation.watch
    else if waits
    then Recommendation.wait
    else if strongly
    then Recommendation.buy_now
    else Recommendation.watch

abbrev pub is_nil {ℓ} : {A : Type ℓ} → List A → Bool
is_nil [] = true
is_nil (_ ∷ _) = false

decide-eq-table :
    (gates unused buy waits watches : List EvaluatedRule) (s w : Bool)
    → (decide gates unused buy waits watches s w).0 ≡ table (is_nil gates) s w
unfolding decide
decide-eq-table [] unused buy waits watches s w = ground arith
decide-eq-table (g ∷ gates) unused buy waits watches s w = refl

wait_evidence_of :
    (a b c d e : Bool)
    → wait_evidence_from (
        rule RuleId.wait_unfavorable_percentile a Recommendation.wait
        ∷ rule RuleId.wait_above_averages b Recommendation.wait
        ∷ rule RuleId.wait_predicted_savings c Recommendation.wait
        ∷ rule RuleId.wait_upcoming_sale d Recommendation.wait
        ∷ rule RuleId.wait_rising_trend e Recommendation.wait
        ∷ [])
      ≡ (a || b || c || d)
unfolding wait_evidence_from
wait_evidence_of a b c d e = ground arith

unfoldable reason_of : List EvaluatedRule → Option InsufficientRecommendationReason
reason_of [] = none
reason_of (g ∷ _) = gate_reason_code g.rule_id

decide-reason :
    (gates unused buy waits watches : List EvaluatedRule) (s w : Bool)
    → (decide gates unused buy waits watches s w).1 ≡ reason_of gates
unfolding decide reason_of
decide-reason [] unused buy waits watches s w = ground arith
decide-reason (g ∷ gates) unused buy waits watches s w = refl

module _ (config : RecommendationConfig) (payload : RecommendationInput) where
  -- There is a fresh enough price and enough history.
  abbrev pub can_decide : Bool
  can_decide =
      is_some payload.current_effective_price
      && not (is_stale payload.freshness_status)
      && not (is_missing payload.freshness_status)
      && not (short_history payload config)

  -- A cheap price: a strong signal alone, or a favorable percentile that another signal confirms.
  abbrev pub is_cheap : Bool
  is_cheap =
      strong_percentile payload config
      || strong_near_low payload config
      || favorable_percentile payload config
        && (near_low payload config || below_both payload config)

  -- A dear price, a used prediction of a saving, or a credible sale.
  abbrev pub waits_given : (used strongly near : Bool) → Bool
  waits_given used strongly near =
      unfavorable payload config near
      || above_averages payload config
      || material_predicted payload config used
      || event_wait payload config strongly

  -- A reason to wait, of which a sale is one only for a price that is not cheap.
  abbrev pub is_worth_waiting : Bool
  is_worth_waiting =
      waits_given (prediction_is_usable payload.prediction config) is_cheap
        (near_low payload config || strong_near_low payload config)

  abbrev pub decision_table : Recommendation
  decision_table = table can_decide is_cheap is_worth_waiting

  used-eq-usable :
      (p : Option PredictionInput)
      → payload.prediction ≡ p
      → prediction_used config payload ≡ prediction_is_usable p config
  unfolding evaluate_prediction_usability prediction_is_usable
  used-eq-usable none e = rw e refl
  used-eq-usable (some p) e = rw e (ground (arith, p.value_kind_is_predicted))

  -- The two tests of the prediction agree.
  pub prediction_used-eq-usable :
      prediction_used config payload ≡ prediction_is_usable payload.prediction config
  prediction_used-eq-usable = used-eq-usable payload.prediction refl

  pub strongly-eq : strongly config payload ≡ is_cheap
  unfolding evaluate_buy_signals strongly_favorable_from
  strongly-eq = ground arith

  near_fired-eq :
      (used : Bool)
      → (fired_in (evaluate_buy_signals payload config used) RuleId.buy_near_historical_low
          || fired_in
              (evaluate_buy_signals payload config used)
              RuleId.buy_strong_near_historical_low)
        ≡ (near_low payload config || strong_near_low payload config)
  unfolding evaluate_buy_signals
  near_fired-eq used = ground arith

  wait_evidence-eq :
      (used strong near : Bool)
      → wait_evidence_from (evaluate_wait_signals payload config used strong near)
        ≡ waits_given used strong near
  unfolding evaluate_wait_signals
  wait_evidence-eq used strong near =
      wait_evidence_of (unfavorable payload config near) (above_averages payload config)
        (material_predicted payload config used) (event_wait payload config strong) _

  pub wait_fired-eq : wait_fired config payload ≡ is_worth_waiting
  wait_fired-eq =
      let used = prediction_used config payload in
      let near = near_fired-eq used in
      wait_evidence-eq used (strongly config payload) _ ∙ λ i.
      waits_given (prediction_used-eq-usable i) (strongly-eq i) (near i)

  gates-eq : is_nil (only_fired (evaluate_gates payload config)) ≡ can_decide
  unfolding evaluate_gates
  gates-eq = ground arith

  -- The decision is withheld unless there are a current price, an observation time that is not
  -- stale, and enough history. Else it is WATCH for a price that is both cheap and worth waiting
  -- on, WAIT for one that is only worth waiting on, BUY_NOW for one that is only cheap, and WATCH
  -- for one that is neither, where cheap and worth waiting on are comparisons of the input.
  pub recommend-eq-decision_table : (recommend config payload).recommendation ≡ decision_table
  unfolding recommend
  recommend-eq-decision_table =
      decide-eq-table (only_fired (evaluate_gates payload config)) _ _ _ _ _ _ ∙ λ i.
      table (gates-eq i) (strongly-eq i) (wait_fired-eq i)

  -- The first gate that the input fails, in the order of the gates.
  abbrev pub withheld_reason : Option InsufficientRecommendationReason
  withheld_reason =
      if not (is_some payload.current_effective_price)
      then some InsufficientRecommendationReason.no_current_price
      else if is_stale payload.freshness_status
      then some InsufficientRecommendationReason.stale_data
      else if is_missing payload.freshness_status
      then some InsufficientRecommendationReason.missing_data
      else if short_history payload config
      then some InsufficientRecommendationReason.insufficient_history
      else none

  gates-reason : reason_of (only_fired (evaluate_gates payload config)) ≡ withheld_reason
  unfolding reason_of evaluate_gates gate_reason_code
  gates-reason = ground arith

  -- `recommend` reports the first gate that the input fails, and no reason if it fails none.
  pub recommend-eq-withheld_reason : (recommend config payload).insufficient ≡ withheld_reason
  unfolding recommend
  recommend-eq-withheld_reason =
      decide-reason (only_fired (evaluate_gates payload config)) _ _ _ _ _ _ ∙ gates-reason
