-- ===== src/Recommendation/Rules/Gates.antt =====
-- The gates of backend/app/recommendation/rules.py and the rules on the use of a prediction.
use price_intelligence_india.Base.{
  Bool, true, false, not, none, some, List, [], ◌∷◌, is_some, if◌then◌else◌, leb, ltb,
}
use price_intelligence_india.Domain.{is_stale, is_missing}
use price_intelligence_india.Recommendation.Models.{
  Recommendation, RuleId, RecommendationInput, EvaluatedRule, RecommendationConfig,
}
use price_intelligence_india.Recommendation.Rules.Values.{has_status, known}

abbrev pub rule : RuleId → Bool → Recommendation → EvaluatedRule
rule rule_id fired supports = record { rule_id = rule_id; fired = fired; supports = some supports }

abbrev pub short_history : RecommendationInput → RecommendationConfig → Bool
short_history payload config = ltb payload.qualifying_observation_count config.min_observations

unfoldable pub evaluate_gates : RecommendationInput → RecommendationConfig → List EvaluatedRule
evaluate_gates payload config =
    rule RuleId.gate_no_current_price (not (is_some payload.current_effective_price))
      Recommendation.insufficient_data
    ∷ rule RuleId.gate_stale_data (is_stale payload.freshness_status)
        Recommendation.insufficient_data
    ∷ rule RuleId.gate_missing_data (is_missing payload.freshness_status)
        Recommendation.insufficient_data
    ∷ rule RuleId.gate_insufficient_history (short_history payload config)
        Recommendation.insufficient_data
    ∷ []

abbrev unused : RuleId → EvaluatedRule
unused rule_id = rule rule_id true Recommendation.watch

-- Whether the prediction is used, and the rules that say why it is not.
unfoldable pub evaluate_prediction_usability :
    RecommendationInput → RecommendationConfig → Bool × List EvaluatedRule
evaluate_prediction_usability payload config = elim payload.prediction [
  | none ↦ (false, unused RuleId.pred_unused_missing ∷ unused RuleId.watch_prediction_missing ∷ [])
  | some p ↦
      if not (has_status p)
      then (false, unused RuleId.pred_unused_insufficient ∷ [])
      else if not (is_some p.predicted_price)
      then (false, unused RuleId.pred_unused_no_price ∷ [])
      else if not
          (known (λ c threshold. leb threshold c) p.confidence config.min_prediction_confidence)
      then (
        false,
        unused RuleId.pred_unused_low_confidence
            ∷ unused RuleId.watch_prediction_low_confidence
            ∷ [],
      )
      else (true, [])
]
