-- ===== src/Recommendation/Engine.antt =====
-- backend/app/recommendation/engine.py: `RecommendationEngine`. Metrics and log records are left out.
pub mod Decision
pub mod Evidence
pub mod Sales
pub mod Citations
pub mod Thresholds
use Prim.Native.String.{String}
use price_intelligence_india.Base.{
  ℕ, ◌+◌, ◌*◌, min, Bool, true, false, ◌&&◌, ◌||◌, not, Option, none, some, List, [], ◌∷◌, ◌++◌,
  map, is_some, if◌then◌else◌, filter,
}
use price_intelligence_india.Domain.{FreshnessStatus, TrendDirection, ValueKind}
use price_intelligence_india.Money.{round_half_up}
use price_intelligence_india.Recommendation.Models.{
  Recommendation, RuleId, InsufficientRecommendationReason, PredictionInput, RecommendationInput,
  EvaluatedRule, EvidenceSnapshot, ReasonLine, RecommendationResult, RecommendationConfig,
  is_insufficient, is_trend,
}
use price_intelligence_india.Recommendation.Rules.{
  metric_value, predicted_savings, select_credible_upcoming, evaluate_gates,
  evaluate_prediction_usability, evaluate_buy_signals, evaluate_wait_signals,
  evaluate_watch_signals, fired_in, strongly_favorable_from, weakly_favorable_from,
  wait_evidence_from,
}
use price_intelligence_india.Recommendation.Confidence.{
  points_if, freshness_points, has_trend, prediction_confidence, prediction_points, evidence_score,
  conflict_percent, insufficient_percent, unclipped_confidence, recommendation_confidence,
}

-- A rule that is no gate raises `KeyError`.
unfoldable pub gate_reason_code : RuleId → Option InsufficientRecommendationReason
gate_reason_code RuleId.gate_no_current_price =
    some InsufficientRecommendationReason.no_current_price
gate_reason_code RuleId.gate_stale_data = some InsufficientRecommendationReason.stale_data
gate_reason_code RuleId.gate_missing_data = some InsufficientRecommendationReason.missing_data
gate_reason_code RuleId.gate_insufficient_history =
    some InsufficientRecommendationReason.insufficient_history
gate_reason_code _ = none

unfoldable pub expected_saving : RecommendationInput → Bool → Option ℕ × Option String
expected_saving payload prediction_used = elim payload.prediction [
  | none ↦ (none, none)
  | some p ↦
      if not prediction_used
      then (none, none)
      else elim ((predicted_savings payload.current_effective_price p.predicted_price).0) [
        | none ↦ (none, none)
        | some amount ↦ (some amount, some "predicted_sale_price_vs_current")
      ]
]

unfoldable pub build_evidence :
    RecommendationInput → Bool → Option String → RecommendationConfig → EvidenceSnapshot
build_evidence payload prediction_used expected_saving_basis config =
    let upcoming = select_credible_upcoming payload.upcoming_events config in
    record {
      current_effective_price = payload.current_effective_price;
      current_price_value_kind = payload.current_price_value_kind;
      historical_percentile = metric_value payload.historical_percentile;
      historical_low = metric_value payload.historical_low;
      average_30d = metric_value payload.average_30d;
      average_90d = metric_value payload.average_90d;
      trend_direction = payload.trend_direction;
      predicted_sale_price = elim payload.prediction [
        | none ↦ none
        | some p ↦ if prediction_used then p.predicted_price else none
      ];
      prediction_confidence = elim payload.prediction [
        | none ↦ none
        | some p ↦ if prediction_used then p.confidence else none
      ];
      prediction_used = prediction_used;
      upcoming_sale_name = elim upcoming [ none ↦ none | some e ↦ some e.name ];
      upcoming_sale_days = elim upcoming [ none ↦ none | some e ↦ some e.days_until_start ];
      freshness_status = payload.freshness_status;
      qualifying_observation_count = payload.qualifying_observation_count;
      expected_saving_basis = expected_saving_basis;
    }

abbrev pub only_fired : List EvaluatedRule → List EvaluatedRule
only_fired = filter λ r. r.fired

abbrev rule_ids : List EvaluatedRule → List RuleId
rule_ids = map λ r. r.rule_id

-- `rule_id.value.startswith("PRED_UNUSED")`
abbrev is_pred_unused : RuleId → Bool
is_pred_unused RuleId.pred_unused_missing = true
is_pred_unused RuleId.pred_unused_insufficient = true
is_pred_unused RuleId.pred_unused_low_confidence = true
is_pred_unused RuleId.pred_unused_no_price = true
is_pred_unused _ = false

unfoldable pub reason_lines :
    Recommendation → (chosen unused_pred_rules : List EvaluatedRule) → Bool → List ReasonLine
reason_lines decision chosen unused_pred_rules prediction_used =
    ReasonLine.decision_is decision
    ∷ (map ReasonLine.cites (rule_ids (only_fired chosen))
        ++ ((if prediction_used
              then []
              else map ReasonLine.cites
                  (rule_ids (filter (λ r. r.fired && is_pred_unused r.rule_id) unused_pred_rules)))
            ++ (ReasonLine.disclaimer ∷ [])))

-- `xs or ys`
abbrev pub or_else : List EvaluatedRule → List EvaluatedRule → List EvaluatedRule
or_else [] other = other
or_else (r ∷ rules) other = r ∷ rules

-- `rules[:1]`
abbrev pub first_only : List EvaluatedRule → List EvaluatedRule
first_only [] = []
first_only (r ∷ _) = r ∷ []

-- The decision, the reason it is withheld for, and the rules it is made on.
abbrev pub Decision : Type 0
Decision = Recommendation × Option InsufficientRecommendationReason × List EvaluatedRule

-- Every rule of `buy_rules` is in the set that `recommend` filters them by.
unfoldable pub decide :
    (fired_gates unused_pred_rules buy_rules wait_rules watch_rules : List EvaluatedRule)
    → (strongly wait_fired : Bool) → Decision
decide (gate ∷ gates) unused_pred_rules buy_rules wait_rules watch_rules strongly wait_fired =
    (Recommendation.insufficient_data, gate_reason_code gate.rule_id, gate ∷ gates)
decide [] unused_pred_rules buy_rules wait_rules watch_rules strongly wait_fired =
    let fired_watch = only_fired watch_rules in
    if strongly && wait_fired
    then (Recommendation.watch, none, or_else fired_watch (first_only watch_rules))
    else if wait_fired
    then (Recommendation.wait, none, only_fired wait_rules)
    else if strongly
    then (Recommendation.buy_now, none, only_fired buy_rules)
    else (
      Recommendation.watch,
      none,
      or_else fired_watch (or_else unused_pred_rules (first_only watch_rules)),
    )

-- What `recommend` computes before it decides.
module _ (config : RecommendationConfig) (payload : RecommendationInput) where
  abbrev pub prediction_used : Bool
  prediction_used = (evaluate_prediction_usability payload config).0

  abbrev pub buy_rules : List EvaluatedRule
  buy_rules = evaluate_buy_signals payload config prediction_used

  abbrev pub strongly : Bool
  strongly = strongly_favorable_from buy_rules

  abbrev pub wait_rules : List EvaluatedRule
  wait_rules = evaluate_wait_signals payload config prediction_used strongly (
      fired_in buy_rules RuleId.buy_near_historical_low
      || fired_in buy_rules RuleId.buy_strong_near_historical_low)

  abbrev pub wait_fired : Bool
  wait_fired = wait_evidence_from wait_rules

  abbrev pub watch_rules : List EvaluatedRule
  watch_rules =
      evaluate_watch_signals payload config strongly (weakly_favorable_from buy_rules strongly)
        wait_fired (strongly && wait_fired)

  abbrev pub decision_of : Decision
  decision_of =
      decide (only_fired (evaluate_gates payload config))
        ((evaluate_prediction_usability payload config).1) buy_rules wait_rules watch_rules strongly
        wait_fired

  unfoldable pub recommend : RecommendationResult
  unfolding decide gate_reason_code expected_saving recommendation_confidence
  recommend =
      let (decision, insufficient, chosen) = decision_of in
      let unused_pred_rules = (evaluate_prediction_usability payload config).1 in
      let (saving, saving_basis) = expected_saving payload prediction_used in
      record {
        recommendation = decision;
        expected_saving = saving;
        expected_saving_value_kind = if is_some saving then some ValueKind.calculated else none;
        confidence =
            recommendation_confidence payload prediction_used (strongly && wait_fired) decision
              config;
        reasons = reason_lines decision chosen unused_pred_rules prediction_used;
        triggered_rule_ids = rule_ids (only_fired chosen);
        prediction_used = prediction_used;
        insufficient = insufficient;
        evidence = build_evidence payload prediction_used saving_basis config;
        evaluated_rules =
            evaluate_gates payload config
            ++ (unused_pred_rules ++ (buy_rules ++ (wait_rules ++ watch_rules)));
        product_id = payload.product_id;
        product_variant_id = payload.product_variant_id;
        as_of = payload.as_of;
        currency = payload.currency;
      }
