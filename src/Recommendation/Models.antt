-- ===== src/Recommendation/Models.antt =====
-- backend/app/recommendation/enums.py, models.py and config.py. Amounts are whole paise; percents,
-- percentiles and confidences are whole ten-thousandths.
use Prim.Native.String.{String}
use price_intelligence_india.Base.{ℕ, ◌≤◌, ◌<◌, ◌≡◌, Bool, true, false, Option, some, List, ◌==◌}
use price_intelligence_india.Domain.{
  Text, Uuid, Datetime, ConfidenceLevel, FreshnessStatus, ValueKind, MetricStatus, TrendDirection,
  SaleEventSource, SaleEventStatus,
}

pub data Recommendation : Type 0 where
  buy_now wait watch insufficient_data : Recommendation

pub data RuleId : Type 0 where
  gate_no_current_price gate_stale_data gate_missing_data gate_insufficient_history
        buy_favorable_percentile buy_strong_percentile buy_near_historical_low
        buy_strong_near_historical_low buy_below_averages buy_prediction_no_material_savings
        buy_falling_trend wait_unfavorable_percentile wait_above_averages wait_predicted_savings
        wait_upcoming_sale wait_rising_trend watch_neutral_history watch_conflicting_signals
        watch_weak_favorable watch_event_not_credible watch_prediction_low_confidence
        watch_prediction_missing watch_neutral_trend pred_unused_missing pred_unused_insufficient
        pred_unused_low_confidence pred_unused_no_price :
      RuleId

-- The place of a rule in the enumeration, by which rules are compared.
abbrev pub rule_number : RuleId → ℕ
rule_number RuleId.gate_no_current_price = 0
rule_number RuleId.gate_stale_data = 1
rule_number RuleId.gate_missing_data = 2
rule_number RuleId.gate_insufficient_history = 3
rule_number RuleId.buy_favorable_percentile = 4
rule_number RuleId.buy_strong_percentile = 5
rule_number RuleId.buy_near_historical_low = 6
rule_number RuleId.buy_strong_near_historical_low = 7
rule_number RuleId.buy_below_averages = 8
rule_number RuleId.buy_prediction_no_material_savings = 9
rule_number RuleId.buy_falling_trend = 10
rule_number RuleId.wait_unfavorable_percentile = 11
rule_number RuleId.wait_above_averages = 12
rule_number RuleId.wait_predicted_savings = 13
rule_number RuleId.wait_upcoming_sale = 14
rule_number RuleId.wait_rising_trend = 15
rule_number RuleId.watch_neutral_history = 16
rule_number RuleId.watch_conflicting_signals = 17
rule_number RuleId.watch_weak_favorable = 18
rule_number RuleId.watch_event_not_credible = 19
rule_number RuleId.watch_prediction_low_confidence = 20
rule_number RuleId.watch_prediction_missing = 21
rule_number RuleId.watch_neutral_trend = 22
rule_number RuleId.pred_unused_missing = 23
rule_number RuleId.pred_unused_insufficient = 24
rule_number RuleId.pred_unused_low_confidence = 25
rule_number RuleId.pred_unused_no_price = 26

pub data InsufficientRecommendationReason : Type 0 where
  no_current_price stale_data missing_data insufficient_history : InsufficientRecommendationReason

pub record OptionalMetric : Type 0 where
  pub value : Option ℕ
  pub value_kind : ValueKind
  pub status : MetricStatus
  pub unit : String
  pub observation_count : Option ℕ
  pub window_days : Option ℕ

-- `value_kind` is typed `Literal[ValueKind.PREDICTED]`.
pub record PredictionInput : Type 0 where
  pub value_kind : ValueKind
  pub value_kind_is_predicted : value_kind ≡ ValueKind.predicted
  pub status : Text
  pub predicted_price : Option ℕ
  pub confidence : Option ℕ
  pub insufficient_reason : Option String
  pub product_variant_id : Option Uuid
  pub retailer_id : Option Uuid
  pub seller_id : Option Uuid
  pub model_version : Option String

pub record UpcomingSaleInput : Type 0 where
  pub event_id : Uuid
  pub name : String
  pub start_date : Datetime
  pub end_date : Datetime
  pub confidence : ConfidenceLevel
  pub source : SaleEventSource
  pub status : SaleEventStatus
  pub days_until_start : ℕ

pub record RecommendationInput : Type 0 where
  pub as_of : Datetime
  pub product_id : Uuid
  pub product_variant_id : Uuid
  pub currency : String
  pub current_effective_price : Option ℕ
  pub current_price_value_kind : Option ValueKind
  pub current_price_field : Option String
  pub qualifying_observation_count : ℕ
  pub freshness_status : FreshnessStatus
  pub historical_percentile : Option OptionalMetric
  pub historical_low : Option OptionalMetric
  pub average_30d : Option OptionalMetric
  pub average_90d : Option OptionalMetric
  pub trend_direction : Option TrendDirection
  pub prediction : Option PredictionInput
  pub upcoming_events : List UpcomingSaleInput

-- The sentence of a rule is left out: it repeats the values that the rule compared.
pub record EvaluatedRule : Type 0 where
  pub rule_id : RuleId
  pub fired : Bool
  pub supports : Option Recommendation

pub record EvidenceSnapshot : Type 0 where
  pub current_effective_price : Option ℕ
  pub current_price_value_kind : Option ValueKind
  pub historical_percentile : Option ℕ
  pub historical_low : Option ℕ
  pub average_30d : Option ℕ
  pub average_90d : Option ℕ
  pub trend_direction : Option TrendDirection
  pub predicted_sale_price : Option ℕ
  pub prediction_confidence : Option ℕ
  pub prediction_used : Bool
  pub upcoming_sale_name : Option String
  pub upcoming_sale_days : Option ℕ
  pub freshness_status : FreshnessStatus
  pub qualifying_observation_count : ℕ
  pub expected_saving_basis : Option String

-- A line of `reasons`: the decision, the rule that is cited, or the disclaimer.
pub data ReasonLine : Type 0 where
  decision_is : Recommendation → ReasonLine
  cites : RuleId → ReasonLine
  disclaimer : ReasonLine

pub record RecommendationResult : Type 0 where
  pub recommendation : Recommendation
  pub expected_saving : Option ℕ
  pub expected_saving_value_kind : Option ValueKind
  pub confidence : ℕ
  pub reasons : List ReasonLine
  pub triggered_rule_ids : List RuleId
  pub prediction_used : Bool
  pub insufficient : Option InsufficientRecommendationReason
  pub evidence : EvidenceSnapshot
  pub evaluated_rules : List EvaluatedRule
  pub product_id : Uuid
  pub product_variant_id : Uuid
  pub as_of : Datetime
  pub currency : String

-- The thresholds, with the three checks of `_thresholds_are_ordered`.
pub record RecommendationConfig : Type 0 where
  pub buy_percentile_max : ℕ
  pub buy_strong_percentile_max : ℕ
  pub near_historical_low_percent : ℕ
  pub near_historical_low_strong_percent : ℕ
  pub wait_percentile_min : ℕ
  pub min_predicted_savings_percent : ℕ
  pub min_above_average_percent : ℕ
  pub min_prediction_confidence : ℕ
  pub upcoming_horizon_days : ℕ
  pub min_observations : ℕ
  pub strong_percentile_ordered : buy_strong_percentile_max ≤ buy_percentile_max
  pub percentiles_ordered : buy_percentile_max < wait_percentile_min
  pub near_low_ordered : near_historical_low_strong_percent ≤ near_historical_low_percent

-- `a is b` and `a == b` of two members of the enumerations.
abbrev pub same_rule : RuleId → RuleId → Bool
same_rule a b = rule_number a == rule_number b

abbrev pub same_recommendation : Recommendation → Recommendation → Bool
same_recommendation Recommendation.buy_now Recommendation.buy_now = true
same_recommendation Recommendation.wait Recommendation.wait = true
same_recommendation Recommendation.watch Recommendation.watch = true
same_recommendation Recommendation.insufficient_data Recommendation.insufficient_data = true
same_recommendation _ _ = false

abbrev pub is_insufficient : Recommendation → Bool
is_insufficient Recommendation.insufficient_data = true
is_insufficient _ = false

abbrev pub is_trend : TrendDirection → Option TrendDirection → Bool
is_trend TrendDirection.rising (some TrendDirection.rising) = true
is_trend TrendDirection.falling (some TrendDirection.falling) = true
is_trend TrendDirection.stable (some TrendDirection.stable) = true
is_trend TrendDirection.insufficient_history (some TrendDirection.insufficient_history) = true
is_trend _ _ = false
