-- ===== src/Recommendation/Projection.antt =====
-- `input_from_variant_history` of backend/app/recommendation/engine.py: the price history of a variant
-- as the input of the recommendation engine.
use Prim.Native.String.{String}
use price_intelligence_india.Base.{ℕ, Option, none, some, List}
use price_intelligence_india.Domain.{Datetime, FreshnessStatus, ValueKind}
use price_intelligence_india.Pricing.Freshness.{FreshnessWindows, classify_freshness}
use price_intelligence_india.Pricing.History.Points.{
  HistoricalObservationPoint, CalculatedMetric, VariantHistory,
}
use price_intelligence_india.Pricing.History.Engine.{currency_of}
use price_intelligence_india.Recommendation.Models.{
  OptionalMetric, PredictionInput, UpcomingSaleInput, RecommendationInput,
}

-- `_optional_from_calculated`
abbrev pub optional_from_calculated : CalculatedMetric ℕ → ValueKind → OptionalMetric
optional_from_calculated metric value_kind = record {
  value = metric.value;
  value_kind = value_kind;
  status = metric.status;
  unit = metric.unit;
  observation_count = some metric.observation_count;
  window_days = metric.window_days;
}

-- The price, its kind and its field.
abbrev pub CurrentPrice : Type 0
CurrentPrice = Option ℕ × Option ValueKind × Option String

abbrev price_of : HistoricalObservationPoint → Option ℕ → CurrentPrice
price_of current (some price) = (some price, some ValueKind.calculated, some "effective_price")
price_of current none =
    (some current.displayed_price, some ValueKind.observed, some "displayed_price")

abbrev pub current_price_of : Option HistoricalObservationPoint → CurrentPrice
current_price_of none = (none, none, none)
current_price_of (some current) = price_of current current.effective_price

abbrev freshness_of :
    Option HistoricalObservationPoint → Datetime → FreshnessWindows → FreshnessStatus
freshness_of none moment windows = FreshnessStatus.missing
freshness_of (some current) moment windows =
    classify_freshness (some current.observed_at) moment windows

abbrev moment_of : Option Datetime → Datetime → Datetime
moment_of (some as_of) calculated_at = as_of
moment_of none calculated_at = calculated_at

unfoldable pub input_from_variant_history :
    VariantHistory
    → Option PredictionInput
    → List UpcomingSaleInput
    → (as_of : Option Datetime) → FreshnessWindows
    → RecommendationInput
input_from_variant_history history prediction upcoming_events as_of windows =
    let current = history.current_observation in
    let moment = moment_of as_of history.calculated_at in
    let (price, kind, field) = current_price_of current in
    let optional = λ (metric : CalculatedMetric ℕ).
      some (optional_from_calculated metric ValueKind.calculated) in
    record {
      as_of = moment;
      product_id = history.product_id;
      product_variant_id = history.product_variant_id;
      currency = currency_of current;
      current_effective_price = price;
      current_price_value_kind = kind;
      current_price_field = field;
      qualifying_observation_count = history.qualifying_observation_count;
      freshness_status = freshness_of current moment windows;
      historical_percentile = optional history.current_price_percentile;
      historical_low = optional history.historical_low.metric;
      average_30d = optional history.average_30d;
      average_90d = optional history.average_90d;
      trend_direction = some history.trend.direction;
      prediction = prediction;
      upcoming_events = upcoming_events;
    }
