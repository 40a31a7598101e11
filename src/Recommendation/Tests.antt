-- ===== src/Recommendation/Tests.antt =====
-- Sample payloads, runs of the recommendation engine on them, and its theorems at these inputs.
use price_intelligence_india.Base.{
  ℕ, ◌+◌, ◌*◌, ◌≤◌, ◌≡◌, refl, true, ◌&&◌, Option, none, some, List, [], ◌∷◌, arith, ltb, ◌==◌,
}
use price_intelligence_india.Domain.{
  ConfidenceLevel, FreshnessStatus, ValueKind, MetricStatus, TrendDirection, SaleEventSource,
  SaleEventStatus,
}
use price_intelligence_india.Base.Sort.{sort_by}
use price_intelligence_india.Money.{round_half_up}
use price_intelligence_india.Recommendation.Models.{
  Recommendation, InsufficientRecommendationReason, OptionalMetric, PredictionInput,
  UpcomingSaleInput, RecommendationInput, RecommendationConfig,
}
use price_intelligence_india.Recommendation.Rules.{
  metric_value, is_near_historical_low, percent_above, predicted_savings, prediction_is_usable,
  select_credible_upcoming, evaluate_gates, evaluate_prediction_usability, evaluate_buy_signals,
  evaluate_wait_signals, evaluate_watch_signals, strongly_favorable_from, weakly_favorable_from,
  wait_evidence_from, predicted_status, both,
}
use price_intelligence_india.Recommendation.Confidence.{
  insufficient_percent, unclipped_confidence, recommendation_confidence, evidence_score,
}
use price_intelligence_india.Recommendation.Engine.{
  recommend, decide, prediction_used, strongly, wait_fired, expected_saving,
}
use price_intelligence_india.Recommendation.Engine.Decision.{
  decision_table, recommend-eq-decision_table,
}
use price_intelligence_india.Recommendation.Engine.Evidence.{
  recommend-saving, recommend-unusable, recommend-confidence, without_prediction,
  predicted_price_of,
}
use price_intelligence_india.Pricing.History.Samples
use price_intelligence_india.Pricing.History.Samples.{unverified}
use price_intelligence_india.Pricing.History.Engine.{compute_variant}
use price_intelligence_india.Recommendation.Projection.{input_from_variant_history}
use price_intelligence_india.Recommendation.Unverified.{recommend-compute_variant-unverified}

abbrev config : RecommendationConfig
config = record {
  buy_percentile_max = 250_000;
  buy_strong_percentile_max = 150_000;
  near_historical_low_percent = 50_000;
  near_historical_low_strong_percent = 20_000;
  wait_percentile_min = 700_000;
  min_predicted_savings_percent = 50_000;
  min_above_average_percent = 50_000;
  min_prediction_confidence = 5_000;
  upcoming_horizon_days = 30;
  min_observations = 3;
  strong_percentile_ordered = omega arith;
  percentiles_ordered = omega arith;
  near_low_ordered = omega arith;
}

abbrev metric : ℕ → Option OptionalMetric
metric n = some record {
  value = some n;
  value_kind = ValueKind.calculated;
  status = MetricStatus.available;
  unit = "INR";
  observation_count = some 12;
  window_days = none;
}

abbrev prediction : (price confidence : ℕ) → Option PredictionInput
prediction price confidence = some record {
  value_kind = ValueKind.predicted;
  value_kind_is_predicted = refl;
  status = predicted_status;
  predicted_price = some price;
  confidence = some confidence;
  insufficient_reason = none;
  product_variant_id = none;
  retailer_id = none;
  seller_id = none;
  model_version = some "v1";
}

abbrev sale : (id days : ℕ) → SaleEventSource → UpcomingSaleInput
sale id days source = record {
  event_id = id;
  name = "sale";
  start_date = 1_000 + days;
  end_date = 2_000 + days;
  confidence = ConfidenceLevel.high;
  source = source;
  status = SaleEventStatus.before_event;
  days_until_start = days;
}

-- A payload of a price, its percentile and what is predicted, with a low of 900 rupees.
abbrev payload : ℕ → ℕ → Option PredictionInput → List UpcomingSaleInput → RecommendationInput
payload price percentile predicted events = record {
  as_of = 1_000;
  product_id = 1;
  product_variant_id = 2;
  currency = "INR";
  current_effective_price = some price;
  current_price_value_kind = some ValueKind.calculated;
  current_price_field = some "effective_price";
  qualifying_observation_count = 12;
  freshness_status = FreshnessStatus.fresh;
  historical_percentile = metric percentile;
  historical_low = metric 90_000;
  average_30d = metric 100_000;
  average_90d = none;
  trend_direction = some TrendDirection.stable;
  prediction = predicted;
  upcoming_events = events;
}

-- The engine opened, for runs by evaluation.
program : Unit {0}
unfolding recommend decide metric_value is_near_historical_low percent_above predicted_savings
    prediction_is_usable select_credible_upcoming evaluate_gates evaluate_prediction_usability
    evaluate_buy_signals evaluate_wait_signals evaluate_watch_signals strongly_favorable_from
    weakly_favorable_from wait_evidence_from expected_saving recommendation_confidence
    evidence_score unclipped_confidence round_half_up sort_by
program = tt

abbrev cheap : RecommendationInput
cheap = payload 91_000 100_000 none []

abbrev dear : RecommendationInput
dear = payload 120_000 800_000 (prediction 100_000 8_000) []

abbrev stale : RecommendationInput
stale = record cheap { freshness_status = FreshnessStatus.stale }

abbrev sales : List UpcomingSaleInput
sales =
    sale 1 20 SaleEventSource.manual_curation
    ∷ sale 2 5 SaleEventSource.observed_price_inference
    ∷ sale 3 10 SaleEventSource.official_api
    ∷ []

decisions :
    ((recommend config cheap).recommendation ≡ Recommendation.buy_now)
    × ((recommend config dear).recommendation ≡ Recommendation.wait)
    × ((recommend config stale).recommendation ≡ Recommendation.insufficient_data)
    × ((recommend config (payload 95_000 500_000 none [])).recommendation ≡ Recommendation.watch)
unfolding program
decisions = (refl, refl, refl, refl)

recommend-eq-decision_table_example :
    (recommend config dear).recommendation ≡ decision_table config dear
recommend-eq-decision_table_example = recommend-eq-decision_table config dear

recommend-saving_example :
    (prediction_is_usable dear.prediction config ≡ true)
    × (both
          (λ c p. (20_000 + p == c) && ltb 0 20_000)
          dear.current_effective_price
          (predicted_price_of dear.prediction)
        ≡ true)
unfolding program
recommend-saving_example = recommend-saving config dear 20_000 refl

abbrev doubtful : RecommendationInput
doubtful = payload 120_000 800_000 (prediction 100_000 3_000) []

recommend-unusable_example :
    let result = recommend config doubtful in
    let other = recommend config (without_prediction config doubtful) in
    (result.recommendation ≡ other.recommendation)
    × (result.confidence ≡ other.confidence)
    × (result.expected_saving ≡ none)
    × (other.expected_saving ≡ none)
    × (result.evidence ≡ other.evidence)
unfolding prediction_is_usable
recommend-unusable_example = recommend-unusable config doubtful refl

recommend-confidence_example :
    let result = recommend config dear in
    (result.confidence
      ≡ unclipped_confidence dear
          (prediction_used config dear)
          (strongly config dear && wait_fired config dear)
          result.recommendation
          config)
    × (result.confidence ≤ 100 * insufficient_percent result.recommendation)
recommend-confidence_example = recommend-confidence config dear (omega arith)

first_sale : select_credible_upcoming sales config ≡ some (sale 3 10 SaleEventSource.official_api)
unfolding program
first_sale = refl

abbrev unverified_payload : RecommendationInput
unverified_payload =
    input_from_variant_history (compute_variant Samples.config Samples.now 1 2 unverified none)
      (prediction 100_000 9_000) [] none Samples.config.windows

recommend-compute_variant-unverified_example :
    ((recommend config unverified_payload).recommendation ≡ Recommendation.insufficient_data)
    × ((recommend config unverified_payload).insufficient
        ≡ some InsufficientRecommendationReason.no_current_price)
recommend-compute_variant-unverified_example =
    recommend-compute_variant-unverified config Samples.config Samples.now 1 2 unverified none
      (prediction 100_000 9_000) [] none refl
