-- ===== src/Recommendation/Confidence.antt =====
-- backend/app/recommendation/engine.py: the confidence of a recommendation.
use price_intelligence_india.Base.{
  ℕ, ◌+◌, ◌*◌, min, Bool, ◌&&◌, not, Option, none, some, is_some, if◌then◌else◌,
}
use price_intelligence_india.Domain.{FreshnessStatus, TrendDirection}
use price_intelligence_india.Money.{round_half_up}
use price_intelligence_india.Recommendation.Models.{
  Recommendation, PredictionInput, RecommendationInput, RecommendationConfig, is_insufficient,
  is_trend,
}
use price_intelligence_india.Recommendation.Rules.{metric_value, select_credible_upcoming}

abbrev pub points_if : Bool → ℕ → ℕ
points_if b n = if b then n else 0

-- `_CONF_FRESH` and `_CONF_AGING`
abbrev pub freshness_points : FreshnessStatus → ℕ
freshness_points FreshnessStatus.fresh = 15_000
freshness_points FreshnessStatus.aging = 7_000
freshness_points _ = 0

abbrev pub has_trend : Option TrendDirection → Bool
has_trend direction =
    is_some direction && not (is_trend TrendDirection.insufficient_history direction)

abbrev pub prediction_confidence : Option PredictionInput → Option ℕ
prediction_confidence none = none
prediction_confidence (some p) = p.confidence

-- `_CONF_PRED_CAP * confidence`: a tenth of ten-thousandths
abbrev pub prediction_points : Bool → Option PredictionInput → ℕ
prediction_points used prediction = elim (prediction_confidence prediction) [
  | none ↦ 0
  | some c ↦ if used then c else 0
]

-- `score` before it is reduced, in hundred-thousandths
unfoldable pub evidence_score : RecommendationInput → Bool → RecommendationConfig → ℕ
evidence_score payload prediction_used config =
    points_if (is_some payload.current_effective_price) 20_000
    + points_if (is_some (metric_value payload.historical_percentile)) 15_000
    + points_if (is_some (metric_value payload.historical_low)) 10_000
    + points_if (is_some (metric_value payload.average_30d)) 10_000
    + points_if (is_some (metric_value payload.average_90d)) 10_000
    + points_if (has_trend payload.trend_direction) 5_000
    + freshness_points payload.freshness_status
    + prediction_points prediction_used payload.prediction
    + points_if (is_some (select_credible_upcoming payload.upcoming_events config)) 5_000

-- `score *= 0.75` and `score *= 0.50`, as percents
abbrev pub conflict_percent : Bool → ℕ
conflict_percent conflict = if conflict then 75 else 100

abbrev pub insufficient_percent : Recommendation → ℕ
insufficient_percent decision = if is_insufficient decision then 50 else 100

-- `quantize_ratio(score)`
unfoldable pub unclipped_confidence :
    RecommendationInput
    → (prediction_used conflict : Bool) → Recommendation
    → RecommendationConfig
    → ℕ
unclipped_confidence payload prediction_used conflict decision config =
    round_half_up
      (evidence_score payload prediction_used config
        * (conflict_percent conflict * insufficient_percent decision))
      100_000

-- The lower clip is the one of ℕ.
unfoldable pub recommendation_confidence :
    RecommendationInput
    → (prediction_used conflict : Bool) → Recommendation
    → RecommendationConfig
    → ℕ
unfolding unclipped_confidence evidence_score
recommendation_confidence payload prediction_used conflict decision config =
    min 10_000 (unclipped_confidence payload prediction_used conflict decision config)
