-- ===== src/Recommendation/Rules/Values.antt =====
-- The values that backend/app/recommendation/rules.py compares: metrics, savings, the prediction and
-- the upcoming sale.
use price_intelligence_india.Base.{
  ℕ, ◌+◌, ◌-◌, ◌*◌, Bool, true, false, ◌&&◌, ◌||◌, not, Option, none, some, List, [], ◌∷◌, ℤ, pos,
  sub_ℕ, is_some, if◌then◌else◌, filter, head?, leb, ◌==◌, compare,
}
use price_intelligence_india.Base.Compare.{compare_list, is_le, is_eq}
use price_intelligence_india.Base.Sort.{sort_by}
use price_intelligence_india.Domain.{
  Text, ConfidenceLevel, ValueKind, MetricStatus, SaleEventSource, SaleEventStatus,
}
use price_intelligence_india.Money.{round_half_up}
use price_intelligence_india.Recommendation.Models.{
  OptionalMetric, PredictionInput, UpcomingSaleInput, RecommendationConfig,
}

abbrev computed : MetricStatus → Option ℕ → Option ℕ
computed MetricStatus.available value = value
computed MetricStatus.insufficient_history value = none

unfoldable pub metric_value : Option OptionalMetric → Option ℕ
metric_value none = none
metric_value (some m) = computed m.status m.value

-- `PREDICTED_STATUS`: the code points of "PREDICTED"
abbrev pub predicted_status : Text
predicted_status = 80 ∷ 82 ∷ 69 ∷ 68 ∷ 73 ∷ 67 ∷ 84 ∷ 69 ∷ 68 ∷ []

abbrev pub has_status : PredictionInput → Bool
has_status p = is_eq (compare_list compare p.status predicted_status)

abbrev is_predicted_kind : ValueKind → Bool
is_predicted_kind ValueKind.predicted = true
is_predicted_kind _ = false

-- Both numbers are known, and `test` holds of them.
abbrev pub both : (ℕ → ℕ → Bool) → Option ℕ → Option ℕ → Bool
both test (some a) (some b) = test a b
both test _ _ = false

-- The amount is known, and `test` holds of it and a threshold.
abbrev pub known : (ℕ → ℕ → Bool) → Option ℕ → ℕ → Bool
known test (some a) threshold = test a threshold
known test none threshold = false

-- `low * (1 + percent / 100)` to the nearest paisa
abbrev pub near_ceiling : ℕ → ℕ → ℕ
near_ceiling percent low = round_half_up (low * (1_000_000 + percent)) 1_000_000

unfoldable pub is_near_historical_low : Option ℕ → Option ℕ → ℕ → Bool
is_near_historical_low current historical_low percent =
    both (λ c low. leb c (near_ceiling percent low)) current historical_low

-- `ROUND_HALF_UP` rounds the size of a negative quotient.
unfoldable pub percent_above : ℕ → ℕ → Option ℤ
percent_above current baseline =
    if baseline == 0
    then none
    else if leb baseline current
    then some (pos (round_half_up ((current - baseline) * 1_000_000) baseline))
    else some (sub_ℕ 0 (round_half_up ((baseline - current) * 1_000_000) baseline))

-- The amount and its percent of the current price.
unfoldable pub predicted_savings : Option ℕ → Option ℕ → Option ℕ × Option ℕ
predicted_savings (some current) (some predicted) =
    if current == 0 || leb current predicted then (none, none) else (
      some (current - predicted),
      some (round_half_up ((current - predicted) * 1_000_000) current),
    )
predicted_savings _ _ = (none, none)

unfoldable pub prediction_is_usable : Option PredictionInput → RecommendationConfig → Bool
prediction_is_usable none config = false
prediction_is_usable (some p) config =
    has_status p
    && is_some p.predicted_price
    && is_predicted_kind p.value_kind
    && known (λ c threshold. leb threshold c) p.confidence config.min_prediction_confidence

abbrev pub is_before : SaleEventStatus → Bool
is_before SaleEventStatus.before_event = true
is_before _ = false

abbrev pub is_inferred : SaleEventSource → Bool
is_inferred SaleEventSource.observed_price_inference = true
is_inferred _ = false

abbrev pub is_low : ConfidenceLevel → Bool
is_low ConfidenceLevel.low = true
is_low _ = false

abbrev pub is_credible : RecommendationConfig → UpcomingSaleInput → Bool
is_credible config e =
    is_before e.status
    && not (is_inferred e.source)
    && not (is_low e.confidence)
    && leb e.days_until_start config.upcoming_horizon_days

-- `(item.days_until_start, item.start_date, item.event_id)`
abbrev pub sale_key : UpcomingSaleInput → List ℕ
sale_key e = e.days_until_start ∷ e.start_date ∷ e.event_id ∷ []

abbrev pub starts_before : UpcomingSaleInput → UpcomingSaleInput → Bool
starts_before a b = is_le (compare_list compare (sale_key a) (sale_key b))

unfoldable pub select_credible_upcoming :
    List UpcomingSaleInput → RecommendationConfig → Option UpcomingSaleInput
select_credible_upcoming events config =
    head? (sort_by starts_before (filter (is_credible config) events))
