-- ===== src/Pricing/History/Changes.antt =====
-- The change against the baseline, the price drop and the trend of history.py.
use price_intelligence_india.Base.{
  ℕ, ◌+◌, ◌-◌, ◌*◌, Bool, ◌&&◌, Option, none, some, List, [], ◌∷◌, ℤ, pos, sub_ℕ, pos_part,
  neg_part, ltb_ℤ, filter, length, sum_of, if◌then◌else◌, leb, ltb, ◌==◌,
}
use price_intelligence_india.Domain.{
  Datetime, MetricStatus, InsufficientReasonCode, TrendDirection, rising, falling, stable,
}
use price_intelligence_india.Money.{round_half_up}
use price_intelligence_india.Pricing.History.Points.{
  HistoricalObservationPoint, analysis_price, same_listing, comes_strictly_before, day, MetricExtra,
  CalculatedMetric, PriceDropResult, TrendResult,
}
use price_intelligence_india.Pricing.History.Metrics.{unavailable_metric, available_metric}

-- `points[-1]`
abbrev pub last? {ℓ} : {A : Type ℓ} → List A → Option A
last? [] = none
last? (x ∷ []) = some x
last? (x ∷ y ∷ ys) = last? (y ∷ ys)

-- `_baseline_for`
unfoldable pub baseline_for :
    HistoricalObservationPoint → List HistoricalObservationPoint → Option HistoricalObservationPoint
baseline_for current points =
    last? (filter (λ p. same_listing p current && comes_strictly_before p current) points)

-- A signed quotient: `ROUND_HALF_UP` rounds its size.
abbrev pub round_signed : (plus minus : ℕ) → (den : ℕ) → ℤ
round_signed plus minus den =
    if leb minus plus
    then pos (round_half_up (plus - minus) den)
    else sub_ℕ 0 (round_half_up (minus - plus) den)

abbrev pub change_percent : (current baseline : ℕ) → ℤ
change_percent current baseline = round_signed (current * 1_000_000) (baseline * 1_000_000) baseline

abbrev change_unavailable : Datetime → ℕ → InsufficientReasonCode → CalculatedMetric ℤ
change_unavailable as_of count code = unavailable_metric "percent" as_of count code none

-- The metric and the baseline.
abbrev pub Change : Type 0
Change = CalculatedMetric ℤ × Option HistoricalObservationPoint

abbrev change_from :
    HistoricalObservationPoint → Option HistoricalObservationPoint → Datetime → ℕ → Change
change_from current none as_of count =
    (change_unavailable as_of count InsufficientReasonCode.no_comparison_baseline, none)
change_from current (some baseline) as_of count =
    if analysis_price baseline == 0
    then (change_unavailable as_of count InsufficientReasonCode.zero_baseline_price, some baseline)
    else (
      available_metric (change_percent (analysis_price current) (analysis_price baseline)) "percent"
          as_of count none
          (MetricExtra.change_extra (analysis_price current) (analysis_price baseline)
            baseline.snapshot_id),
      some baseline,
    )

unfoldable pub percentage_change :
    List HistoricalObservationPoint → Option HistoricalObservationPoint → Datetime → Change
unfolding baseline_for
percentage_change points none as_of =
    (change_unavailable as_of (length points) InsufficientReasonCode.no_current_price, none)
percentage_change points (some current) as_of =
    change_from current (baseline_for current points) as_of (length points)

abbrev of_point {ℓ} :
    {A : Type ℓ} → (HistoricalObservationPoint → A) → Option HistoricalObservationPoint → Option A
of_point f none = none
of_point f (some point) = some (f point)

abbrev seller_of : Option HistoricalObservationPoint → Option ℕ
seller_of none = none
seller_of (some point) = point.seller_id

abbrev drop_result :
    MetricStatus
    → (drop_occurred : Option Bool) → (percentage_change : Option ℤ) → Option InsufficientReasonCode
    → (current baseline : Option HistoricalObservationPoint) → Datetime
    → ℕ
    → PriceDropResult
drop_result status drop_occurred percent insufficient current baseline as_of count = record {
  status = status;
  drop_occurred = drop_occurred;
  percentage_change = percent;
  current_price = of_point analysis_price current;
  baseline_price = of_point analysis_price baseline;
  current_observed_at = of_point (λ p. p.observed_at) current;
  baseline_observed_at = of_point (λ p. p.observed_at) baseline;
  current_snapshot_id = of_point (λ p. p.snapshot_id) current;
  baseline_snapshot_id = of_point (λ p. p.snapshot_id) baseline;
  baseline_retailer_id = of_point (λ p. p.retailer_id) baseline;
  baseline_seller_id = seller_of baseline;
  observation_count = count;
  calculated_at = as_of;
  insufficient = insufficient;
}

abbrev drop_known :
    MetricStatus → (current baseline : Option HistoricalObservationPoint) → Option Bool
drop_known MetricStatus.available (some current) (some baseline) =
    some (ltb (analysis_price current) (analysis_price baseline))
drop_known _ _ _ = none

unfoldable pub detect_price_drop :
    (current baseline : Option HistoricalObservationPoint)
    → CalculatedMetric ℤ
    → Datetime
    → ℕ
    → PriceDropResult
detect_price_drop current baseline change as_of count =
    elim (drop_known change.status current baseline) [
      | none ↦
          drop_result MetricStatus.insufficient_history none none change.insufficient current
            baseline as_of count
      | some drop ↦
          drop_result MetricStatus.available (some drop) change.value none current baseline as_of
            count
    ]

-- `_days_since`, in microseconds: the points are in the order of their times.
abbrev pub since : Datetime → HistoricalObservationPoint → ℕ
since origin point = point.observed_at - origin

-- The sums of the least squares over the times since `origin`.
abbrev pub sum_x : Datetime → List HistoricalObservationPoint → ℕ
sum_x origin = sum_of (since origin)

abbrev pub sum_y : List HistoricalObservationPoint → ℕ
sum_y = sum_of analysis_price

abbrev pub sum_xy : Datetime → List HistoricalObservationPoint → ℕ
sum_xy origin = sum_of λ p. since origin p * analysis_price p

abbrev pub sum_x2 : Datetime → List HistoricalObservationPoint → ℕ
sum_x2 origin = sum_of λ p. since origin p * since origin p

-- `n * sum_x2 - sum_x * sum_x`, which is never negative
abbrev pub denominator : Datetime → List HistoricalObservationPoint → ℕ
denominator origin points =
    length points * sum_x2 origin points - sum_x origin points * sum_x origin points

-- The slope, times `scale`, rounded: its numerator is the difference of two products.
abbrev pub scaled_slope : (scale den : ℕ) → Datetime → List HistoricalObservationPoint → ℤ
scaled_slope scale den origin points =
    round_signed (length points * sum_xy origin points * scale)
      (sum_x origin points * sum_y points * scale) den

abbrev trend_result :
    MetricStatus
    → TrendDirection
    → (implied slope : Option ℤ) → (first last : Option Datetime) → Option InsufficientReasonCode
    → Datetime
    → ℕ
    → TrendResult
trend_result status direction implied slope first last insufficient as_of count = record {
  status = status;
  direction = direction;
  implied_percent_change = implied;
  slope_per_day = slope;
  observation_count = count;
  first_observed_at = first;
  last_observed_at = last;
  calculated_at = as_of;
  insufficient = insufficient;
}

abbrev withheld_trend :
    (slope : Option ℤ)
    → (first last : Option Datetime) → InsufficientReasonCode
    → Datetime
    → ℕ
    → TrendResult
withheld_trend slope first last code as_of count =
    trend_result MetricStatus.insufficient_history TrendDirection.insufficient_history none slope
      first last (some code) as_of count

-- `abs(implied) <= stable_percent`, else the sign
abbrev pub direction_of : (stable_percent : ℕ) → ℤ → TrendDirection
direction_of stable_percent implied =
    if leb (pos_part implied + neg_part implied) stable_percent
    then stable
    else if ltb_ℤ (pos 0) implied
    then rising
    else falling

abbrev trend_of :
    List HistoricalObservationPoint
    → (first last : HistoricalObservationPoint) → Datetime
    → (stable_percent : ℕ) → TrendResult
trend_of points first last as_of stable_percent =
    let origin = first.observed_at in
    let den = denominator origin points in
    let slope = scaled_slope (100 * day) den origin points in
    let price = analysis_price first in
    let implied = scaled_slope (since origin last * 1_000_000) (den * price) origin points in
    if den == 0
    then withheld_trend none (some origin) (some last.observed_at)
        InsufficientReasonCode.zero_time_span as_of (length points)
    else if price == 0
    then withheld_trend (some slope) (some origin) (some last.observed_at)
        InsufficientReasonCode.zero_baseline_price as_of (length points)
    else trend_result MetricStatus.available (direction_of stable_percent implied) (some implied)
        (some slope) (some origin) (some last.observed_at) none as_of (length points)

abbrev pub last_of :
    HistoricalObservationPoint → List HistoricalObservationPoint → HistoricalObservationPoint
last_of p [] = p
last_of p (q ∷ qs) = last_of q qs

-- `last` is the last point; an empty list is withheld whatever the minimum.
unfoldable pub historical_trend :
    List HistoricalObservationPoint
    → Datetime
    → (min_count : ℕ) → (stable_percent : ℕ) → TrendResult
historical_trend [] as_of min_count stable_percent =
    withheld_trend none none none InsufficientReasonCode.no_qualifying_observations as_of 0
historical_trend (first ∷ rest) as_of min_count stable_percent =
    if ltb (length (first ∷ rest)) min_count
    then withheld_trend none none none InsufficientReasonCode.below_minimum_observation_count as_of
        (length (first ∷ rest))
    else trend_of (first ∷ rest) first (last_of first rest) as_of stable_percent
