-- ===== src/Pricing/History/Metrics.antt =====
-- The window averages, the extrema, the percentile and the volatility of history.py.
use Prim.Native.String.{String}
use price_intelligence_india.Base.{
  ℕ, zero, suc, ◌+◌, ◌-◌, ◌*◌, min, max, Bool, true, false, Option, none, some, List, [], ◌∷◌,
  filter, head?, length, foldl, sum_of, if◌then◌else◌, leb, ltb, ◌==◌,
}
use price_intelligence_india.Base.Search.{last_passing}
use price_intelligence_india.Base.Sort.{sort_by}
use price_intelligence_india.Domain.{Datetime, MetricStatus, InsufficientReasonCode}
use price_intelligence_india.Money.{round_half_up}
use price_intelligence_india.Pricing.History.Points.{
  HistoricalObservationPoint, analysis_price, comes_before, window_points, MetricExtra,
  CalculatedMetric, ExtremaMetric,
}

-- `_unavailable_metric` and `_available_metric`
abbrev pub unavailable_metric :
    {V : Type 0}
    → String
    → Datetime
    → (observation_count : ℕ) → InsufficientReasonCode
    → (window_days : Option ℕ) → CalculatedMetric V
unavailable_metric unit as_of count code window_days = record {
  status = MetricStatus.insufficient_history;
  value = none;
  unit = unit;
  window_days = window_days;
  observation_count = count;
  calculated_at = as_of;
  insufficient = some code;
  extra = MetricExtra.no_extra;
}

abbrev pub available_metric :
    {V : Type 0}
    → V
    → String
    → Datetime
    → (observation_count : ℕ) → (window_days : Option ℕ) → MetricExtra
    → CalculatedMetric V
available_metric value unit as_of count window_days extra = record {
  status = MetricStatus.available;
  value = some value;
  unit = unit;
  window_days = window_days;
  observation_count = count;
  calculated_at = as_of;
  insufficient = none;
  extra = extra;
}

abbrev pub total_price : List HistoricalObservationPoint → ℕ
total_price = sum_of analysis_price

unfoldable pub window_average :
    List HistoricalObservationPoint
    → (window_days : ℕ) → Datetime
    → (min_count : ℕ) → String
    → CalculatedMetric ℕ
window_average points window_days as_of min_count unit =
    let in_window = window_points points as_of window_days in
    let count = length in_window in
    if count == 0
    then unavailable_metric unit as_of 0 InsufficientReasonCode.no_observations_in_window
        (some window_days)
    else if ltb count min_count
    then unavailable_metric unit as_of count InsufficientReasonCode.below_minimum_observation_count
        (some window_days)
    else available_metric (round_half_up (total_price in_window) count) unit as_of count
        (some window_days) MetricExtra.no_extra

-- `min(...)` and `max(...)` of the prices
abbrev pub lowest : List HistoricalObservationPoint → ℕ
lowest [] = 0
lowest (point ∷ points) = foldl (λ low p. min low (analysis_price p)) (analysis_price point) points

abbrev pub highest : List HistoricalObservationPoint → ℕ
highest [] = 0
highest (point ∷ points) =
    foldl (λ high p. max high (analysis_price p)) (analysis_price point) points

-- `min(candidates, key=_sort_key)`: the first of those that come first
abbrev pub earliest : List HistoricalObservationPoint → Option HistoricalObservationPoint
earliest candidates = head? (sort_by comes_before candidates)

abbrev without_origin : CalculatedMetric ℕ → ExtremaMetric
without_origin metric = record {
  metric = metric;
  snapshot_id = none;
  observed_at = none;
  retailer_id = none;
  seller_id = none;
  source_url = none;
}

abbrev with_origin :
    (metric_of : ℕ → CalculatedMetric ℕ) → Option HistoricalObservationPoint → ExtremaMetric
with_origin metric_of none = without_origin (metric_of 0)
with_origin metric_of (some winner) = record {
  metric = metric_of (analysis_price winner);
  snapshot_id = some winner.snapshot_id;
  observed_at = some winner.observed_at;
  retailer_id = some winner.retailer_id;
  seller_id = winner.seller_id;
  source_url = winner.source_url;
}

-- `_extrema`: there is always a candidate.
unfoldable pub extrema :
    (pick_high : Bool)
    → List HistoricalObservationPoint
    → Datetime
    → (min_count : ℕ) → String
    → ExtremaMetric
extrema pick_high points as_of min_count unit =
    let count = length points in
    let target = if pick_high then highest points else lowest points in
    if count == 0
    then without_origin
        (unavailable_metric unit as_of 0 InsufficientReasonCode.no_qualifying_observations none)
    else if ltb count min_count
    then without_origin (
        unavailable_metric unit as_of count InsufficientReasonCode.below_minimum_observation_count
          none)
    else with_origin (λ price. available_metric price unit as_of count none MetricExtra.no_extra)
        (earliest (filter (λ p. analysis_price p == target) points))

unfoldable pub historical_low :
    List HistoricalObservationPoint → Datetime → (min_count : ℕ) → String → ExtremaMetric
unfolding extrema
historical_low = extrema false

unfoldable pub historical_high :
    List HistoricalObservationPoint → Datetime → (min_count : ℕ) → String → ExtremaMetric
unfolding extrema
historical_high = extrema true

abbrev pub at_or_below : ℕ → List HistoricalObservationPoint → ℕ
at_or_below price points = length (filter (λ p. leb (analysis_price p) price) points)

-- In ten-thousandths of a percent.
unfoldable pub current_price_percentile :
    List HistoricalObservationPoint
    → Option HistoricalObservationPoint
    → Datetime
    → (min_count : ℕ) → CalculatedMetric ℕ
current_price_percentile points none as_of min_count =
    unavailable_metric "percentile" as_of (length points) InsufficientReasonCode.no_current_price
      none
current_price_percentile points (some current) as_of min_count =
    let count = length points in
    let price = analysis_price current in
    if ltb count min_count
    then unavailable_metric "percentile" as_of count
        InsufficientReasonCode.below_minimum_observation_count none
    else available_metric (round_half_up (at_or_below price points * 1_000_000) count) "percentile"
        as_of count none (MetricExtra.percentile_extra price)

-- The distance of two numbers
abbrev pub distance : ℕ → ℕ → ℕ
distance a b = (a - b) + (b - a)

-- `n * n * sum((price - mean) ** 2)`: the mean is `total / n`, so each difference is taken times n.
abbrev pub squares : (n total : ℕ) → List HistoricalObservationPoint → ℕ
squares n total =
    sum_of λ p. distance (n * analysis_price p) total * distance (n * analysis_price p) total

-- `r` is at most half a unit above the root of `num / den`.
abbrev pub is_below_root : (num den : ℕ) → ℕ → Bool
is_below_root num den zero = true
is_below_root num den (suc k) = leb ((2 * k + 1) * (2 * k + 1) * den) (4 * num)

-- The number of bits of a root that is searched: prices are below 2 ^ 40 paise.
abbrev pub root_bits : ℕ
root_bits = 40

-- `sqrt` of a quotient, rounded half up
unfoldable pub rounded_root : (num den : ℕ) → ℕ
unfolding last_passing
rounded_root num den = last_passing (is_below_root num den) root_bits 0

-- The sample variance, as a quotient.
abbrev pub variance_num : List HistoricalObservationPoint → ℕ
variance_num points = squares (length points) (total_price points) points

abbrev pub variance_den : List HistoricalObservationPoint → ℕ
variance_den points = length points * length points * (length points - 1)

abbrev pub deviation : List HistoricalObservationPoint → ℕ
deviation points = rounded_root (variance_num points) (variance_den points)

unfoldable pub price_volatility :
    List HistoricalObservationPoint → Datetime → (min_count : ℕ) → String → CalculatedMetric ℕ
price_volatility points as_of min_count unit =
    let n = length points in
    let total = total_price points in
    let stdev = deviation points in
    if ltb n min_count
    then unavailable_metric unit as_of n
        (if n == 0
          then InsufficientReasonCode.no_qualifying_observations
          else InsufficientReasonCode.below_minimum_observation_count)
        none
    else available_metric stdev unit as_of n none (
        MetricExtra.volatility_extra (round_half_up total n)
          (if ltb 0 total then some (round_half_up (stdev * n * 10_000) total) else none))
