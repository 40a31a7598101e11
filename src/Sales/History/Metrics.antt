-- ===== src/Sales/History/Metrics.antt =====
-- The statistics of history.py: the average and the extrema of a sale, the baseline outside it and
-- the percentage between them.
use Prim.Native.String.{String}
use price_intelligence_india.Base.{
  ℕ, zero, suc, ◌+◌, ◌-◌, ◌*◌, ◌/◌, ◌%◌, Bool, Option, none, some, List, [], ◌∷◌, ℤ, map, length,
  sum_of, compare, leb, ltb, ◌==◌, if◌then◌else◌,
}
use price_intelligence_india.Base.Compare.{compare_list, is_le}
use price_intelligence_india.Base.Sort.{sort_by}
use price_intelligence_india.Domain.{Datetime, MetricStatus}
use price_intelligence_india.Money.{round_half_up}
use price_intelligence_india.Pricing.History.Points.{HistoricalObservationPoint, analysis_price}
use price_intelligence_india.Pricing.History.Changes.{round_signed}
use price_intelligence_india.Validation.Outcome.{DomainError, Validated, ok, raised, ◌>>=◌}
use price_intelligence_india.Sales.Models.{
  SaleInsufficientReasonCode, SaleExtra, SaleCalculatedMetric,
}

-- `_unavailable`
abbrev pub unavailable :
    {V : Type 0}
    → String
    → Datetime
    → (observation_count : ℕ) → SaleInsufficientReasonCode
    → SaleCalculatedMetric V
unavailable unit as_of count code = record {
  status = MetricStatus.insufficient_history;
  value = none;
  unit = unit;
  observation_count = count;
  calculated_at = as_of;
  insufficient = some code;
  extra = SaleExtra.no_extra;
}

-- `_available`
abbrev pub available :
    {V : Type 0}
    → V
    → String
    → Datetime
    → (observation_count : ℕ) → SaleExtra
    → SaleCalculatedMetric V
available value unit as_of count extra = record {
  status = MetricStatus.available;
  value = some value;
  unit = unit;
  observation_count = count;
  calculated_at = as_of;
  insufficient = none;
  extra = extra;
}

abbrev pub total_price : List HistoricalObservationPoint → ℕ
total_price = sum_of analysis_price

-- `_mean`, which is called of at least one point: the minimum of a configuration is at least one.
unfoldable pub mean : List HistoricalObservationPoint → ℕ
mean points = round_half_up (total_price points) (length points)

-- `_extrema_sort_key`
abbrev pub extrema_sort_key : HistoricalObservationPoint → List ℕ
extrema_sort_key item = analysis_price item ∷ item.observed_at ∷ item.snapshot_id ∷ []

abbrev pub is_cheaper_or_same : HistoricalObservationPoint → HistoricalObservationPoint → Bool
is_cheaper_or_same a b = is_le (compare_list compare (extrema_sort_key a) (extrema_sort_key b))

-- `min(points, key=...)`: the first of the least.
unfoldable pub min_point :
    HistoricalObservationPoint → List HistoricalObservationPoint → HistoricalObservationPoint
min_point best [] = best
min_point best (p ∷ ps) = min_point (if is_cheaper_or_same best p then best else p) ps

-- `max(points, key=...)`: the first of the greatest.
unfoldable pub max_point :
    HistoricalObservationPoint → List HistoricalObservationPoint → HistoricalObservationPoint
max_point best [] = best
max_point best (p ∷ ps) = max_point (if is_cheaper_or_same p best then best else p) ps

abbrev extremum : HistoricalObservationPoint → String → Datetime → ℕ → SaleCalculatedMetric ℕ
extremum point unit as_of count =
    available (analysis_price point) unit as_of count
      (SaleExtra.extremum_extra point.snapshot_id point.observed_at point.retailer_id)

pub record SaleStats : Type 0 where
  pub average : SaleCalculatedMetric ℕ
  pub low : SaleCalculatedMetric ℕ
  pub high : SaleCalculatedMetric ℕ

abbrev same_stats : SaleCalculatedMetric ℕ → SaleStats
same_stats metric = record { average = metric; low = metric; high = metric }

-- `_stats_from_points`, where the minimum is at least one: no points at all are too few.
unfoldable pub stats_from_points :
    List HistoricalObservationPoint → Datetime → (min_count : ℕ) → String → SaleStats
unfolding mean min_point max_point
stats_from_points [] as_of min_count unit =
    same_stats (unavailable unit as_of 0 SaleInsufficientReasonCode.no_observations_during_event)
stats_from_points (p ∷ ps) as_of min_count unit =
    let count = length (p ∷ ps) in
    if ltb count min_count
    then same_stats
        (unavailable unit as_of count SaleInsufficientReasonCode.below_minimum_observation_count)
    else record {
      average = available (mean (p ∷ ps)) unit as_of count SaleExtra.no_extra;
      low = extremum (min_point p ps) unit as_of count;
      high = extremum (max_point p ps) unit as_of count;
    }

-- The entry at a place of a list
abbrev pub nth : List ℕ → ℕ → ℕ
nth [] n = 0
nth (x ∷ xs) zero = x
nth (x ∷ xs) (suc n) = nth xs n

-- Twice `statistics.median`: the middle of the sorted numbers, or the mean of the two in the middle.
unfoldable pub median_twice : List ℕ → ℕ
median_twice numbers =
    let sorted = sort_by leb numbers in
    let half = length numbers / 2 in
    if length numbers % 2 == 1 then 2 * nth sorted half else nth sorted (half - 1) + nth sorted half

-- `SaleHistoryEngine._baseline`
unfoldable pub baseline :
    List HistoricalObservationPoint → Datetime → (min_count : ℕ) → String → SaleCalculatedMetric ℕ
unfolding mean median_twice
baseline [] as_of min_count unit =
    unavailable unit as_of 0 SaleInsufficientReasonCode.no_qualifying_observations
baseline (p ∷ ps) as_of min_count unit =
    let count = length (p ∷ ps) in
    if ltb count min_count
    then unavailable unit as_of count SaleInsufficientReasonCode.below_minimum_observation_count
    else available (mean (p ∷ ps)) unit as_of count
        (SaleExtra.baseline_extra (round_half_up (median_twice (map analysis_price (p ∷ ps))) 2))

abbrev code_or :
    Option SaleInsufficientReasonCode → SaleInsufficientReasonCode → SaleInsufficientReasonCode
code_or (some code) other = code
code_or none other = other

-- The value, if the status is available
abbrev pub known : SaleCalculatedMetric ℕ → Option ℕ
known metric = elim metric.status [
  | MetricStatus.available ↦ metric.value
  | MetricStatus.insufficient_history ↦ none
]

-- `(price - average) / price * 100` in ten-thousandths
unfoldable pub percent_below : (price average : ℕ) → Validated ℤ
percent_below price average =
    if price == 0
    then raised DomainError.division_by_zero
    else ok (round_signed (price * 1_000_000) (average * 1_000_000) price)

unfoldable pub percent_of :
    (sale_average base : Option ℕ)
    → (sale baseline : SaleCalculatedMetric ℕ) → Datetime
    → Validated (SaleCalculatedMetric ℤ)
unfolding percent_below
percent_of none base sale baseline as_of = ok (
    unavailable "percent" as_of sale.observation_count
      (code_or sale.insufficient SaleInsufficientReasonCode.no_observations_during_event))
percent_of (some average) none sale baseline as_of = ok (
    unavailable "percent" as_of baseline.observation_count
      (code_or baseline.insufficient SaleInsufficientReasonCode.no_qualifying_observations))
percent_of (some average) (some price) sale baseline as_of =
    if price == 0
    then ok (
        unavailable "percent" as_of sale.observation_count
          SaleInsufficientReasonCode.zero_baseline_price)
    else percent_below price average >>= λ percent. ok (
        available percent "percent" as_of sale.observation_count
          (SaleExtra.percent_extra baseline.observation_count))

-- `_percent_below_baseline`
unfoldable pub percent_below_baseline :
    (sale_average baseline : SaleCalculatedMetric ℕ) → Datetime → Validated (SaleCalculatedMetric ℤ)
unfolding percent_of
percent_below_baseline sale_average baseline as_of =
    percent_of (known sale_average) (known baseline) sale_average baseline as_of
