-- ===== src/Pricing/History/Points.antt =====
-- The records of backend/app/pricing/history_models.py, and which observations are used in which
-- order. Sentences are left out: a metric that is withheld carries its reason code.
use Prim.Native.String.{String}
use price_intelligence_india.Base.{
  ℕ, ◌+◌, ◌*◌, Bool, true, false, ◌&&◌, Option, none, some, List, [], ◌∷◌, ℤ, filter, compare, leb,
  ◌==◌, eq_option, Ordering,
}
use price_intelligence_india.Base.Compare.{compare_list, is_le}
use price_intelligence_india.Base.Sort.{sort_by}
use price_intelligence_india.Domain.{
  Uuid, Datetime, AvailabilityStatus, SourceType, ConfidenceLevel, MetricStatus,
  InsufficientReasonCode, TrendDirection,
}
use price_intelligence_india.Pricing.Models.{DataFreshness}

pub record HistoricalObservationPoint : Type 0 where
  pub snapshot_id : Uuid
  pub product_id : Uuid
  pub product_variant_id : Uuid
  pub variant_key : Option String
  pub retailer_id : Uuid
  pub retailer_slug : String
  pub retailer_name : String
  pub retailer_product_id : Uuid
  pub seller_id : Option Uuid
  pub source_url : Option String
  pub source_type : SourceType
  pub observed_at : Datetime
  pub created_at : Datetime
  pub currency : String
  pub displayed_price : ℕ
  pub effective_price : Option ℕ
  pub mrp : Option ℕ
  pub availability : AvailabilityStatus
  pub confidence : ConfidenceLevel

abbrev pub stored_or : Option ℕ → ℕ → ℕ
stored_or (some price) displayed = price
stored_or none displayed = displayed

abbrev pub analysis_price : HistoricalObservationPoint → ℕ
analysis_price point = stored_or point.effective_price point.displayed_price

abbrev is_verified : ConfidenceLevel → Bool
is_verified ConfidenceLevel.low = false
is_verified _ = true

abbrev pub qualifies_for_calculations : HistoricalObservationPoint → Bool
qualifies_for_calculations point = is_verified point.confidence

-- `a.listing_key == b.listing_key`
abbrev pub same_listing : HistoricalObservationPoint → HistoricalObservationPoint → Bool
same_listing a b =
    (a.retailer_product_id == b.retailer_product_id) && eq_option a.seller_id b.seller_id

-- `_sort_key`
abbrev pub sort_key : HistoricalObservationPoint → List ℕ
sort_key point = point.observed_at ∷ point.created_at ∷ point.snapshot_id ∷ []

abbrev pub comes_before : HistoricalObservationPoint → HistoricalObservationPoint → Bool
comes_before a b = is_le (compare_list compare (sort_key a) (sort_key b))

abbrev is_lt : Ordering → Bool
is_lt Ordering.lt = true
is_lt _ = false

-- `_sort_key(a) < _sort_key(b)`
abbrev pub comes_strictly_before : HistoricalObservationPoint → HistoricalObservationPoint → Bool
comes_strictly_before a b = is_lt (compare_list compare (sort_key a) (sort_key b))

unfoldable pub qualifying_observations :
    List HistoricalObservationPoint → List HistoricalObservationPoint
qualifying_observations points = sort_by comes_before (filter qualifies_for_calculations points)

-- A day in microseconds
abbrev pub day : ℕ
day = 86_400_000_000

-- `start <= point.observed_at <= as_of`, for the start `days` before `as_of`
abbrev pub is_in_window : Datetime → ℕ → HistoricalObservationPoint → Bool
is_in_window as_of days point =
    leb as_of (point.observed_at + days * day) && leb point.observed_at as_of

abbrev pub window_points :
    List HistoricalObservationPoint → Datetime → ℕ → List HistoricalObservationPoint
window_points points as_of days = filter (is_in_window as_of days) points

-- The `extra` of a metric, by the metric that writes it.
pub data MetricExtra : Type 0 where
  no_extra : MetricExtra
  percentile_extra : (current_price : ℕ) → MetricExtra
  volatility_extra : (mean : ℕ) → (coefficient_of_variation : Option ℕ) → MetricExtra
  change_extra : (current_price baseline_price : ℕ) → (baseline_snapshot_id : Uuid) → MetricExtra

-- `V` is the type of the value: a change may be negative.
pub record CalculatedMetric (V : Type 0) : Type 0 where
  pub status : MetricStatus
  pub value : Option V
  pub unit : String
  pub window_days : Option ℕ
  pub observation_count : ℕ
  pub calculated_at : Datetime
  pub insufficient : Option InsufficientReasonCode
  pub extra : MetricExtra

pub record ExtremaMetric : Type 0 where
  pub metric : CalculatedMetric ℕ
  pub snapshot_id : Option Uuid
  pub observed_at : Option Datetime
  pub retailer_id : Option Uuid
  pub seller_id : Option Uuid
  pub source_url : Option String

pub record PriceDropResult : Type 0 where
  pub status : MetricStatus
  pub drop_occurred : Option Bool
  pub percentage_change : Option ℤ
  pub current_price : Option ℕ
  pub baseline_price : Option ℕ
  pub current_observed_at : Option Datetime
  pub baseline_observed_at : Option Datetime
  pub current_snapshot_id : Option Uuid
  pub baseline_snapshot_id : Option Uuid
  pub baseline_retailer_id : Option Uuid
  pub baseline_seller_id : Option Uuid
  pub observation_count : ℕ
  pub calculated_at : Datetime
  pub insufficient : Option InsufficientReasonCode

pub record TrendResult : Type 0 where
  pub status : MetricStatus
  pub direction : TrendDirection
  pub implied_percent_change : Option ℤ
  pub slope_per_day : Option ℤ
  pub observation_count : ℕ
  pub first_observed_at : Option Datetime
  pub last_observed_at : Option Datetime
  pub calculated_at : Datetime
  pub insufficient : Option InsufficientReasonCode

pub record VariantHistory : Type 0 where
  pub product_id : Uuid
  pub product_variant_id : Uuid
  pub variant_key : Option String
  pub observations : List HistoricalObservationPoint
  pub qualifying_observation_count : ℕ
  pub excluded_unverified_observation_count : ℕ
  pub current_observation : Option HistoricalObservationPoint
  pub average_7d : CalculatedMetric ℕ
  pub average_30d : CalculatedMetric ℕ
  pub average_90d : CalculatedMetric ℕ
  pub average_180d : CalculatedMetric ℕ
  pub historical_low : ExtremaMetric
  pub historical_high : ExtremaMetric
  pub current_price_percentile : CalculatedMetric ℕ
  pub volatility : CalculatedMetric ℕ
  pub percentage_change : CalculatedMetric ℤ
  pub price_drop : PriceDropResult
  pub trend : TrendResult
  pub data_freshness : DataFreshness
  pub calculated_at : Datetime

pub record ProductHistory : Type 0 where
  pub product_id : Uuid
  pub variants : List VariantHistory
  pub data_freshness : DataFreshness
  pub calculated_at : Datetime
