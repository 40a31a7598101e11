-- ===== src/Sales/Models.antt =====
-- backend/app/sales/models.py, enums.py and config.py. The fields hold what the validators let
-- through: dates are aware, names are stripped and not blank. Sentences are left out: a statistic
-- that is withheld carries its reason code.
use Prim.Native.String.{String}
use price_intelligence_india.Base.{ℕ, ◌≤◌, Option, List, ℤ}
use price_intelligence_india.Domain.{
  Text, Uuid, Datetime, ConfidenceLevel, MetricStatus, SaleEventSource, SaleEventStatus,
  SaleEventType,
}
use price_intelligence_india.Pricing.History.Points.{HistoricalObservationPoint}
use price_intelligence_india.Validation.Outcome.{Validated}
use price_intelligence_india.Validation.SaleEvents.{Moment, validate_sale_event}

pub record SaleEventRecord : Type 0 where
  pub id : Uuid
  pub name : Text
  pub retailer_id : Option Uuid
  pub category_id : Option Uuid
  pub brand_id : Option Uuid
  pub start_date : Datetime
  pub end_date : Datetime
  pub event_type : SaleEventType
  pub source : SaleEventSource
  pub source_ref : Option Text
  pub confidence : ConfidenceLevel

-- `SaleEventRecord.model_post_init`: a record exists only if this does not raise.
unfoldable pub model_post_init : SaleEventRecord → Validated (Option Text)
model_post_init event =
    validate_sale_event event.event_type event.source event.source_ref event.retailer_id
      event.category_id event.brand_id (Moment.aware event.start_date) (Moment.aware event.end_date)

pub record SaleEventView : Type 0 where
  pub event : SaleEventRecord
  pub status : SaleEventStatus
  pub as_of : Datetime

pub record SalePricePoint : Type 0 where
  pub observation : HistoricalObservationPoint
  pub brand_id : Option Uuid
  pub category_id : Option Uuid

pub data SaleInsufficientReasonCode : Type 0 where
  no_qualifying_observations no_applicable_events no_observations_during_event
        below_minimum_observation_count zero_baseline_price insufficient_listings_for_detection :
      SaleInsufficientReasonCode

-- The `extra` of a statistic, by the statistic that writes it.
pub data SaleExtra : Type 0 where
  no_extra : SaleExtra
  extremum_extra : (snapshot_id : Uuid) (observed_at : Datetime) (retailer_id : Uuid) → SaleExtra
  baseline_extra : (median : ℕ) → SaleExtra
  percent_extra : (baseline_observation_count : ℕ) → SaleExtra

-- `V` is the type of the value: a percentage may be negative.
pub record SaleCalculatedMetric (V : Type 0) : Type 0 where
  pub status : MetricStatus
  pub value : Option V
  pub unit : String
  pub observation_count : ℕ
  pub calculated_at : Datetime
  pub insufficient : Option SaleInsufficientReasonCode
  pub extra : SaleExtra

pub record EventWindowHistory : Type 0 where
  pub event : SaleEventView
  pub observations : List HistoricalObservationPoint
  pub observation_count : ℕ
  pub sale_average : SaleCalculatedMetric ℕ
  pub sale_low : SaleCalculatedMetric ℕ
  pub sale_high : SaleCalculatedMetric ℕ
  pub vs_non_sale_baseline_percent : SaleCalculatedMetric ℤ

pub record VariantSaleHistory : Type 0 where
  pub product_id : Uuid
  pub product_variant_id : Uuid
  pub variant_key : Option String
  pub event_windows : List EventWindowHistory
  pub qualifying_observation_count : ℕ
  pub excluded_unverified_observation_count : ℕ
  pub overall_sale_average : SaleCalculatedMetric ℕ
  pub overall_sale_low : SaleCalculatedMetric ℕ
  pub overall_sale_high : SaleCalculatedMetric ℕ
  pub non_sale_baseline : SaleCalculatedMetric ℕ
  pub vs_non_sale_baseline_percent : SaleCalculatedMetric ℤ
  pub calculated_at : Datetime

pub record ProductSaleHistory : Type 0 where
  pub product_id : Uuid
  pub events : List SaleEventView
  pub variants : List VariantSaleHistory
  pub calculated_at : Datetime

-- `drop_percent_threshold` in ten-thousandths of a percent, `max_gap_days` in microseconds.
pub record SalesConfig : Type 0 where
  pub drop_percent_threshold : ℕ
  pub min_listings_for_detection : ℕ
  pub max_gap : ℕ
  pub min_observations_for_sale_stats : ℕ
  pub high_confidence_listing_count : ℕ
  pub medium_confidence_listing_count : ℕ
  pub min_listings_ge_one : 1 ≤ min_listings_for_detection
  pub min_observations_ge_one : 1 ≤ min_observations_for_sale_stats
