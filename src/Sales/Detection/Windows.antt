-- ===== src/Sales/Detection/Windows.antt =====
-- The windows of detection.py: runs of discounted observations of one retailer, category or brand.
use price_intelligence_india.Base.{
  ℕ, ◌+◌, ◌/◌, Bool, false, Option, none, some, List, [], ◌∷◌, ◌++◌, map, foldl, length, compare,
  any, leb, ltb, ◌==◌, if◌then◌else◌,
}
use price_intelligence_india.Base.Compare.{compare_list, is_le}
use price_intelligence_india.Base.Sort.{sort_by}
use price_intelligence_india.Domain.{
  Uuid, Datetime, ConfidenceLevel, SaleEventType, SaleEventSource,
}
use price_intelligence_india.Money.{round_half_up}
use price_intelligence_india.Pricing.History.Points.{
  HistoricalObservationPoint, qualifying_observations, day,
}
use price_intelligence_india.Sales.Models.{SalePricePoint, SalesConfig}
use price_intelligence_india.Sales.History.Engine.{observations_of}
use price_intelligence_india.Sales.History.Metrics.{median_twice}
use price_intelligence_india.Sales.Detection.Drops.{
  append_to, ListingKey, listing_key, same_key, Drop, drop_order, discounted_observations,
}

pub data Scope : Type 0 where
  retailer category brand : Scope

-- The `name` of a window, as the label and the day that it interpolates; `source` and `source_ref`
-- are the same for every window.
pub record DetectedSaleWindow : Type 0 where
  pub label : Scope
  pub date_stamp : ℕ
  pub retailer_id : Option Uuid
  pub category_id : Option Uuid
  pub brand_id : Option Uuid
  pub start_date : Datetime
  pub end_date : Datetime
  pub event_type : SaleEventType
  pub confidence : ConfidenceLevel
  pub listing_count : ℕ
  pub median_drop_percent : Option ℕ
  pub observation_count : ℕ

abbrev pub detected_source : SaleEventSource
detected_source = SaleEventSource.observed_price_inference

-- `_confidence`
abbrev pub confidence_of : (listing_count : ℕ) → SalesConfig → ConfidenceLevel
confidence_of listing_count config =
    if leb config.high_confidence_listing_count listing_count
    then ConfidenceLevel.high
    else if leb config.medium_confidence_listing_count listing_count
    then ConfidenceLevel.medium
    else ConfidenceLevel.low

-- `len({_listing_key(point) for point in points})`: a key counts where it stands last.
unfoldable pub distinct_keys : List ListingKey → ℕ
distinct_keys [] = 0
distinct_keys (key ∷ keys) =
    let rest = distinct_keys keys in if any (same_key key) keys then rest else 1 + rest

abbrev pub point_of : Drop → HistoricalObservationPoint
point_of (point, drop) = point

abbrev pub drop_of : Drop → ℕ
drop_of (point, drop) = drop

-- `items[-1]`, of a list with a first member
abbrev pub last_of : Drop → List Drop → Drop
last_of first [] = first
last_of first (d ∷ ds) = last_of d ds

-- `_scope_fields`
abbrev pub type_of : Scope → SaleEventType
type_of Scope.retailer = SaleEventType.retailer_specific
type_of Scope.category = SaleEventType.category
type_of Scope.brand = SaleEventType.brand

abbrev pub retailer_field : Scope → Uuid → Option Uuid
retailer_field Scope.retailer id = some id
retailer_field _ id = none

abbrev pub category_field : Scope → Uuid → Option Uuid
category_field Scope.category id = some id
category_field _ id = none

abbrev pub brand_field : Scope → Uuid → Option Uuid
brand_field Scope.brand id = some id
brand_field _ id = none

module _ (config : SalesConfig) where
  unfoldable pub window_from_cluster : Scope → Uuid → List Drop → Option DetectedSaleWindow
  unfolding median_twice distinct_keys
  window_from_cluster scope scope_id [] = none
  window_from_cluster scope scope_id (first ∷ rest) =
      let start = (point_of first).observed_at in
      let listing_count = distinct_keys (map (λ d. listing_key (point_of d)) (first ∷ rest)) in
      some (record {
        label = scope;
        date_stamp = start / day;
        retailer_id = retailer_field scope scope_id;
        category_id = category_field scope scope_id;
        brand_id = brand_field scope scope_id;
        start_date = start;
        end_date = (point_of (last_of first rest)).observed_at;
        event_type = type_of scope;
        confidence = confidence_of listing_count config;
        listing_count = listing_count;
        median_drop_percent = some (round_half_up (median_twice (map drop_of (first ∷ rest))) 2);
        observation_count = length (first ∷ rest);
      })

  -- A cluster's window, if it has enough listings
  unfoldable pub emitted : Scope → Uuid → List Drop → List DetectedSaleWindow
  unfolding window_from_cluster
  emitted scope scope_id cluster = elim (window_from_cluster scope scope_id cluster) [
    | none ↦ []
    | some window ↦
        if leb config.min_listings_for_detection window.listing_count then window ∷ [] else []
  ]

  -- `cluster and (point.observed_at - cluster[-1][0].observed_at) > max_gap`
  abbrev pub splits : (cluster : List Drop) → Drop → Bool
  splits [] d = false
  splits (first ∷ rest) d =
      ltb ((point_of (last_of first rest)).observed_at + config.max_gap) (point_of d).observed_at

  -- The clusters that the loop over the sorted items of a scope closes, the last one included
  unfoldable pub clusters : (cluster : List Drop) → List Drop → List (List Drop)
  clusters cluster [] = cluster ∷ []
  clusters cluster (d ∷ ds) =
      let split = splits cluster d in
      let rest = clusters (if split then d ∷ [] else cluster ++ d ∷ []) ds in
      if split then cluster ∷ rest else rest

  abbrev pub emitted_all : Scope → Uuid → List (List Drop) → List DetectedSaleWindow
  emitted_all scope scope_id [] = []
  emitted_all scope scope_id (cluster ∷ rest) =
      emitted scope scope_id cluster ++ emitted_all scope scope_id rest

  -- The windows of the items of a scope
  unfoldable pub windows_of_items : Scope → Uuid → List Drop → List DetectedSaleWindow
  unfolding emitted clusters
  windows_of_items scope scope_id items =
      emitted_all scope scope_id (clusters [] (sort_by drop_order items))

-- `by_id[snapshot_id]`: the last point of that snapshot
abbrev pub by_id : List SalePricePoint → Uuid → Option SalePricePoint
by_id points id =
    foldl (λ found p. if p.observation.snapshot_id == id then some p else found) none points

abbrev pub category_of : Option SalePricePoint → Option Uuid
category_of none = none
category_of (some p) = p.category_id

abbrev pub brand_of : Option SalePricePoint → Option Uuid
brand_of none = none
brand_of (some p) = p.brand_id

-- `_scope_id`; every discounted observation is one of the points.
abbrev pub scope_id_of : List SalePricePoint → Scope → HistoricalObservationPoint → Option Uuid
scope_id_of points Scope.retailer p = some p.retailer_id
scope_id_of points Scope.category p = category_of (by_id points p.snapshot_id)
scope_id_of points Scope.brand p = brand_of (by_id points p.snapshot_id)

abbrev pub Bucket : Type 0
Bucket = Uuid × List Drop

abbrev pub in_bucket : Option Uuid → Drop → List Bucket → List Bucket
in_bucket none d groups = groups
in_bucket (some id) d groups = append_to ◌==◌ id d groups

unfoldable pub buckets : List SalePricePoint → Scope → List Drop → List Bucket
unfolding append_to
buckets points scope =
    foldl (λ groups d. in_bucket (scope_id_of points scope (point_of d)) d groups) []

-- `(item.start_date, item.event_type, item.name)`; the label and the day follow from the first two.
abbrev pub type_rank : Scope → ℕ
type_rank Scope.brand = 0
type_rank Scope.category = 1
type_rank Scope.retailer = 2

abbrev pub window_order : DetectedSaleWindow → DetectedSaleWindow → Bool
window_order a b = is_le (
    compare_list compare (a.start_date ∷ type_rank a.label ∷ [])
      (b.start_date ∷ type_rank b.label ∷ []))

module _ (config : SalesConfig) where
  unfoldable pub windows_of_buckets : Scope → List Bucket → List DetectedSaleWindow
  unfolding windows_of_items
  windows_of_buckets scope [] = []
  windows_of_buckets scope ((id, items) ∷ rest) =
      windows_of_items config scope id items ++ windows_of_buckets scope rest

  -- `SaleEventDetector._cluster`
  unfoldable pub cluster_windows : List SalePricePoint → Scope → List Drop → List DetectedSaleWindow
  unfolding windows_of_buckets buckets
  cluster_windows points scope discounted =
      windows_of_buckets scope (buckets points scope discounted)

  -- `SaleEventDetector.detect`
  unfoldable pub detect : List SalePricePoint → List DetectedSaleWindow
  unfolding cluster_windows discounted_observations qualifying_observations
  detect points =
      let discounted =
        discounted_observations config (qualifying_observations (observations_of points)) in
      sort_by window_order (
        cluster_windows points Scope.retailer discounted
        ++ cluster_windows points Scope.category discounted
        ++ cluster_windows points Scope.brand discounted)
