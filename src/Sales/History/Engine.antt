-- ===== src/Sales/History/Engine.antt =====
-- `SaleHistoryEngine.compute_variant` and `compute_product` of history.py. Log records and metrics
-- are left out.
use Prim.Native.String.{String}
use price_intelligence_india.Base.{
  ℕ, ◌-◌, Bool, not, Option, none, List, [], ◌∷◌, ◌++◌, map, foldl, filter, any, length, ◌==◌,
  if◌then◌else◌,
}
use price_intelligence_india.Base.Sort.{sort_by}
use price_intelligence_india.Domain.{Uuid, Datetime}
use price_intelligence_india.Pricing.History.Points.{
  HistoricalObservationPoint, qualifying_observations,
}
use price_intelligence_india.Validation.Outcome.{Validated, ok, ◌>>=◌}
use price_intelligence_india.Validation.SaleEvents.{Moment}
use price_intelligence_india.Sales.Models.{
  SaleEventRecord, SalePricePoint, SaleInsufficientReasonCode, EventWindowHistory,
  VariantSaleHistory, ProductSaleHistory, SalesConfig,
}
use price_intelligence_india.Sales.Applicability.{applicable_events, observations_during_event}
use price_intelligence_india.Sales.Lifecycle.{
  instant, view_at, collect, starts_sooner, view_starts_sooner,
}
use price_intelligence_india.Sales.History.Metrics.{
  unavailable, SaleStats, stats_from_points, baseline, percent_below_baseline,
}

abbrev pub Points : Type 0
Points = List HistoricalObservationPoint

-- `snapshot_id in seen`
abbrev pub is_in : List Uuid → HistoricalObservationPoint → Bool
is_in seen point = any (λ id. id == point.snapshot_id) seen

abbrev pub snapshot_ids : Points → List Uuid
snapshot_ids = map λ p. p.snapshot_id

abbrev pub observations_of : List SalePricePoint → Points
observations_of = map λ p. p.observation

-- `qualifying_sale_points`
abbrev pub qualifying_sale_points : List SalePricePoint → List SalePricePoint
qualifying_sale_points points =
    let ids = snapshot_ids (qualifying_observations (observations_of points)) in
    filter (λ p. is_in ids p.observation) points

-- The sets that the loop over the events builds.
pub record Gathered : Type 0 where
  pub seen : List Uuid
  pub in_any_event : Points

-- `if point.snapshot_id not in seen`
unfoldable pub add_unseen : Gathered → HistoricalObservationPoint → Gathered
add_unseen g point =
    if is_in g.seen point
    then g
    else record { seen = point.snapshot_id ∷ g.seen; in_any_event = g.in_any_event ++ point ∷ [] }

abbrev pub nothing_seen : Gathered
nothing_seen = record { seen = []; in_any_event = [] }

unfoldable pub gather : List SalePricePoint → List SaleEventRecord → Gathered
unfolding add_unseen
gather points =
    foldl (λ g event. foldl add_unseen g (observations_during_event event points)) nothing_seen

abbrev pub unit_of : Points → String
unit_of [] = "INR"
unit_of (p ∷ ps) = p.currency

-- What is not in a list of points, by snapshot
abbrev pub outside : List Uuid → Points → Points
outside seen = filter λ p. not (is_in seen p)

-- `points_by_variant` with `variant_keys`, in the order of the `dict`
pub record VariantPoints : Type 0 where
  pub variant_id : Uuid
  pub variant_key : Option String
  pub points : List SalePricePoint

module _ (config : SalesConfig) where
  -- The history of an event's window
  unfoldable pub window_of :
      (qualifying : Points)
      → List SalePricePoint
      → Moment
      → SaleEventRecord
      → Validated EventWindowHistory
  unfolding observations_during_event stats_from_points baseline percent_below_baseline view_at
  window_of qualifying sale_points clock event = do
    let as_of = instant clock
    let min_count = config.min_observations_for_sale_stats
    let unit = unit_of qualifying
    let during = observations_during_event event sale_points
    let stats = stats_from_points during as_of min_count unit
    let others = outside (snapshot_ids during) qualifying
    view ← view_at event clock
    percent ← percent_below_baseline stats.average (baseline others as_of min_count unit) as_of
    ok (record {
      event = view;
      observations = during;
      observation_count = length during;
      sale_average = stats.average;
      sale_low = stats.low;
      sale_high = stats.high;
      vs_non_sale_baseline_percent = percent;
    })

  -- The variant's history from its windows, the statistics of the sales and the points outside them
  unfoldable pub variant_history :
      (product_id product_variant_id : Uuid) (variant_key : Option String) (observed : ℕ)
      (qualifying : Points) (as_of : Datetime)
      → List EventWindowHistory
      → SaleStats
      → (non_sale : Points) → Validated VariantSaleHistory
  unfolding baseline percent_below_baseline
  variant_history product_id product_variant_id variant_key observed qualifying as_of windows stats
        non_sale =
      do
        let base =
            baseline non_sale as_of config.min_observations_for_sale_stats (unit_of qualifying)
        percent ← percent_below_baseline stats.average base as_of
        ok (record {
          product_id = product_id;
          product_variant_id = product_variant_id;
          variant_key = variant_key;
          event_windows = windows;
          qualifying_observation_count = length qualifying;
          excluded_unverified_observation_count = observed - length qualifying;
          overall_sale_average = stats.average;
          overall_sale_low = stats.low;
          overall_sale_high = stats.high;
          non_sale_baseline = base;
          vs_non_sale_baseline_percent = percent;
          calculated_at = as_of;
        })

  abbrev pub no_events : String → Datetime → SaleStats
  no_events unit as_of =
      let metric = unavailable unit as_of 0 SaleInsufficientReasonCode.no_applicable_events in
      record { average = metric; low = metric; high = metric }

  unfoldable pub compute_variant :
      (product_id product_variant_id : Uuid)
      → List SalePricePoint
      → List SaleEventRecord
      → (variant_key : Option String) → (as_of : Moment) → Validated VariantSaleHistory
  unfolding window_of variant_history gather qualifying_observations
  compute_variant product_id product_variant_id points [] variant_key clock =
      let as_of = instant clock in
      let qualifying = qualifying_observations (observations_of points) in
      variant_history product_id product_variant_id variant_key (length points) qualifying as_of []
        (no_events (unit_of qualifying) as_of) qualifying
  compute_variant product_id product_variant_id points (event ∷ events) variant_key clock = do
    let as_of = instant clock
    let qualifying = qualifying_observations (observations_of points)
    let sale_points = qualifying_sale_points points
    let sorted = sort_by starts_sooner (event ∷ events)
    windows ← collect (window_of qualifying sale_points clock) sorted
    let gathered = gather sale_points sorted
    let stats =
        stats_from_points gathered.in_any_event as_of config.min_observations_for_sale_stats
          (unit_of qualifying)
    variant_history product_id product_variant_id variant_key (length points) qualifying as_of
        windows stats (outside gathered.seen qualifying)

  unfoldable pub compute_product :
      (product_id : Uuid)
      → List VariantPoints
      → List SaleEventRecord
      → (brand_id category_id : Option Uuid) → (calculated_at : Moment)
      → Validated ProductSaleHistory
  unfolding compute_variant applicable_events
  compute_product product_id points_by_variant events brand_id category_id calculated_at = do
    let matching = applicable_events events brand_id category_id none
    event_views ← collect (λ e. view_at e calculated_at) matching
    variants ←
        collect
          (λ (v : VariantPoints).
            compute_variant product_id v.variant_id v.points matching v.variant_key calculated_at)
          points_by_variant
    ok (record {
      product_id = product_id;
      events = sort_by view_starts_sooner event_views;
      variants = variants;
      calculated_at = instant calculated_at;
    })
