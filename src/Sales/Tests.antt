-- ===== src/Sales/Tests.antt =====
-- Runs of the sale engines on sample observations, and their theorems at these inputs.
use price_intelligence_india.Base.{
  ℕ, ◌*◌, ◌≡◌, refl, true, not, Option, none, some, List, [], ◌∷◌, filter, all, length,
}
use price_intelligence_india.Base.Sort.{sort_by}
use price_intelligence_india.Money.{round_half_up}
use price_intelligence_india.Pricing.History.Points.{day, qualifying_observations}
use price_intelligence_india.Pricing.History.Samples.{high_point}
use price_intelligence_india.Validation.Outcome.{Validated, ok, SaleEventFault}
use price_intelligence_india.Validation.SaleEvents.{Moment, fault}
use price_intelligence_india.Sales.Models.{VariantSaleHistory, model_post_init}
use price_intelligence_india.Sales.Lifecycle.{event_status, upcoming, flatten}
use price_intelligence_india.Sales.History.Engine.{
  compute_variant, compute_product, observations_of, qualifying_sale_points,
}
use price_intelligence_india.Sales.History.Metrics.{stats_from_points}
use price_intelligence_india.Sales.History.Counts.{is_in_some_window}
use price_intelligence_india.Sales.Applicability.{applicable_events}
use price_intelligence_india.Sales.History.Partition.{compute_variant-partition}
use price_intelligence_india.Sales.History.Total.{
  error_of, expected_error, compute_variant-total, error_of-compute_product,
}
use price_intelligence_india.Sales.Detection.Drops.{Drop}
use price_intelligence_india.Sales.Detection.Windows.{detect, clusters}
use price_intelligence_india.Sales.Detection.Accepted.{is_acceptable}
use price_intelligence_india.Sales.Detection.Valid.{detect-acceptable}
use price_intelligence_india.Sales.Detection.Clusters.{is_close, are_apart, clusters-partition}
use price_intelligence_india.Sales.Samples.{sales_config, events, sale_points}

program : Unit {0}
unfolding compute_variant compute_product stats_from_points round_half_up sort_by detect clusters
    qualifying_observations upcoming event_status model_post_init
program = tt

abbrev clock : Moment
clock = Moment.aware (22 * day)

found : Validated VariantSaleHistory
found = compute_variant sales_config 1 2 sale_points events none clock

abbrev counts : Validated VariantSaleHistory → List ℕ
counts (ok h) =
    h.overall_sale_average.observation_count ∷ h.non_sale_baseline.observation_count
    ∷ h.qualifying_observation_count ∷ []
counts _ = []

abbrev averages : Validated VariantSaleHistory → List (Option ℕ)
averages (ok h) =
    h.overall_sale_average.value ∷ h.overall_sale_low.value ∷ h.overall_sale_high.value ∷ []
averages _ = []

-- The observation of the 13th day lies in both sales, and counts once.
counts_of_found : counts found ≡ 2 ∷ 3 ∷ 5 ∷ []
unfolding program found
counts_of_found = refl

averages_of_found : averages found ≡ some 77_500 ∷ some 75_000 ∷ some 80_000 ∷ []
unfolding program found
averages_of_found = refl

windows_detected : length (detect sales_config sale_points) ≡ 6
unfolding program
windows_detected = refl

reversed :
    event_status (Moment.aware 2) (Moment.aware 1) (Moment.aware 1)
    ≡ fault SaleEventFault.reversed_dates
unfolding program
reversed = refl

total :
    (h : VariantSaleHistory) × (compute_variant sales_config 1 2 sale_points events none clock
      ≡ ok h)
total = compute_variant-total sales_config 1 2 sale_points events none (22 * day) refl

compute_variant-partition_example :
    let in_sale = is_in_some_window events (qualifying_sale_points sale_points) in
    let qualifying = qualifying_observations (observations_of sale_points) in
    (total.0.overall_sale_average.observation_count ≡ length (filter in_sale qualifying))
    × (total.0.non_sale_baseline.observation_count
        ≡ length (filter (λ p. not (in_sale p)) qualifying))
compute_variant-partition_example =
    compute_variant-partition sales_config 1 2 none sale_points events clock total.0 refl total.1

average_known :
    (stats_from_points (observations_of sale_points) (22 * day) 1 "INR").average.value ≡ some 83_000
unfolding program
average_known = refl

error_of-compute_product_example :
    error_of (compute_product sales_config 1 [] events (some 7) (some 8) (Moment.naive (22 * day)))
    ≡ expected_error (Moment.naive (22 * day)) (applicable_events events (some 7) (some 8) none)
error_of-compute_product_example =
    error_of-compute_product sales_config 1 [] events (some 7) (some 8) (Moment.naive (22 * day))
      refl

detect-acceptable_example :
    all (is_acceptable sales_config (99 ∷ [])) (detect sales_config sale_points) ≡ true
detect-acceptable_example = detect-acceptable sales_config (99 ∷ []) sale_points

abbrev drops : List Drop
drops = (high_point 1 10 100, 5) ∷ (high_point 2 11 100, 5) ∷ (high_point 3 20 100, 5) ∷ []

clusters-partition_example :
    (flatten (clusters sales_config [] drops) ≡ drops)
    × (all (is_close sales_config) (clusters sales_config [] drops) ≡ true)
    × (are_apart sales_config (clusters sales_config [] drops) ≡ true)
clusters-partition_example = clusters-partition sales_config drops
