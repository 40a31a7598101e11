-- ===== src/Pricing/History/Engine.antt =====
-- `PriceHistoryEngine` of history.py. Metrics and log records are left out.
use Prim.Native.String.{String}
use price_intelligence_india.Base.{ℕ, ◌-◌, ◌≤◌, Option, none, some, List, [], ◌∷◌, map, length}
use price_intelligence_india.Base.Sort.{sort_by}
use price_intelligence_india.Domain.{Uuid, Datetime}
use price_intelligence_india.Pricing.Freshness.{
  FreshnessWindows, offer_freshness, aggregate_freshness,
}
use price_intelligence_india.Pricing.Models.{DataFreshness}
use price_intelligence_india.Pricing.History.Points.{
  HistoricalObservationPoint, comes_before, qualifying_observations, VariantHistory, ProductHistory,
}
use price_intelligence_india.Pricing.History.Metrics.{
  window_average, historical_low, historical_high, current_price_percentile, price_volatility,
}
use price_intelligence_india.Pricing.History.Changes.{
  percentage_change, detect_price_drop, historical_trend, last?,
}

-- The history's share of `PricingConfig`, with the bounds of its fields that the code relies on.
pub record HistoryConfig : Type 0 where
  pub windows : FreshnessWindows
  pub trend_stable_percent : ℕ
  pub min_observations_for_average : ℕ
  pub min_observations_for_extrema : ℕ
  pub min_observations_for_volatility : ℕ
  pub min_observations_for_percentile : ℕ
  pub min_observations_for_trend : ℕ
  pub volatility_ge_two : 2 ≤ min_observations_for_volatility
  pub percentile_ge_two : 2 ≤ min_observations_for_percentile
  pub trend_ge_two : 2 ≤ min_observations_for_trend

unfoldable pub variant_freshness :
    List HistoricalObservationPoint → Datetime → FreshnessWindows → DataFreshness
variant_freshness [] as_of config = offer_freshness none as_of config
variant_freshness (point ∷ points) as_of config =
    aggregate_freshness
      (map (λ p. offer_freshness (some p.observed_at) as_of config) (point ∷ points)) as_of

abbrev pub currency_of : Option HistoricalObservationPoint → String
currency_of none = "INR"
currency_of (some current) = current.currency

module _ (config : HistoryConfig) (now : Datetime) where
  -- `compute_variant` after the observations are sorted and the qualifying ones selected.
  abbrev pub history_of :
      (product_id product_variant_id : Uuid)
      → Option String
      → (ordered qualifying : List HistoricalObservationPoint) → VariantHistory
  history_of product_id product_variant_id variant_key ordered qualifying =
      let current = last? qualifying in
      let currency = currency_of current in
      let average = λ (days : ℕ).
        window_average qualifying days now config.min_observations_for_average currency in
      let (change, baseline) = percentage_change qualifying current now in
      record {
        product_id = product_id;
        product_variant_id = product_variant_id;
        variant_key = variant_key;
        observations = ordered;
        qualifying_observation_count = length qualifying;
        excluded_unverified_observation_count = length ordered - length qualifying;
        current_observation = current;
        average_7d = average 7;
        average_30d = average 30;
        average_90d = average 90;
        average_180d = average 180;
        historical_low = historical_low qualifying now config.min_observations_for_extrema currency;
        historical_high =
            historical_high qualifying now config.min_observations_for_extrema currency;
        current_price_percentile =
            current_price_percentile qualifying current now config.min_observations_for_percentile;
        volatility =
            price_volatility qualifying now config.min_observations_for_volatility currency;
        percentage_change = change;
        price_drop = detect_price_drop current baseline change now (length qualifying);
        trend =
            historical_trend qualifying now config.min_observations_for_trend
              config.trend_stable_percent;
        data_freshness = variant_freshness ordered now config.windows;
        calculated_at = now;
      }

  unfoldable pub compute_variant :
      (product_id product_variant_id : Uuid)
      → List HistoricalObservationPoint
      → Option String
      → VariantHistory
  compute_variant product_id product_variant_id observations variant_key =
      let ordered = sort_by comes_before observations in
      history_of product_id product_variant_id variant_key ordered (qualifying_observations ordered)

  -- The mapping from variants to observations, in its order, with each variant's key.
  unfoldable pub compute_product :
      Uuid → List (Uuid × List HistoricalObservationPoint × Option String) → ProductHistory
  unfolding compute_variant
  compute_product product_id variants =
      let computed =
        map
          (λ (variant_id, observations, key).
            compute_variant product_id variant_id observations key)
          variants in
      record {
        product_id = product_id;
        variants = computed;
        data_freshness = aggregate_freshness (map (λ v. v.data_freshness) computed) now;
        calculated_at = now;
      }
