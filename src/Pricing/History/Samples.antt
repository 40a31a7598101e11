-- ===== src/Pricing/History/Samples.antt =====
-- Sample observations of one listing, for the tests of history.py and of what is built on it.
use price_intelligence_india.Base.{ℕ, ◌+◌, ◌*◌, none, some, List, [], ◌∷◌, arith}
use price_intelligence_india.Domain.{Datetime, AvailabilityStatus, SourceType, ConfidenceLevel}
use price_intelligence_india.Pricing.History.Points.{HistoricalObservationPoint, day}
use price_intelligence_india.Pricing.History.Engine.{HistoryConfig}

abbrev pub config : HistoryConfig
config = record {
  windows = record {
    fresh_within = 21_600_000_000;
    stale_after = day;
    windows_are_ordered = omega arith;
  };
  trend_stable_percent = 10_000;
  min_observations_for_average = 2;
  min_observations_for_extrema = 1;
  min_observations_for_volatility = 3;
  min_observations_for_percentile = 3;
  min_observations_for_trend = 3;
  volatility_ge_two = omega arith;
  percentile_ge_two = omega arith;
  trend_ge_two = omega arith;
}

abbrev pub point : (id days price : ℕ) → ConfidenceLevel → HistoricalObservationPoint
point id days price confidence = record {
  snapshot_id = id;
  product_id = 1;
  product_variant_id = 2;
  variant_key = none;
  retailer_id = 3;
  retailer_slug = "retailer";
  retailer_name = "Retailer";
  retailer_product_id = 4;
  seller_id = some 5;
  source_url = none;
  source_type = SourceType.official_api;
  observed_at = days * day;
  created_at = days * day;
  currency = "INR";
  displayed_price = price + 1_000;
  effective_price = some price;
  mrp = none;
  availability = AvailabilityStatus.in_stock;
  confidence = confidence;
}

abbrev pub now : Datetime
now = 14 * day

abbrev pub high_point : (id days price : ℕ) → HistoricalObservationPoint
high_point id days price = point id days price ConfidenceLevel.high

abbrev pub points : List HistoricalObservationPoint
points = high_point 1 10 100_000 ∷ high_point 2 12 90_000 ∷ high_point 3 13 95_000 ∷ []

abbrev pub shuffled : List HistoricalObservationPoint
shuffled = high_point 2 12 90_000 ∷ high_point 1 10 100_000 ∷ high_point 3 13 95_000 ∷ []

abbrev pub unverified : List HistoricalObservationPoint
unverified = point 1 10 100_000 ConfidenceLevel.low ∷ point 2 12 90_000 ConfidenceLevel.low ∷ []
