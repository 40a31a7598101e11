-- ===== src/Sales/Samples.antt =====
-- Sample events and observations for the tests of the sale engines.
use price_intelligence_india.Base.{ℕ, ◌*◌, none, some, List, [], ◌∷◌, map, arith}
use price_intelligence_india.Domain.{ConfidenceLevel, SaleEventType, SaleEventSource}
use price_intelligence_india.Pricing.History.Points.{HistoricalObservationPoint, day}
use price_intelligence_india.Pricing.History.Samples.{high_point}
use price_intelligence_india.Sales.Models.{SaleEventRecord, SalePricePoint, SalesConfig}

abbrev pub sales_config : SalesConfig
sales_config = record {
  drop_percent_threshold = 100_000;
  min_listings_for_detection = 1;
  max_gap = 2 * day;
  min_observations_for_sale_stats = 1;
  high_confidence_listing_count = 5;
  medium_confidence_listing_count = 2;
  min_listings_ge_one = omega arith;
  min_observations_ge_one = omega arith;
}

abbrev pub event : (id first last : ℕ) → SaleEventRecord
event id first last = record {
  id = id;
  name = 83 ∷ [];
  retailer_id = none;
  category_id = none;
  brand_id = none;
  start_date = first * day;
  end_date = last * day;
  event_type = SaleEventType.seasonal;
  source = SaleEventSource.manual_curation;
  source_ref = none;
  confidence = ConfidenceLevel.high;
}

abbrev pub of_brand : HistoricalObservationPoint → SalePricePoint
of_brand p = record { observation = p; brand_id = some 7; category_id = some 8 }

-- Two sales that overlap on the 13th day.
abbrev pub events : List SaleEventRecord
events = event 2 13 14 ∷ event 1 12 13 ∷ []

abbrev pub sale_points : List SalePricePoint
sale_points = map of_brand (
    high_point 1 10 100_000
    ∷ high_point 2 12 80_000
    ∷ high_point 3 13 75_000
    ∷ high_point 4 20 100_000
    ∷ high_point 5 21 60_000
    ∷ [])
