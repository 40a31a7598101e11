-- ===== src/Sales/Applicability.antt =====
-- backend/app/sales/applicability.py: which events apply to a product and to an observation.
use price_intelligence_india.Base.{
  Bool, true, ◌&&◌, Option, none, some, List, filter, map, eq_option, leb, ◌==◌,
}
use price_intelligence_india.Base.Sort.{sort_by}
use price_intelligence_india.Domain.{Uuid}
use price_intelligence_india.Pricing.History.Points.{HistoricalObservationPoint, comes_before}
use price_intelligence_india.Sales.Models.{SaleEventRecord, SalePricePoint}

-- Not `a is not None and a != b`
abbrev pub allows : (scope : Option Uuid) → Option Uuid → Bool
allows none other = true
allows (some scope) other = eq_option (some scope) other

-- Two retailers that are both known are one.
abbrev pub same_retailer : Option Uuid → Option Uuid → Bool
same_retailer (some a) (some b) = a == b
same_retailer _ _ = true

unfoldable pub event_applies_to_product :
    SaleEventRecord → (brand_id category_id retailer_id : Option Uuid) → Bool
event_applies_to_product event brand_id category_id retailer_id =
    allows event.brand_id brand_id
    && allows event.category_id category_id
    && same_retailer retailer_id event.retailer_id

unfoldable pub observation_belongs_to_event :
    SaleEventRecord → HistoricalObservationPoint → (brand_id category_id : Option Uuid) → Bool
unfolding event_applies_to_product
observation_belongs_to_event event point brand_id category_id =
    event_applies_to_product event brand_id category_id (some point.retailer_id)
    && leb event.start_date point.observed_at
    && leb point.observed_at event.end_date

unfoldable pub applicable_events :
    List SaleEventRecord → (brand_id category_id retailer_id : Option Uuid) → List SaleEventRecord
unfolding event_applies_to_product
applicable_events events brand_id category_id retailer_id =
    filter (λ event. event_applies_to_product event brand_id category_id retailer_id) events

abbrev pub belongs_to : SaleEventRecord → SalePricePoint → Bool
belongs_to event point =
    observation_belongs_to_event event point.observation point.brand_id point.category_id

unfoldable pub observations_during_event :
    SaleEventRecord → List SalePricePoint → List HistoricalObservationPoint
unfolding observation_belongs_to_event
observations_during_event event points =
    sort_by comes_before (map (λ p. p.observation) (filter (belongs_to event) points))
