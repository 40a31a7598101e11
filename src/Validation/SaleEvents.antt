-- ===== src/Validation/SaleEvents.antt =====
-- `validate_sale_event_dates`, `normalize_sale_event_source_ref` and `validate_sale_event` of
-- validation.py.
use price_intelligence_india.Base.{
  Bool, true, false, ◌&&◌, not, Option, none, some, is_some, ltb, if◌then◌else◌,
}
use price_intelligence_india.Domain.{Text, Uuid, Datetime, SaleEventSource, SaleEventType}
use price_intelligence_india.Validation.Outcome.{
  SaleEventFault, DomainError, Validated, ok, raised, ◌>>=◌,
}
use price_intelligence_india.Validation.Text.{is_empty, strip}

-- A `datetime` with a timezone, or without one.
pub data Moment : Type 0 where
  aware naive : Datetime → Moment

abbrev pub fault {ℓ} : {A : Type ℓ} → SaleEventFault → Validated A
fault reason = raised (DomainError.invalid_sale_event reason)

-- `if test: raise InvalidSaleEventError(...)`
abbrev pub reject_if : Bool → SaleEventFault → Validated (Unit {0})
reject_if test reason = if test then fault reason else ok tt

-- `_require_aware`, with the sentence of the field
unfoldable pub require_aware : Moment → SaleEventFault → Validated Datetime
require_aware (Moment.aware at) reason = ok at
require_aware (Moment.naive at) reason = fault reason

unfoldable pub validate_sale_event_dates :
    (start_date end_date : Moment) → Validated (Datetime × Datetime)
unfolding require_aware
validate_sale_event_dates start_date end_date = do
  start ← require_aware start_date SaleEventFault.naive_start
  end ← require_aware end_date SaleEventFault.naive_end
  if ltb end start then fault SaleEventFault.reversed_dates else ok (start, end)

unfoldable pub normalize_sale_event_source_ref : Option Text → Option Text
normalize_sale_event_source_ref none = none
normalize_sale_event_source_ref (some source_ref) =
    if is_empty (strip source_ref) then none else some (strip source_ref)

abbrev pub is_retailer_specific : SaleEventType → Bool
is_retailer_specific SaleEventType.retailer_specific = true
is_retailer_specific _ = false

abbrev pub is_brand_event : SaleEventType → Bool
is_brand_event SaleEventType.brand = true
is_brand_event _ = false

abbrev pub is_category_event : SaleEventType → Bool
is_category_event SaleEventType.category = true
is_category_event _ = false

abbrev pub is_manually_curated : SaleEventType → Bool
is_manually_curated SaleEventType.manually_curated = true
is_manually_curated _ = false

abbrev pub is_externally_sourced : SaleEventType → Bool
is_externally_sourced SaleEventType.externally_sourced = true
is_externally_sourced _ = false

abbrev pub is_curation : SaleEventSource → Bool
is_curation SaleEventSource.manual_curation = true
is_curation _ = false

abbrev pub is_inference : SaleEventSource → Bool
is_inference SaleEventSource.observed_price_inference = true
is_inference _ = false

-- `source in _EXTERNAL_SALE_EVENT_SOURCES`
abbrev pub is_external_source : SaleEventSource → Bool
is_external_source SaleEventSource.official_api = true
is_external_source SaleEventSource.affiliate_feed = true
is_external_source SaleEventSource.product_feed = true
is_external_source SaleEventSource.other_permitted = true
is_external_source _ = false

unfoldable pub validate_sale_event :
    (event_type : SaleEventType) (source : SaleEventSource) (source_ref : Option Text)
    (retailer_id category_id brand_id : Option Uuid) (start_date end_date : Moment)
    → Validated (Option Text)
unfolding validate_sale_event_dates normalize_sale_event_source_ref
validate_sale_event event_type source source_ref retailer_id category_id brand_id start_date
      end_date =
    do
      _ ← validate_sale_event_dates start_date end_date
      let ref = normalize_sale_event_source_ref source_ref
      _ ←
          reject_if (is_retailer_specific event_type && not (is_some retailer_id))
            SaleEventFault.missing_retailer
      _ ←
          reject_if (is_brand_event event_type && not (is_some brand_id))
            SaleEventFault.missing_brand
      _ ←
          reject_if (is_category_event event_type && not (is_some category_id))
            SaleEventFault.missing_category
      _ ←
          reject_if (is_manually_curated event_type && not (is_curation source))
            SaleEventFault.not_manually_curated
      _ ←
          reject_if (is_inference source && is_externally_sourced event_type)
            SaleEventFault.inferred_as_external
      _ ←
          reject_if (is_externally_sourced event_type && not (is_external_source source))
            SaleEventFault.source_not_permitted
      _ ←
          reject_if (is_externally_sourced event_type && not (is_some ref))
            SaleEventFault.missing_source_ref
      ok ref
