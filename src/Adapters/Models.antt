-- ===== src/Adapters/Models.antt =====
-- backend/app/retailer_adapters/base/models.py and the capabilities of config.py: what crosses the
-- boundary of an adapter. Amounts are paise, dates are aware.
use Prim.Native.String.{String}
use price_intelligence_india.Base.{
  ℕ, Bool, true, false, ◌&&◌, ◌||◌, Option, none, some, List, any, is_some,
}
use price_intelligence_india.Base.Dict.{same_key}
use price_intelligence_india.Domain.{
  Text, Datetime, has_text, AvailabilityStatus, SourceType, ConfidenceLevel,
}
use price_intelligence_india.Collection.Models.{AdapterErrorCode}
use price_intelligence_india.Adapters.Retry.{RetryPolicy}

pub data HealthStatus : Type 0 where
  healthy degraded unhealthy unknown : HealthStatus

pub data ProductIdentifierType : Type 0 where
  gtin ean upc isbn mpn other : ProductIdentifierType

pub data AdapterOperation : Type 0 where
  search_products get_product get_price get_availability get_product_identifiers health_check :
      AdapterOperation

pub record ProductIdentifierValue : Type 0 where
  pub identifier_type : ProductIdentifierType
  pub value : Text

pub record SellerInformation : Type 0 where
  pub name : Text
  pub retailer_seller_id : Option Text
  pub is_first_party : Bool

pub record PriceObservation : Type 0 where
  pub retailer_id : Text
  pub retailer_sku : Text
  pub observed_at : Datetime
  pub currency : String
  pub displayed_price : ℕ
  pub mrp : Option ℕ
  pub effective_price : Option ℕ
  pub delivery_fee : Option ℕ
  pub platform_fee : Option ℕ
  pub availability : AvailabilityStatus
  pub source_type : SourceType
  pub source_url : Option String
  pub confidence : ConfidenceLevel
  pub seller : Option SellerInformation

pub record AvailabilityObservation : Type 0 where
  pub retailer_id : Text
  pub retailer_sku : Text
  pub status : AvailabilityStatus
  pub observed_at : Datetime
  pub source_type : SourceType
  pub source_url : Option String
  pub confidence : ConfidenceLevel
  pub seller : Option SellerInformation

pub record RetailerProduct : Type 0 where
  pub retailer_id : Text
  pub retailer_sku : Text
  pub title : Text
  pub url : Option String
  pub brand_name : Option Text
  pub category_path : List Text
  pub attributes : List (Text × Text)
  pub identifiers : List ProductIdentifierValue
  pub seller : Option SellerInformation
  pub price : Option PriceObservation
  pub availability : Option AvailabilityObservation
  pub source_type : SourceType
  pub retrieved_at : Datetime

abbrev price_agrees : RetailerProduct → Option PriceObservation → Bool
price_agrees p none = true
price_agrees p (some o) =
    same_key o.retailer_id p.retailer_id && same_key o.retailer_sku p.retailer_sku

abbrev availability_agrees : RetailerProduct → Option AvailabilityObservation → Bool
availability_agrees p none = true
availability_agrees p (some o) =
    same_key o.retailer_id p.retailer_id && same_key o.retailer_sku p.retailer_sku

-- `_validate_embedded_observations`: a product exists only if this holds.
unfoldable pub embedded_observations_agree : RetailerProduct → Bool
embedded_observations_agree p = price_agrees p p.price && availability_agrees p p.availability

pub record NormalizedProduct : Type 0 where
  pub retailer_id : Text
  pub retailer_sku : Text
  pub normalized_title : Text
  pub brand_name : Option Text
  pub brand_slug : Option Text
  pub category_slug : Option Text
  pub variant_attributes : List (Text × Text)
  pub identifiers : List ProductIdentifierValue
  pub source_url : Option String
  pub source_type : SourceType
  pub normalized_at : Datetime

pub record ProductSearchQuery : Type 0 where
  pub text : Option Text
  pub category : Option Text
  pub limit : ℕ

abbrev some_text : Option Text → Bool
some_text none = false
some_text (some text) = has_text text

-- `_require_a_criterion`: a query exists only if this holds.
unfoldable pub has_criterion : ProductSearchQuery → Bool
has_criterion query = some_text query.text || is_some query.category

pub record ProductSearchResult : Type 0 where
  pub retailer_id : Text
  pub query : ProductSearchQuery
  pub products : List RetailerProduct
  pub retrieved_at : Datetime

-- The duration is left out.
pub record HealthCheckResult : Type 0 where
  pub retailer_id : Text
  pub status : HealthStatus
  pub checked_at : Datetime
  pub detail : Option Text
  pub error_code : Option AdapterErrorCode

-- The identity, the capabilities and the retry policy of `RetailerAdapterConfig`; pacing and
-- timeouts stand with the executor.
pub record RetailerAdapterConfig : Type 0 where
  pub retailer_id : Text
  pub retailer_name : Text
  pub source_type : SourceType
  pub supported_categories : List Text
  pub supported_operations : AdapterOperation → Bool
  pub enabled : Bool
  pub retry_policy : RetryPolicy

unfoldable pub config_supports : RetailerAdapterConfig → AdapterOperation → Bool
config_supports config AdapterOperation.health_check = true
config_supports config operation = config.supported_operations operation

unfoldable pub serves_category : RetailerAdapterConfig → Text → Bool
unfolding same_key
serves_category config category = any (λ c. same_key c category) config.supported_categories
