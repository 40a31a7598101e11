-- ===== src/Adapters/Fleet.antt =====
-- `RetailerFleet` of backend/app/retailer_adapters/base/fleet.py: a search at every capable retailer.
-- Log records are left out.
pub mod Isolation
mod Tests
use Prim.Native.String.{String}
use price_intelligence_india.Base.{
  ℕ, Bool, true, false, Option, none, some, List, [], ◌∷◌, ◌++◌, map,
}
use price_intelligence_india.Domain.{Text}
use price_intelligence_india.Collection.Models.{
  AdapterErrorCode, RetailerAdapterError, Raised, Call, returns, raises,
}
use price_intelligence_india.Adapters.Models.{
  RetailerProduct, NormalizedProduct, PriceObservation, ProductSearchQuery, ProductSearchResult,
  AdapterOperation,
}
use price_intelligence_india.Adapters.Interface.{RetailerAdapter, adapter_id, search_products}
use price_intelligence_india.Adapters.Registry.{Registry, adapters_supporting}

pub record RetailerFailure : Type 0 where
  pub retailer_id : Text
  pub error_code : AdapterErrorCode
  pub message : String

-- `RetailerFailure.from_error`
abbrev pub from_error : RetailerAdapterError → RetailerFailure
from_error e = record { retailer_id = e.retailer_id; error_code = e.code; message = e.message }

pub record FleetSearchOutcome : Type 0 where
  pub query : ProductSearchQuery
  pub products : List RetailerProduct
  pub normalized_products : List NormalizedProduct
  pub failures : List RetailerFailure
  pub consulted_retailer_ids : List Text

-- What the loop over the answers has put together
pub record Answers : Type 0 where
  pub products : List RetailerProduct
  pub normalized : List NormalizedProduct
  pub failures : List RetailerFailure

abbrev pub no_answers : Answers
no_answers = record { products = []; normalized = []; failures = [] }

abbrev pub normalization_failure : RetailerAdapter → RetailerFailure
normalization_failure adapter = record {
  retailer_id = adapter_id adapter;
  error_code = AdapterErrorCode.invalid_retailer_response;
  message = "Adapter could not normalize one of its own listings.";
}

-- `_normalize`: what the adapter's mapping raises is a failure of that listing.
abbrev add_normalized : RetailerAdapter → Option NormalizedProduct → Answers → Answers
add_normalized adapter none answers = record answers {
  failures = answers.failures ++ normalization_failure adapter ∷ [];
}
add_normalized adapter (some n) answers = record answers {
  normalized = answers.normalized ++ n ∷ [];
}

unfoldable pub add_product : RetailerAdapter → RetailerProduct → Answers → Answers
add_product adapter product answers =
    add_normalized adapter (adapter.normalize_product product)
      (record answers { products = answers.products ++ product ∷ [] })

unfoldable pub add_products : RetailerAdapter → List RetailerProduct → Answers → Answers
unfolding add_product
add_products adapter [] answers = answers
add_products adapter (product ∷ rest) answers =
    add_products adapter rest (add_product adapter product answers)

-- An answer of the loop: a framework error is that retailer's failure, another exception is raised.
unfoldable pub add_answer : RetailerAdapter → Call ProductSearchResult → Answers → Call Answers
unfolding add_products
add_answer adapter (returns result) answers = returns (add_products adapter result.products answers)
add_answer adapter (raises (Raised.adapter_error e)) answers =
    returns (record answers { failures = answers.failures ++ from_error e ∷ [] })
add_answer adapter (raises other) answers = raises other

abbrev after : Call Answers → (Answers → Call Answers) → Call Answers
after (returns answers) f = f answers
after (raises e) f = raises e

unfoldable pub gather_answers : ProductSearchQuery → List RetailerAdapter → Answers → Call Answers
unfolding search_products add_answer
gather_answers query [] answers = returns answers
gather_answers query (adapter ∷ rest) answers =
    after (add_answer adapter (search_products adapter query) answers) (gather_answers query rest)

abbrev outcome_of :
    ProductSearchQuery → List RetailerAdapter → Call Answers → Call FleetSearchOutcome
outcome_of query consulted (raises e) = raises e
outcome_of query consulted (returns answers) = returns (record {
  query = query;
  products = answers.products;
  normalized_products = answers.normalized;
  failures = answers.failures;
  consulted_retailer_ids = map adapter_id consulted;
})

-- The adapters that `search` asks
unfoldable pub capable_adapters : ProductSearchQuery → Registry → List RetailerAdapter
unfolding adapters_supporting
capable_adapters query registry =
    adapters_supporting AdapterOperation.search_products query.category true registry

unfoldable pub search : ProductSearchQuery → Registry → Call FleetSearchOutcome
unfolding capable_adapters gather_answers
search query registry =
    outcome_of query (capable_adapters query registry)
      (gather_answers query (capable_adapters query registry) no_answers)

abbrev price_list : List RetailerProduct → List PriceObservation
price_list [] = []
price_list (p ∷ rest) = elim p.price [ none ↦ price_list rest | some o ↦ o ∷ price_list rest ]

unfoldable pub price_observations : FleetSearchOutcome → List PriceObservation
price_observations outcome = price_list outcome.products

unfoldable pub capable_retailer_ids :
    AdapterOperation → (category : Option Text) → Registry → List Text
unfolding adapters_supporting
capable_retailer_ids operation category registry =
    map adapter_id (adapters_supporting operation category true registry)
