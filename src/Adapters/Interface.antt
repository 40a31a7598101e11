-- ===== src/Adapters/Interface.antt =====
-- `RetailerAdapter` of backend/app/retailer_adapters/base/interface.py. The hooks of an adapter, with
-- what they give at each attempt, and its mapping of a listing are parameters. Messages, metrics and log records are left out.
pub mod Calls
use Prim.Native.String.{String}
use price_intelligence_india.Base.{
  ℕ, Bool, true, false, ◌&&◌, ◌||◌, not, Option, none, some, List, [], ◌∷◌, all, if◌then◌else◌,
  length, leb, arith,
}
use price_intelligence_india.Base.Dict.{same_key}
use price_intelligence_india.Domain.{Text, Datetime}
use price_intelligence_india.Collection.Models.{
  AdapterErrorCode, RetailerAdapterError, Raised, Call, returns, raises,
}
use price_intelligence_india.Adapters.Retry.{Fraction, RetryPolicy}
use price_intelligence_india.Adapters.Execution.{
  Outcome, Ending, CallContext, framework_error, execute,
}
use price_intelligence_india.Adapters.Models.{
  HealthStatus, ProductIdentifierValue, PriceObservation, AvailabilityObservation, RetailerProduct,
  NormalizedProduct, ProductSearchQuery, ProductSearchResult, HealthCheckResult, AdapterOperation,
  RetailerAdapterConfig, config_supports,
}

-- What a hook gives at its attempts, from the first on
abbrev pub Hook : Type 0 → Type 0
Hook A = ℕ → Outcome A

pub record RetailerAdapter : Type 0 where
  pub config : RetailerAdapterConfig
  pub enabled : Bool
  pub implements : AdapterOperation → Bool
  pub jitter : ℕ → Fraction
  pub hook_search_products : ProductSearchQuery → Hook ProductSearchResult
  pub hook_get_product : Text → Hook RetailerProduct
  pub hook_get_price : Text → Hook PriceObservation
  pub hook_get_availability : Text → Hook AvailabilityObservation
  pub hook_get_product_identifiers : Text → Hook (List ProductIdentifierValue)
  pub hook_check_health : Hook (Option Text)
  pub normalize_product : RetailerProduct → Option NormalizedProduct

abbrev pub adapter_id : RetailerAdapter → Text
adapter_id adapter = adapter.config.retailer_id

abbrev pub supports : RetailerAdapter → AdapterOperation → Bool
supports adapter operation = config_supports adapter.config operation

abbrev agrees : Bool → Bool → Bool
agrees a b = a && b || not a && not b

-- `_verify_declared_operations_are_implemented`: an adapter exists only if this holds.
unfoldable pub declared_operations_are_implemented : RetailerAdapter → Bool
declared_operations_are_implemented adapter =
    all
      (λ operation.
        agrees (adapter.implements operation) (adapter.config.supported_operations operation))
      (AdapterOperation.search_products ∷ AdapterOperation.get_product ∷ AdapterOperation.get_price
        ∷ AdapterOperation.get_availability ∷ AdapterOperation.get_product_identifiers ∷ [])

abbrev operation_name : AdapterOperation → String
operation_name AdapterOperation.search_products = "search_products"
operation_name AdapterOperation.get_product = "get_product"
operation_name AdapterOperation.get_price = "get_price"
operation_name AdapterOperation.get_availability = "get_availability"
operation_name AdapterOperation.get_product_identifiers = "get_product_identifiers"
operation_name AdapterOperation.health_check = "health_check"

abbrev pub context_of : RetailerAdapter → AdapterOperation → CallContext
context_of adapter operation = record {
  retailer_id = adapter_id adapter;
  operation = operation_name operation;
}

abbrev pub error_of : RetailerAdapter → AdapterOperation → AdapterErrorCode → RetailerAdapterError
error_of adapter operation code = framework_error (context_of adapter operation) code

abbrev pub failed : {A : Type 0} → RetailerAdapter → AdapterOperation → AdapterErrorCode → Call A
failed adapter operation code = raises (Raised.adapter_error (error_of adapter operation code))

-- What an ending of the executor is to a caller
abbrev pub ending_call :
    {A : Type 0} → RetailerAdapter → AdapterOperation → (own : A → Bool) → Ending A → Call A
ending_call adapter operation own (Ending.returned a) =
    if own a then returns a else failed adapter operation AdapterErrorCode.invalid_retailer_response
ending_call adapter operation own (Ending.raised e) = raises (Raised.adapter_error e)
ending_call adapter operation own Ending.assertion_error =
    raises (Raised.other_exception "AssertionError")

-- `_ensure_operable`, the executor and `_assert_own_payload` around a hook
unfoldable pub call_hook :
    {A : Type 0} → RetailerAdapter → AdapterOperation → (own : A → Bool) → Hook A → Call A
unfolding config_supports
call_hook adapter operation own hook =
    if not adapter.enabled
    then failed adapter operation AdapterErrorCode.adapter_disabled
    else if not (supports adapter operation)
    then failed adapter operation AdapterErrorCode.unsupported_operation
    else ending_call adapter operation own
        (execute (context_of adapter operation) adapter.config.retry_policy adapter.jitter
          hook).ending

-- `_assert_own_payload`
abbrev pub is_own : RetailerAdapter → Text → Bool
is_own adapter retailer_id = same_key retailer_id (adapter_id adapter)

abbrev pub result_is_own : RetailerAdapter → ProductSearchResult → Bool
result_is_own adapter r =
    is_own adapter r.retailer_id && all (λ p. is_own adapter p.retailer_id) r.products

unfoldable pub search_products : RetailerAdapter → ProductSearchQuery → Call ProductSearchResult
unfolding call_hook
search_products adapter query =
    call_hook adapter AdapterOperation.search_products (result_is_own adapter)
      (adapter.hook_search_products query)

unfoldable pub get_product : RetailerAdapter → Text → Call RetailerProduct
unfolding call_hook
get_product adapter sku =
    call_hook adapter AdapterOperation.get_product (λ p. is_own adapter p.retailer_id)
      (adapter.hook_get_product sku)

unfoldable pub get_price : RetailerAdapter → Text → Call PriceObservation
unfolding call_hook
get_price adapter sku =
    call_hook adapter AdapterOperation.get_price (λ p. is_own adapter p.retailer_id)
      (adapter.hook_get_price sku)

unfoldable pub get_availability : RetailerAdapter → Text → Call AvailabilityObservation
unfolding call_hook
get_availability adapter sku =
    call_hook adapter AdapterOperation.get_availability (λ p. is_own adapter p.retailer_id)
      (adapter.hook_get_availability sku)

unfoldable pub get_product_identifiers : RetailerAdapter → Text → Call (List ProductIdentifierValue)
unfolding call_hook
get_product_identifiers adapter sku =
    call_hook adapter AdapterOperation.get_product_identifiers (λ _. true)
      (adapter.hook_get_product_identifiers sku)

-- `inherently_retryable`, by the class of an error
abbrev inherently_retryable : AdapterErrorCode → Bool
inherently_retryable AdapterErrorCode.adapter_unavailable = true
inherently_retryable AdapterErrorCode.timeout = true
inherently_retryable AdapterErrorCode.rate_limited = true
inherently_retryable AdapterErrorCode.temporary_retailer_failure = true
inherently_retryable _ = false

-- `max_attempts` of the executor of health checks
abbrev pub once : RetryPolicy → RetryPolicy
once policy = record policy { max_attempts = 1; max_attempts_positive = omega arith }

abbrev pub health_result :
    RetailerAdapter
    → Datetime
    → HealthStatus
    → Option Text
    → Option AdapterErrorCode
    → HealthCheckResult
health_result adapter now status detail code = record {
  retailer_id = adapter_id adapter;
  status = status;
  checked_at = now;
  detail = detail;
  error_code = code;
}

-- `max_length` of `HealthCheckResult.detail`
abbrev pub fits : Option Text → Bool
fits none = true
fits (some detail) = leb (length detail) 500

-- The detail of a failed check is the error's message, cut to the length that is allowed.
abbrev pub health_of : RetailerAdapter → Datetime → Ending (Option Text) → Call HealthCheckResult
health_of adapter now (Ending.returned detail) =
    if fits detail
    then returns (health_result adapter now HealthStatus.healthy detail none)
    else raises (Raised.other_exception "ValidationError")
health_of adapter now (Ending.raised e) = returns (
    health_result adapter now
      (if inherently_retryable e.code then HealthStatus.degraded else HealthStatus.unhealthy) none
      (some e.code))
health_of adapter now Ending.assertion_error = raises (Raised.other_exception "AssertionError")

unfoldable pub health_check : RetailerAdapter → (now : Datetime) → Call HealthCheckResult
health_check adapter now =
    if not adapter.enabled
    then returns (health_result adapter now HealthStatus.unknown none none)
    else health_of adapter now
        (execute (context_of adapter AdapterOperation.health_check)
          (once adapter.config.retry_policy) adapter.jitter adapter.hook_check_health).ending
