-- ===== src/Collection/Retry.antt =====
-- backend/app/collectors/retry.py and mapping.py: which failures are retried, how long to wait, and
-- the failure that an exception becomes.
use Prim.Native.String.{String}
use price_intelligence_india.Base.{
  ℕ, zero, suc, ◌*◌, ◌^◌, Bool, true, false, ◌&&◌, Option, none, some, if◌then◌else◌, leb,
}
use price_intelligence_india.Domain.{Text}
use price_intelligence_india.Collection.Models.{
  CollectionErrorCategory, AdapterErrorCode, RetailerAdapterError, CollectionFailure, Raised,
  CollectionConfig,
}

-- The `in` test of `RETRYABLE_CATEGORIES`
abbrev pub is_retryable_category : CollectionErrorCategory → Bool
is_retryable_category CollectionErrorCategory.timeout = true
is_retryable_category CollectionErrorCategory.rate_limited = true
is_retryable_category CollectionErrorCategory.temporary_failure = true
is_retryable_category _ = false

unfoldable pub is_retryable : CollectionFailure → (attempt max_attempts : ℕ) → Bool
is_retryable error attempt max_attempts =
    if leb max_attempts attempt
    then false
    else error.retryable && is_retryable_category error.category

-- A wait in microseconds, as a fraction.
pub record Wait : Type 0 where
  pub num : ℕ
  pub den : ℕ

-- `ValueError` for an attempt below one
unfoldable pub backoff_seconds : CollectionConfig → ℕ → Option Wait
backoff_seconds config zero = none
backoff_seconds config (suc k) =
    let num = config.initial_backoff * config.multiplier_num ^ k in
    let den = config.multiplier_den ^ k in
    some (
      if leb num (config.max_backoff * den)
      then record { num = num; den = den }
      else record { num = config.max_backoff; den = 1 })

-- `_CATEGORY_BY_CODE`
abbrev pub category_by_code : AdapterErrorCode → CollectionErrorCategory
category_by_code AdapterErrorCode.timeout = CollectionErrorCategory.timeout
category_by_code AdapterErrorCode.rate_limited = CollectionErrorCategory.rate_limited
category_by_code AdapterErrorCode.adapter_unavailable = CollectionErrorCategory.temporary_failure
category_by_code AdapterErrorCode.temporary_retailer_failure =
    CollectionErrorCategory.temporary_failure
category_by_code AdapterErrorCode.invalid_retailer_response = CollectionErrorCategory.validation
category_by_code AdapterErrorCode.product_not_found = CollectionErrorCategory.permanent
category_by_code AdapterErrorCode.unsupported_operation = CollectionErrorCategory.permanent
category_by_code AdapterErrorCode.adapter_disabled = CollectionErrorCategory.permanent
category_by_code AdapterErrorCode.adapter_misconfigured = CollectionErrorCategory.configuration
category_by_code AdapterErrorCode.unexpected_adapter_failure = CollectionErrorCategory.unexpected

-- The `in` test of `_RETRYABLE_ADAPTER_CODES`
abbrev pub is_retryable_code : AdapterErrorCode → Bool
is_retryable_code AdapterErrorCode.adapter_unavailable = true
is_retryable_code AdapterErrorCode.timeout = true
is_retryable_code AdapterErrorCode.rate_limited = true
is_retryable_code AdapterErrorCode.temporary_retailer_failure = true
is_retryable_code _ = false

unfoldable pub collection_failure_from_adapter :
    RetailerAdapterError → Option Text → CollectionFailure
collection_failure_from_adapter error operation_target = record {
  message = error.message;
  category = category_by_code error.code;
  retailer_id = error.retailer_id;
  retryable = is_retryable_code error.code;
  operation = error.operation;
  operation_target = operation_target;
}

-- `message_of` writes the sentence with the type's name.
unfoldable pub collection_failure_from_exception :
    (message_of : String → String) → Raised → Text → String → Option Text → CollectionFailure
unfolding collection_failure_from_adapter
collection_failure_from_exception message_of (Raised.collection_failure f) retailer_id op target = f
collection_failure_from_exception message_of (Raised.adapter_error e) retailer_id op target =
    collection_failure_from_adapter e target
collection_failure_from_exception message_of (Raised.other_exception name) retailer_id op target =
    record {
      message = message_of name;
      category = CollectionErrorCategory.unexpected;
      retailer_id = retailer_id;
      retryable = false;
      operation = some op;
      operation_target = target;
    }
