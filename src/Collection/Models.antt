-- ===== src/Collection/Models.antt =====
-- The enumerations of collection in backend/app/domain/enums.py, the failures of
-- backend/app/collectors/errors.py, the error codes of backend/app/retailer_adapters/base/errors.py,
-- and the rows of backend/app/db/models/collection_job.py and collection_error.py.
use Prim.Native.String.{String}
use price_intelligence_india.Base.{ℕ, suc, ◌≤◌, Bool, Option}
use price_intelligence_india.Domain.{Text, Uuid, Datetime}

pub data CollectionJobType : Type 0 where
  product_search product_refresh price_refresh availability_refresh sale_event_refresh :
      CollectionJobType

pub data CollectionJobStatus : Type 0 where
  pending running success partial_success failed : CollectionJobStatus

pub data CollectionErrorCategory : Type 0 where
  timeout rate_limited temporary_failure validation permanent configuration unexpected :
      CollectionErrorCategory

pub data AdapterErrorCode : Type 0 where
  adapter_unavailable timeout rate_limited product_not_found unsupported_operation
        invalid_retailer_response temporary_retailer_failure adapter_disabled adapter_misconfigured
        unexpected_adapter_failure :
      AdapterErrorCode

pub record RetailerAdapterError : Type 0 where
  pub code : AdapterErrorCode
  pub message : String
  pub retailer_id : Text
  pub operation : Option String
  pub retry_after : Option ℕ

pub record CollectionFailure : Type 0 where
  pub message : String
  pub category : CollectionErrorCategory
  pub retailer_id : Text
  pub retryable : Bool
  pub operation : Option String
  pub operation_target : Option Text

-- An exception: a collection failure, an adapter's error, or another one by its type's name.
pub data Raised : Type 0 where
  collection_failure : CollectionFailure → Raised
  adapter_error : RetailerAdapterError → Raised
  other_exception : (type_name : String) → Raised

-- What a call gives: a value or an exception.
pub data Call {ℓ} (A : Type ℓ) : Type ℓ where
  returns : A → Call A
  raises : Raised → Call A

-- The retry policy of backend/app/collectors/config.py: waits in microseconds, and the multiplier a
-- fraction that is at least one.
pub record CollectionConfig : Type 0 where
  pub max_retries : ℕ
  pub initial_backoff : ℕ
  pub max_backoff : ℕ
  pub multiplier_num : ℕ
  pub multiplier_den : ℕ
  pub multiplier_is_positive : 1 ≤ multiplier_den
  pub multiplier_ge_one : multiplier_den ≤ multiplier_num

abbrev pub max_attempts : CollectionConfig → ℕ
max_attempts config = suc config.max_retries

pub record CollectionJob : Type 0 where
  pub id : Uuid
  pub job_type : CollectionJobType
  pub retailer_id : Text
  pub status : CollectionJobStatus
  pub started_at : Option Datetime
  pub completed_at : Option Datetime
  pub duration : Option ℕ
  pub retry_count : ℕ
  pub error_category : Option CollectionErrorCategory
  pub error_message : Option String
  pub idempotency_key : Text

pub record CollectionErrorRow : Type 0 where
  pub collection_job_id : Uuid
  pub retailer_id : Text
  pub error_category : CollectionErrorCategory
  pub error_message : String
  pub attempt : ℕ
  pub max_attempts : ℕ
  pub retryable : Bool
  pub operation : Option String
  pub operation_target : Option Text
  pub occurred_at : Datetime
