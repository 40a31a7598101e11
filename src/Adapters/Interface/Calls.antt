-- ===== src/Adapters/Interface/Calls.antt =====
-- How a call of an adapter's operation can end.
use Prim.Native.String.{String}
use price_intelligence_india.Base.{
  ℕ, ◌≡◌, refl, sym, subst, Bool, true, false, inl, inr, Bool-cases, ◌&&◌, all,
}
use price_intelligence_india.Domain.{Text}
use price_intelligence_india.Collection.Models.{
  AdapterErrorCode, RetailerAdapterError, Raised, Call, returns, raises,
}
use price_intelligence_india.Adapters.Execution.{Outcome, run_attempt}
use price_intelligence_india.Adapters.Execution.Attempts.{ending_of, decides, execute-decides}
use price_intelligence_india.Adapters.Models.{AdapterOperation, ProductSearchQuery}
use price_intelligence_india.Adapters.Interface.{
  Hook, RetailerAdapter, supports, context_of, failed, ending_call, call_hook, is_own,
  search_products, get_product, get_price, get_availability, get_product_identifiers,
}

-- The number of the attempt of a hook that decides how its call ends
abbrev pub last_try : {A : Type 0} → RetailerAdapter → AdapterOperation → Hook A → ℕ
last_try adapter operation hook =
    decides (context_of adapter operation) adapter.config.retry_policy adapter.jitter hook

-- The adapter is enabled and declares the operation.
abbrev pub IsOperable : RetailerAdapter → AdapterOperation → Type 0
IsOperable adapter operation = (adapter.enabled ≡ true) × (supports adapter operation ≡ true)

-- What a call of the operation is: an error of the checks before the hook, or what the deciding attempt
-- of the hook makes it. `own` is the check of the payload.
pub data CallEnds {A : Type 0} (adapter : RetailerAdapter) (operation : AdapterOperation)
    (own : A → Bool) (hook : Hook A) (c : Call A) : Type 0 where
  disabled :
      adapter.enabled ≡ false
      → c ≡ failed adapter operation AdapterErrorCode.adapter_disabled
      → CallEnds adapter operation own hook c
  unsupported :
      adapter.enabled ≡ true
      → supports adapter operation ≡ false
      → c ≡ failed adapter operation AdapterErrorCode.unsupported_operation
      → CallEnds adapter operation own hook c
  own_payload :
      (r : A)
      → IsOperable adapter operation
      → hook (last_try adapter operation hook) ≡ Outcome.returns r
      → own r ≡ true
      → c ≡ returns r
      → CallEnds adapter operation own hook c
  foreign_payload :
      (r : A)
      → IsOperable adapter operation
      → hook (last_try adapter operation hook) ≡ Outcome.returns r
      → own r ≡ false
      → c ≡ failed adapter operation AdapterErrorCode.invalid_retailer_response
      → CallEnds adapter operation own hook c
  passed_on :
      (e : RetailerAdapterError)
      → IsOperable adapter operation
      → hook (last_try adapter operation hook) ≡ Outcome.fails e
      → c ≡ raises (Raised.adapter_error e)
      → CallEnds adapter operation own hook c
  timed_out :
      IsOperable adapter operation
      → hook (last_try adapter operation hook) ≡ Outcome.times_out
      → c ≡ failed adapter operation AdapterErrorCode.timeout
      → CallEnds adapter operation own hook c
  leaked :
      (type_name : String)
      → IsOperable adapter operation
      → hook (last_try adapter operation hook) ≡ Outcome.leaks type_name
      → c ≡ failed adapter operation AdapterErrorCode.unexpected_adapter_failure
      → CallEnds adapter operation own hook c

module _ {A : Type 0} (adapter : RetailerAdapter) (operation : AdapterOperation) (own : A → Bool)
    (hook : Hook A) where
  outcome-ends :
      (o : Outcome A)
      → IsOperable adapter operation
      → hook (last_try adapter operation hook) ≡ o
      → CallEnds adapter operation own hook (
          ending_call adapter operation own
            (ending_of (run_attempt (context_of adapter operation) o)))
  unfolding run_attempt
  outcome-ends (Outcome.returns r) operable h = elim (Bool-cases (own r)) [
    | inl e ↦ CallEnds.own_payload r operable h e (rw e refl)
    | inr e ↦ CallEnds.foreign_payload r operable h e (rw e refl)
  ]
  outcome-ends (Outcome.fails e) operable h = CallEnds.passed_on e operable h refl
  outcome-ends Outcome.times_out operable h = CallEnds.timed_out operable h refl
  outcome-ends (Outcome.leaks type_name) operable h = CallEnds.leaked type_name operable h refl

  pub call_hook-ends : CallEnds adapter operation own hook (call_hook adapter operation own hook)
  unfolding call_hook
  call_hook-ends = elim (Bool-cases adapter.enabled) [
    | inr off ↦ CallEnds.disabled off (rw off refl)
    | inl on ↦ elim (Bool-cases (supports adapter operation)) [
      | inr undeclared ↦ CallEnds.unsupported on undeclared (rw (on, undeclared) refl)
      | inl declared ↦
          let context = context_of adapter operation in
          let e = (execute-decides context adapter.config.retry_policy adapter.jitter hook).0 in
          let last = run_attempt context (hook (last_try adapter operation hook)) in
          let same : call_hook adapter operation own hook
              ≡ ending_call adapter operation own (ending_of last) =
            rw (on, declared, e) refl in
          subst (CallEnds adapter operation own hook) (sym same)
            (outcome-ends (hook (last_try adapter operation hook)) (on, declared) refl)
    ]
  ]

-- Each operation of an adapter ends in one of these ways: a disabled adapter or an undeclared operation
-- raises the error for it, naming the adapter and the operation; else the deciding attempt of the
-- operation's own hook is returned if its payload, and for a search each listing in it, has the
-- adapter's identity (identifiers have none), refused as invalid if not, raised as it is if the hook
-- raised a framework error, and raised as a timeout or an unexpected failure of this adapter and
-- operation if it did not answer in time or leaked another exception. No other exception is raised.
pub operations-end :
    (adapter : RetailerAdapter)
    → ((query : ProductSearchQuery)
        → CallEnds adapter AdapterOperation.search_products
            (λ r.
              is_own adapter r.retailer_id && all (λ p. is_own adapter p.retailer_id) r.products)
            (adapter.hook_search_products query)
            (search_products adapter query))
      × ((sku : Text)
          → CallEnds adapter AdapterOperation.get_product
              (λ p. is_own adapter p.retailer_id)
              (adapter.hook_get_product sku)
              (get_product adapter sku))
      × ((sku : Text)
          → CallEnds adapter AdapterOperation.get_price
              (λ p. is_own adapter p.retailer_id)
              (adapter.hook_get_price sku)
              (get_price adapter sku))
      × ((sku : Text)
          → CallEnds adapter AdapterOperation.get_availability
              (λ p. is_own adapter p.retailer_id)
              (adapter.hook_get_availability sku)
              (get_availability adapter sku))
      × ((sku : Text)
          → CallEnds adapter AdapterOperation.get_product_identifiers
              (λ _. true)
              (adapter.hook_get_product_identifiers sku)
              (get_product_identifiers adapter sku))
unfolding search_products get_product get_price get_availability get_product_identifiers
operations-end adapter = (
  (λ query. call_hook-ends adapter _ _ (adapter.hook_search_products query)),
  (λ sku. call_hook-ends adapter _ _ (adapter.hook_get_product sku)),
  (λ sku. call_hook-ends adapter _ _ (adapter.hook_get_price sku)),
  (λ sku. call_hook-ends adapter _ _ (adapter.hook_get_availability sku)),
  (λ sku. call_hook-ends adapter _ _ (adapter.hook_get_product_identifiers sku)),
)
