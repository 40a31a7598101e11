-- ===== src/Adapters/Fleet/Tests.antt =====
-- Runs of the registry and the fleet on sample adapters, and their theorems at these inputs.
use mathlib.Core.List.{map}
use price_intelligence_india.Base.{
  ℕ, zero, suc, ◌&&◌, ◌≡◌, refl, true, false, Option, none, some, List, [], ◌∷◌, all, length, arith,
}
use price_intelligence_india.Domain.{SourceType}
use price_intelligence_india.Collection.Models.{AdapterErrorCode, Call, Raised, returns, raises}
use price_intelligence_india.Adapters.Retry.{RetryPolicy, BackoffStrategy, is_retryable, delay_for}
use price_intelligence_india.Adapters.Execution.{
  Outcome, execute, execute_from, after_attempt, run_attempt,
}
use price_intelligence_india.Adapters.Models.{
  HealthStatus, RetailerProduct, NormalizedProduct, ProductSearchQuery, AdapterOperation,
}
use price_intelligence_india.Adapters.Interface.{
  RetailerAdapter, adapter_id, is_own, search_products, health_check,
}
use price_intelligence_india.Adapters.Interface.Calls.{CallEnds, operations-end}
use price_intelligence_india.Adapters.Registry.{
  Registry, Checked, ok, not_registered, already_registered, adapter_disabled, check_raised,
  registry_health_check, register, register_all, unregister, disable, get_enabled, retailer_ids,
}
use price_intelligence_india.Adapters.Registry.Commands.{Command, run_command}
use price_intelligence_india.Adapters.Registry.Checks.{is_consistent}
use price_intelligence_india.Adapters.Registry.Refinement.{
  view, view_checked, Specifies, run_command-refines,
}
use price_intelligence_india.Adapters.Registry.Consistent.{Ensures, run_command-consistent}
use price_intelligence_india.Adapters.Fleet.{FleetSearchOutcome, capable_adapters, search}
use price_intelligence_india.Adapters.Fleet.Isolation.{
  of_each, listings_of, normalized_of, failures_of, search-total,
}

program : Unit {0}
unfolding register_all unregister disable get_enabled execute_from after_attempt retailer_ids search
    search_products health_check execute run_attempt registry_health_check is_retryable delay_for
    run_command
program = tt

abbrev policy : RetryPolicy
policy = record {
  max_attempts = 2;
  backoff_strategy = BackoffStrategy.fixed;
  initial_backoff = 1;
  max_backoff = 4;
  backoff_multiplier = record { num = 2; den = 1; den_positive = omega arith };
  jitter_ratio = record { num = 0; den = 1; den_positive = omega arith };
  retryable_error_codes = λ _. true;
  max_attempts_positive = omega arith;
}

abbrev product : (id sku : ℕ) → RetailerProduct
product id sku = record {
  retailer_id = id ∷ [];
  retailer_sku = sku ∷ [];
  title = 84 ∷ [];
  url = none;
  brand_name = none;
  category_path = [];
  attributes = [];
  identifiers = [];
  seller = none;
  price = none;
  availability = none;
  source_type = SourceType.official_api;
  retrieved_at = 5;
}

abbrev normalized : RetailerProduct → NormalizedProduct
normalized p = record {
  retailer_id = p.retailer_id;
  retailer_sku = p.retailer_sku;
  normalized_title = p.title;
  brand_name = none;
  brand_slug = none;
  category_slug = none;
  variant_attributes = (97 ∷ [], 98 ∷ []) ∷ [];
  identifiers = [];
  source_url = none;
  source_type = p.source_type;
  normalized_at = 5;
}

-- An adapter that answers each search with the given listings, or not in time.
abbrev sample_adapter : (id : ℕ) → Option (List RetailerProduct) → RetailerAdapter
sample_adapter id answer = record {
  config = record {
    retailer_id = id ∷ [];
    retailer_name = id ∷ [];
    source_type = SourceType.official_api;
    supported_categories = (109 ∷ []) ∷ [];
    supported_operations = λ _. true;
    enabled = true;
    retry_policy = policy;
  };
  enabled = true;
  implements = λ _. true;
  jitter = λ _. record { num = 0; den = 1; den_positive = omega arith };
  hook_search_products = λ query n. elim answer [
    | none ↦ Outcome.times_out
    | some products ↦
        Outcome.returns
          (record { retailer_id = id ∷ []; query = query; products = products; retrieved_at = 5 })
  ];
  hook_get_product = λ sku n. Outcome.times_out;
  hook_get_price = λ sku n. Outcome.times_out;
  hook_get_availability = λ sku n. Outcome.times_out;
  hook_get_product_identifiers = λ sku n. Outcome.times_out;
  hook_check_health = λ n. Outcome.times_out;
  normalize_product = λ p. some (normalized p);
}

abbrev working : RetailerAdapter
working = sample_adapter 97 (some (product 97 49 ∷ []))

abbrev silent : RetailerAdapter
silent = sample_adapter 98 none

abbrev query : ProductSearchQuery
query = record { text = some (84 ∷ []); category = none; limit = 20 }

abbrev registry : Registry
registry =
    (97 ∷ [], record { adapter = working; registered_at = 1; last_health = none })
    ∷ (98 ∷ [], record { adapter = silent; registered_at = 1; last_health = none })
    ∷ []

registered : register_all (working ∷ silent ∷ []) false 1 [] ≡ ok registry
unfolding program
registered = refl

registered_twice : register working false 2 registry ≡ already_registered (97 ∷ [])
unfolding program
registered_twice = refl

never_registered : unregister (99 ∷ []) registry ≡ not_registered (99 ∷ [])
unfolding program
never_registered = refl

abbrev disabled_adapter : Checked Registry → Checked RetailerAdapter
disabled_adapter (ok r) = get_enabled (97 ∷ []) r
disabled_adapter _ = not_registered []

switched_off : disabled_adapter (disable (97 ∷ []) registry) ≡ adapter_disabled (97 ∷ [])
unfolding program
switched_off = refl

health_of_silent :
    health_check silent 7
    ≡ returns (record {
      retailer_id = 98 ∷ [];
      status = HealthStatus.degraded;
      checked_at = 7;
      detail = none;
      error_code = some AdapterErrorCode.timeout;
    })
unfolding program
health_of_silent = refl

abbrev counts : Call FleetSearchOutcome → List ℕ
counts (returns o) =
    length o.products
    ∷ length o.normalized_products
    ∷ length o.failures
    ∷ length o.consulted_retailer_ids
    ∷ []
counts (raises e) = []

-- A hook that gives a detail of 501 characters
abbrev verbose : RetailerAdapter
verbose = record working { hook_check_health = λ n. Outcome.returns (some (times 501)) }
  where
    times : ℕ → List ℕ
    times zero = []
    times (suc n) = 97 ∷ times n

detail_too_long :
    registry_health_check
      (97 ∷ [])
      7
      ((97 ∷ [], record { adapter = verbose; registered_at = 1; last_health = none }) ∷ [])
    ≡ check_raised (Raised.other_exception "ValidationError")
unfolding program
detail_too_long = refl

-- The retailer that does not answer is a failure beside the other's listing.
one_failure : counts (search query registry) ≡ 1 ∷ 1 ∷ 1 ∷ 2 ∷ []
unfolding program
one_failure = refl

operations-end_example :
    CallEnds working AdapterOperation.search_products
      (λ r. is_own working r.retailer_id && all (λ p. is_own working p.retailer_id) r.products)
      (working.hook_search_products query)
      (search_products working query)
operations-end_example = (operations-end working).0 query

consistent : is_consistent registry ≡ true
unfolding program
consistent = refl

run_command-consistent_example :
    Ensures (run_command 3 (Command.register_adapter working true) registry)
run_command-consistent_example =
    run_command-consistent 3 (Command.register_adapter working true) registry consistent

run_command-refines_example :
    Specifies 3
      (Command.check_all true)
      (view registry)
      (view_checked (run_command 3 (Command.check_all true) registry))
run_command-refines_example = run_command-refines 3 (Command.check_all true) registry consistent

search-total_example :
    let capable = capable_adapters query registry in
    (search query registry
      ≡ returns (record {
        query = query;
        products = of_each (listings_of query) capable;
        normalized_products = of_each (λ x. normalized_of x (listings_of query x)) capable;
        failures = of_each (λ x. failures_of x (search_products x query)) capable;
        consulted_retailer_ids = map adapter_id capable;
      }))
    × ((adapter : RetailerAdapter)
        → all (λ p. is_own adapter p.retailer_id) (listings_of query adapter) ≡ true)
search-total_example = search-total query registry
