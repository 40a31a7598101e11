-- ===== src/Collection/Jobs.antt =====
-- backend/app/collectors/jobs.py: the refresh loops over one retailer's listings. The adapter and the
-- ingestor are parameters.
use Prim.Native.String.{String}
use price_intelligence_india.Base.{
  ℕ, ◌+◌, ◌≡◌, refl, Bool, true, false, ◌&&◌, not, some, List, [], ◌∷◌, ◌++◌, length, if◌then◌else◌,
  arith,
}
use price_intelligence_india.Domain.{Text}
use price_intelligence_india.Collection.Models.{CollectionFailure, Call}
use price_intelligence_india.Collection.Retry.{collection_failure_from_exception}

pub record RetailerJobOutcome : Type 0 where
  pub succeeded : ℕ
  pub failed : ℕ
  pub skipped : ℕ
  pub item_errors : List CollectionFailure

abbrev pub nothing_done : RetailerJobOutcome
nothing_done = record { succeeded = 0; failed = 0; skipped = 0; item_errors = [] }

abbrev pub attempted : RetailerJobOutcome → ℕ
attempted o = o.succeeded + o.failed

-- The rest of a body after a call: an exception ends it.
abbrev and_next {ℓ κ} : {A : Type ℓ} {B : Type κ} → Call A → (A → Call B) → Call B
and_next (Call.returns a) next = next a
and_next (Call.raises e) next = Call.raises e

-- The `try` body of `run_product_refresh`: whether a row was persisted.
unfoldable pub product_item {ℓ} :
    {Product : Type ℓ}
    → (get_product : Text → Call Product) → (ingest : Product → Call Bool) → Text
    → Call Bool
product_item get_product ingest sku = and_next (get_product sku) ingest

-- The `try` body of `run_price_refresh`.
unfoldable pub price_item {ℓ} :
    {Price : Type ℓ}
    → (get_price : Text → Call Price) → (ingest_price : Text → Price → Call Bool) → Text
    → Call Bool
price_item get_price ingest_price sku = and_next (get_price sku) (ingest_price sku)

-- The `try` body of `run_availability_refresh`: without a snapshot to update, a price is asked for.
unfoldable pub availability_item {ℓ κ} :
    {Availability : Type ℓ} {Price : Type κ}
    → (get_availability : Text → Call Availability)
    → (ingest_availability : Text → Availability → Call Bool) → (supports_price : Bool)
    → (get_price : Text → Call Price) → (ingest_price : Text → Price → Call Bool) → Text
    → Call Bool
unfolding price_item
availability_item get_availability ingest_availability supports_price get_price ingest_price sku =
    and_next (get_availability sku) λ a. and_next (ingest_availability sku a) λ persisted.
      if not persisted && supports_price
      then price_item get_price ingest_price sku
      else Call.returns persisted

module _ (message_of : String → String) (retailer_id : Text) (operation : String) where
  -- One round of a refresh loop.
  abbrev pub count_item : RetailerJobOutcome → Text → Call Bool → RetailerJobOutcome
  count_item o sku (Call.returns true) = record o { succeeded = o.succeeded + 1 }
  count_item o sku (Call.returns false) = record o { skipped = o.skipped + 1 }
  count_item o sku (Call.raises e) = record o {
    failed = o.failed + 1;
    item_errors =
        o.item_errors
        ++ (collection_failure_from_exception message_of e retailer_id operation (some sku) ∷ []);
  }

  -- `for sku in skus`, from the counts so far
  unfoldable pub run_refresh :
      (item : Text → Call Bool) → RetailerJobOutcome → List Text → RetailerJobOutcome
  run_refresh item o [] = o
  run_refresh item o (sku ∷ skus) = run_refresh item (count_item o sku (item sku)) skus

  length-snoc :
      (xs : List CollectionFailure) (x : CollectionFailure)
      → length (xs ++ (x ∷ [])) ≡ length xs + 1
  length-snoc [] x = refl
  length-snoc (y ∷ ys) x = omega (arith, length-snoc ys x)

  count_item-counts :
      (o : RetailerJobOutcome) (sku : Text) (c : Call Bool)
      → let r = count_item o sku c in
        (r.succeeded + r.failed + r.skipped ≡ o.succeeded + o.failed + o.skipped + 1)
        × (length r.item_errors + o.failed ≡ length o.item_errors + r.failed)
  count_item-counts o sku (Call.returns true) = (omega arith, omega arith)
  count_item-counts o sku (Call.returns false) = (omega arith, omega arith)
  count_item-counts o sku (Call.raises e) =
      (omega arith, omega (arith, length-snoc o.item_errors _))

  refresh-counts :
      (item : Text → Call Bool) (o : RetailerJobOutcome) (skus : List Text)
      → let r = run_refresh item o skus in
        (r.succeeded + r.failed + r.skipped ≡ o.succeeded + o.failed + o.skipped + length skus)
        × (length r.item_errors + o.failed ≡ length o.item_errors + r.failed)
  unfolding run_refresh
  refresh-counts item o [] = (omega arith, omega arith)
  refresh-counts item o (sku ∷ skus) =
      let (a, b) = count_item-counts o sku (item sku) in
      let (c, d) = refresh-counts item (count_item o sku (item sku)) skus in
      (omega (arith, a, c), omega (arith, b, d))

  -- A refresh visits every listing, whatever the adapter raises: each one succeeds, fails or is
  -- skipped, and each failure is recorded once.
  pub run_refresh-counts :
      (item : Text → Call Bool) (skus : List Text)
      → let r = run_refresh item nothing_done skus in
        (r.succeeded + r.failed + r.skipped ≡ length skus) × (length r.item_errors ≡ r.failed)
  run_refresh-counts item skus =
      let (a, b) = refresh-counts item nothing_done skus in (omega (arith, a), omega (arith, b))
