-- ===== src/Collection/Policy.antt =====
-- The waits of the retry policy, and the failures that exceptions become.
use Prim.Native.String.{String}
use native.Mathlib.Nat.{pow-le-pow_left, mul-le-mul_left, mul-le-mul_right, le_trans}
use price_intelligence_india.Base.{
  ℕ, suc, min, Bool-cases, inl, inr, leb→le, ◌*◌, ◌^◌, ◌≤◌, ◌≡◌, refl, Bool, true, false, ◌&&◌,
  Option, none, some, leb, arith,
}
use price_intelligence_india.Domain.{Text}
use price_intelligence_india.Collection.Models.{Raised, CollectionFailure, CollectionConfig}
use price_intelligence_india.Collection.Retry.{
  Wait, backoff_seconds, is_retryable_category, collection_failure_from_adapter,
  collection_failure_from_exception,
}

-- The wait is known, at most the cap, and at least the smaller of the cap and the first wait.
abbrev pub is_bounded : CollectionConfig → Option Wait → Bool
is_bounded config none = false
is_bounded config (some w) =
    leb w.num (config.max_backoff * w.den)
    && leb (min config.initial_backoff config.max_backoff * w.den) w.num

capped_le : (first most n d : ℕ) → d ≤ n → first * n ≤ most * d → min first most * d ≤ first * n
capped_le first most n d h k =
    let small : min first most ≤ first = omega arith in
    le_trans (mul-le-mul_right d small) (mul-le-mul_left first h)

-- Every failed attempt is followed by a wait, and never by one above the cap or below both the cap
-- and the first wait.
pub backoff_seconds-bounded :
    (config : CollectionConfig) (k : ℕ) → is_bounded config (backoff_seconds config (suc k)) ≡ true
unfolding backoff_seconds
backoff_seconds-bounded config k =
    let first = config.initial_backoff in
    let most = config.max_backoff in
    let n = config.multiplier_num ^ k in
    let d = config.multiplier_den ^ k in
    let grows = pow-le-pow_left config.multiplier_ge_one k in
    elim (Bool-cases (leb (first * n) (most * d))) [
      | inl e ↦ rw e (
          ground (
            arith,
            leb→le (first * n) (most * d) e,
            capped_le first most n d grows (leb→le (first * n) (most * d) e),
          ))
      | inr e ↦ rw e (ground arith)
    ]

-- The failure that an adapter's error or an unexpected exception becomes is marked as retryable
-- exactly if its category is one that is retried.
pub collection_failure-agrees :
    (message_of : String → String) (raised : Raised) (retailer_id : Text) (op : String)
    (target : Option Text)
    → ((f : CollectionFailure) → raised ≡ Raised.collection_failure f → ⊥)
    → let f = collection_failure_from_exception message_of raised retailer_id op target in
      f.retryable ≡ is_retryable_category f.category
unfolding collection_failure_from_exception collection_failure_from_adapter
collection_failure-agrees message_of (Raised.collection_failure f) r op t h = absurd (h f refl)
collection_failure-agrees message_of (Raised.adapter_error e) r op t h = ground arith
collection_failure-agrees message_of (Raised.other_exception n) r op t h = refl
