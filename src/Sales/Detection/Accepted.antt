-- ===== src/Sales/Detection/Accepted.antt =====
-- The window of one cluster is a sale event that the validators accept.
use mathlib.Core.List.{List, [], ◌∷◌, map}
use price_intelligence_india.Base.{
  ℕ, suc, ◌≤◌, ◌≡◌, refl, ap, ◌∙◌, Bool, true, false, ◌&&◌, Option, none, some, all, length,
  all-append, leb, arith, Bool-cases, le→leb, inl, inr,
}
use price_intelligence_india.Domain.{Text, Uuid}
use price_intelligence_india.Money.{round_half_up, le-round_half_up}
use price_intelligence_india.Validation.Outcome.{Validated, ok, raised}
use price_intelligence_india.Validation.SaleEvents.{Moment, validate_sale_event}
use price_intelligence_india.Sales.Models.{SalesConfig}
use price_intelligence_india.Sales.History.Metrics.{median_twice}
use price_intelligence_india.Sales.Detection.Median.{median_twice-le}
use price_intelligence_india.Sales.Detection.Drops.{ListingKey, listing_key, Drop}
use price_intelligence_india.Sales.Detection.Thresholds.{reaches}
use price_intelligence_india.Sales.Detection.Windows.{
  Scope, DetectedSaleWindow, detected_source, distinct_keys, point_of, drop_of, last_of, emitted,
  emitted_all, type_of, retailer_field, category_field, brand_field,
}
use price_intelligence_india.Sales.Detection.Closed.{cluster_ok}

distinct_keys-le : (keys : List ListingKey) → distinct_keys keys ≤ length keys
unfolding distinct_keys
distinct_keys-le [] = omega arith
distinct_keys-le (k ∷ keys) = ground (arith, distinct_keys-le keys)

length-map {ℓ κ} :
    {A : Type ℓ} {B : Type κ} (f : A → B) (xs : List A) → length (map f xs) ≡ length xs
length-map f [] = refl
length-map f (x ∷ xs) = ap suc (length-map f xs)

all-drops :
    (t : ℕ) (ds : List Drop) → all (reaches t) ds ≡ true → all (leb t) (map drop_of ds) ≡ true
all-drops t [] h = refl
all-drops t (d ∷ ds) h = ground (arith, all-drops t ds)

abbrev accepts : Validated (Option Text) → Bool
accepts (ok ref) = true
accepts (raised e) = false

abbrev reaches_option : ℕ → Option ℕ → Bool
reaches_option t none = false
reaches_option t (some drop) = leb t drop

-- The window has enough listings and drops that are deep enough, and it can be kept as a sale event.
abbrev pub is_acceptable : SalesConfig → Text → DetectedSaleWindow → Bool
is_acceptable config source_ref w =
    leb config.min_listings_for_detection w.listing_count
    && leb w.listing_count w.observation_count
    && reaches_option config.drop_percent_threshold w.median_drop_percent
    && accepts (
        validate_sale_event w.event_type detected_source (some source_ref) w.retailer_id
          w.category_id w.brand_id (Moment.aware w.start_date) (Moment.aware w.end_date))

pub both : {a b : Bool} → a ≡ true → b ≡ true → (a && b) ≡ true
both {a} {b} h k = ground arith

module _ (config : SalesConfig) (source_ref : Text) where
  abbrev threshold : ℕ
  threshold = config.drop_percent_threshold

  deep_enough :
      (first : Drop) (rest : List Drop)
      → all (reaches threshold) (first ∷ rest) ≡ true
      → threshold ≤ round_half_up (median_twice (map drop_of (first ∷ rest))) 2
  deep_enough first rest h =
      le-round_half_up (median_twice (map drop_of (first ∷ rest))) 2 threshold (omega arith) (
        omega (
          arith,
          median_twice-le threshold (map drop_of (first ∷ rest))
              (all-drops threshold (first ∷ rest) h) (omega arith),
        ))

  accepted :
      (scope : Scope) (id start end : ℕ)
      → leb start end ≡ true
      → accepts (
          validate_sale_event
            (type_of scope)
            detected_source
            (some source_ref)
            (retailer_field scope id)
            (category_field scope id)
            (brand_field scope id)
            (Moment.aware start)
            (Moment.aware end))
        ≡ true
  unfolding validate_sale_event
  accepted Scope.retailer id start end h = ground arith
  accepted Scope.category id start end h = ground arith
  accepted Scope.brand id start end h = ground arith

  emitted-acceptable :
      (scope : Scope) (id : Uuid) (cluster : List Drop)
      → cluster_ok threshold cluster ≡ true
      → all (is_acceptable config source_ref) (emitted config scope id cluster) ≡ true
  unfolding emitted cluster_ok
  emitted-acceptable scope id [] h = refl
  emitted-acceptable scope id (first ∷ rest) h =
      let keys = map (λ (d : Drop). listing_key (point_of d)) (first ∷ rest) in
      let few = distinct_keys-le keys in
      let same = length-map (λ (d : Drop). listing_key (point_of d)) (first ∷ rest) in
      let deep = deep_enough first rest (ground arith) in
      let kept =
        accepted scope id (point_of first).observed_at (point_of (last_of first rest)).observed_at
          (ground arith) in
      elim (Bool-cases (leb config.min_listings_for_detection (distinct_keys keys))) [
        | inl e ↦
            let fewer : leb (distinct_keys keys) (length (first ∷ rest)) ≡ true =
              le→leb (distinct_keys keys) (length (first ∷ rest)) (omega (arith, few, same)) in
            let median = round_half_up (median_twice (map drop_of (first ∷ rest))) 2 in
            rw e (both (both (both (both e fewer) (le→leb threshold median deep)) kept) refl)
        | inr e ↦ rw e refl
      ]

  pub emitted_all-acceptable :
      (scope : Scope) (id : Uuid) (closed : List (List Drop))
      → all (cluster_ok threshold) closed ≡ true
      → all (is_acceptable config source_ref) (emitted_all config scope id closed) ≡ true
  emitted_all-acceptable scope id [] h = refl
  emitted_all-acceptable scope id (cluster ∷ rest) h =
      all-append (is_acceptable config source_ref) (emitted config scope id cluster)
        (emitted_all config scope id rest)
      ∙ both (emitted-acceptable scope id cluster (ground arith))
          (emitted_all-acceptable scope id rest (ground arith))
