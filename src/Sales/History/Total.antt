-- ===== src/Sales/History/Total.antt =====
-- When the history of a product raises.
use Prim.Native.String.{String}
use mathlib.Core.List.{List, [], ◌∷◌}
use price_intelligence_india.Base.{
  length, ℕ, ℤ, ◌≡◌, refl, Bool, true, false, ◌&&◌, Option, none, some, all, arith, Bool-cases, inl,
  inr, ◌==◌, if◌then◌else◌,
}
use price_intelligence_india.Base.Members.{all-of_filter}
use price_intelligence_india.Base.Sort.{sort_by}
use price_intelligence_india.Base.Distinct.{all-sort_by}
use price_intelligence_india.Domain.{Uuid, Datetime}
use price_intelligence_india.Pricing.History.Points.{qualifying_observations}
use price_intelligence_india.Validation.Outcome.{
  DomainError, SaleEventFault, Validated, ok, raised, bind-ok,
}
use price_intelligence_india.Validation.SaleEvents.{
  Moment, validate_sale_event_dates, require_aware,
}
use price_intelligence_india.Sales.Models.{
  SaleEventRecord, SalePricePoint, EventWindowHistory, VariantSaleHistory, SalesConfig,
  SaleEventView, SaleCalculatedMetric,
}
use price_intelligence_india.Sales.Applicability.{
  event_applies_to_product, applicable_events, observations_during_event,
}
use price_intelligence_india.Sales.History.Metrics.{
  SaleStats, stats_from_points, baseline, percent_below, percent_of, percent_below_baseline, known,
}
use price_intelligence_india.Sales.Lifecycle.{
  instant, view_at, event_status, record_status-ordered, collect, starts_sooner, is_ordered,
}
use price_intelligence_india.Sales.History.Engine.{
  no_events, Points, outside, snapshot_ids, unit_of, gather, variant_history, observations_of,
  qualifying_sale_points, window_of, VariantPoints, compute_variant, compute_product,
}

-- What every element allows, the whole list allows.
collect-total {ℓ κ} :
    {A : Type ℓ} {B : Type κ} (f : A → Validated B) (test : A → Bool)
    → ((a : A) → test a ≡ true → (b : B) × (f a ≡ ok b))
    → (xs : List A) → all test xs ≡ true
    → (ys : List B) × (collect f xs ≡ ok ys)
collect-total f test h [] t = ([], refl)
collect-total f test h (x ∷ xs) t =
    let (y, e) = h x (ground arith) in
    let (ys, es) = collect-total f test h xs (ground arith) in (y ∷ ys, rw (e, es) refl)

view_at-total :
    (event : SaleEventRecord) (now : Datetime)
    → is_ordered event ≡ true
    → (v : SaleEventView) × (view_at event (Moment.aware now) ≡ ok v)
unfolding view_at
view_at-total event now h = bind-ok _ _ _ (record_status-ordered event now h) (_, refl)

-- What a computation raises, if it raises
abbrev pub error_of {ℓ} : {A : Type ℓ} → Validated A → Option DomainError
error_of (ok a) = none
error_of (raised e) = some e

ok-of_no_error {ℓ} : {A : Type ℓ} (v : Validated A) → error_of v ≡ none → (a : A) × (v ≡ ok a)
ok-of_no_error (ok a) h = (a, refl)
ok-of_no_error (raised e) h = cc

-- The guards of the percentage leave no division by zero.
error_of-percent_of :
    (average price : Option ℕ) (sale base : SaleCalculatedMetric ℕ) (as_of : Datetime)
    → error_of (percent_of average price sale base as_of) ≡ none
unfolding percent_of percent_below
error_of-percent_of none price sale base as_of = refl
error_of-percent_of (some average) none sale base as_of = refl
error_of-percent_of (some average) (some price) sale base as_of = elim (Bool-cases (price == 0)) [
  | inl e ↦ rw e refl
  | inr e ↦ rw e refl
]

percent_below_baseline-total :
    (sale base : SaleCalculatedMetric ℕ) (as_of : Datetime)
    → (m : SaleCalculatedMetric ℤ) × (percent_below_baseline sale base as_of ≡ ok m)
unfolding percent_below_baseline
percent_below_baseline-total sale base as_of =
    ok-of_no_error (percent_of (known sale) (known base) sale base as_of)
      (error_of-percent_of (known sale) (known base) sale base as_of)

abbrev pub is_naive : Moment → Bool
is_naive (Moment.aware at) = false
is_naive (Moment.naive at) = true

abbrev pub some_applies : List SaleEventRecord → Bool
some_applies [] = false
some_applies (e ∷ rest) = true

-- What a history raises: the comparison with a clock that has no timezone, if some event applies
abbrev pub expected_error : Moment → List SaleEventRecord → Option DomainError
expected_error now matching =
    if is_naive now && some_applies matching
    then some (DomainError.invalid_sale_event SaleEventFault.naive_comparison)
    else none

view_at-naive :
    (event : SaleEventRecord) (now : Datetime)
    → is_ordered event ≡ true
    → view_at event (Moment.naive now)
      ≡ raised (DomainError.invalid_sale_event SaleEventFault.naive_comparison)
unfolding view_at event_status validate_sale_event_dates require_aware
view_at-naive event now h = ground arith

module _ (config : SalesConfig) where
  window_of-total :
      (qualifying : Points) (points : List SalePricePoint) (as_of : Datetime)
      (event : SaleEventRecord)
      → is_ordered event ≡ true
      → (w : EventWindowHistory) × (window_of config qualifying points (Moment.aware as_of) event
          ≡ ok w)
  unfolding window_of
  window_of-total qualifying points as_of event h =
      let (v, e) = view_at-total event as_of h in
      let min_count = config.min_observations_for_sale_stats in
      let unit = unit_of qualifying in
      let during = observations_during_event event points in
      let (p, q) =
        percent_below_baseline-total (stats_from_points during as_of min_count unit).average
          (baseline (outside (snapshot_ids during) qualifying) as_of min_count unit) as_of in
      bind-ok _ _ v e (bind-ok _ _ p q (_, refl))

  variant_history-total :
      (product_id variant_id : Uuid) (key : Option String) (observed : ℕ) (qualifying : Points)
      (as_of : Datetime) (windows : List EventWindowHistory) (stats : SaleStats) (non_sale : Points)
      → (h : VariantSaleHistory) × (variant_history config product_id variant_id key observed
            qualifying as_of windows stats non_sale
          ≡ ok h)
  unfolding variant_history
  variant_history-total product_id variant_id key observed qualifying as_of windows stats non_sale =
      let base =
        baseline non_sale as_of config.min_observations_for_sale_stats (unit_of qualifying) in
      let (p, q) = percent_below_baseline-total stats.average base as_of in
      bind-ok _ _ p q (_, refl)

  -- Without events the clock is not compared.
  no_events-total :
      (product_id variant_id : Uuid) (points : List SalePricePoint) (key : Option String)
      (clock : Moment)
      → (h : VariantSaleHistory) × (compute_variant config product_id variant_id points [] key clock
          ≡ ok h)
  unfolding compute_variant
  no_events-total product_id variant_id points key clock =
      let qualifying = qualifying_observations (observations_of points) in
      variant_history-total product_id variant_id key (length points) qualifying (instant clock) []
        (no_events config (unit_of qualifying) (instant clock)) qualifying

  pub compute_variant-total :
      (product_id variant_id : Uuid) (points : List SalePricePoint) (events : List SaleEventRecord)
      (key : Option String) (as_of : Datetime)
      → all is_ordered events ≡ true
      → (h : VariantSaleHistory) × (compute_variant config product_id variant_id points events key
            (Moment.aware as_of)
          ≡ ok h)
  unfolding compute_variant
  compute_variant-total product_id variant_id points [] key as_of o =
      no_events-total product_id variant_id points key (Moment.aware as_of)
  compute_variant-total product_id variant_id points (event ∷ events) key as_of o =
      let qualifying = qualifying_observations (observations_of points) in
      let (ws, e) =
        collect-total
          (window_of config qualifying (qualifying_sale_points points) (Moment.aware as_of))
          is_ordered (window_of-total qualifying (qualifying_sale_points points) as_of)
          (sort_by starts_sooner (event ∷ events))
          (all-sort_by starts_sooner is_ordered (event ∷ events) o) in
      let g = gather (qualifying_sale_points points) (sort_by starts_sooner (event ∷ events)) in
      bind-ok _ _ ws e (
        variant_history-total product_id variant_id key (length points) qualifying as_of ws
          (stats_from_points g.in_any_event as_of config.min_observations_for_sale_stats
            (unit_of qualifying))
          (outside g.seen qualifying))

  nothing_tested : (vs : List VariantPoints) → all (λ v. true) vs ≡ true
  nothing_tested [] = refl
  nothing_tested (v ∷ vs) = nothing_tested vs

  applicable-ordered :
      (events : List SaleEventRecord) (brand_id category_id : Option Uuid)
      → all is_ordered events ≡ true
      → all is_ordered (applicable_events events brand_id category_id none) ≡ true
  unfolding applicable_events
  applicable-ordered events brand_id category_id o =
      all-of_filter is_ordered (λ e. event_applies_to_product e brand_id category_id none) events o

  -- The histories of the variants, if each has one
  variants-total :
      (product_id : Uuid) (matching : List SaleEventRecord) (now : Moment)
      → ((v : VariantPoints)
          → (h : VariantSaleHistory) × (compute_variant config product_id v.variant_id v.points
                matching v.variant_key now
              ≡ ok h))
      → (points_by_variant : List VariantPoints)
      → (hs : List VariantSaleHistory) × (collect
            (λ (v : VariantPoints).
              compute_variant config product_id v.variant_id v.points matching v.variant_key now)
            points_by_variant
          ≡ ok hs)
  variants-total product_id matching now each points_by_variant =
      collect-total _ (λ v. true) (λ v t. each v) points_by_variant
        (nothing_tested points_by_variant)

  error_of-product :
      (product_id : Uuid) (points_by_variant : List VariantPoints) (events : List SaleEventRecord)
      (brand_id category_id : Option Uuid) (now : Moment) (matching : List SaleEventRecord)
      → applicable_events events brand_id category_id none ≡ matching
      → all is_ordered matching ≡ true
      → error_of
          (compute_product config product_id points_by_variant events brand_id category_id now)
        ≡ expected_error now matching
  unfolding compute_product
  error_of-product product_id points_by_variant events brand_id category_id now [] e o =
      let (hs, h) =
        variants-total product_id [] now
          (λ v. no_events-total product_id v.variant_id v.points v.variant_key now)
          points_by_variant in
      rw (e, h) (no_error now)
    where
      no_error : (clock : Moment) → none ≡ expected_error clock []
      no_error (Moment.aware at) = refl
      no_error (Moment.naive at) = refl
  error_of-product product_id points_by_variant events brand_id category_id (Moment.aware now)
        (event ∷ rest) e o =
      let (vs, v) =
        collect-total (λ e. view_at e (Moment.aware now)) is_ordered (λ e h. view_at-total e now h)
          (event ∷ rest) o in
      let (hs, h) =
        variants-total product_id (event ∷ rest) (Moment.aware now)
          (λ v.
            compute_variant-total product_id v.variant_id v.points (event ∷ rest) v.variant_key now
              o)
          points_by_variant in
      rw (e, v, h) refl
  error_of-product product_id points_by_variant events brand_id category_id (Moment.naive now)
        (event ∷ rest) e o =
      rw (e, view_at-naive event now (ground arith)) refl

  -- Of events with ordered dates every product has a history, except that the comparison with a clock
  -- without a timezone is raised exactly if some event applies to the product. No percentage divides by
  -- a baseline of zero.
  pub error_of-compute_product :
      (product_id : Uuid) (points_by_variant : List VariantPoints) (events : List SaleEventRecord)
      (brand_id category_id : Option Uuid) (now : Moment)
      → all is_ordered events ≡ true
      → error_of
          (compute_product config product_id points_by_variant events brand_id category_id now)
        ≡ expected_error now (applicable_events events brand_id category_id none)
  error_of-compute_product product_id points_by_variant events brand_id category_id now o =
      error_of-product product_id points_by_variant events brand_id category_id now
        (applicable_events events brand_id category_id none) refl
        (applicable-ordered events brand_id category_id o)
