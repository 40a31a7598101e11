-- ===== src/Pricing/Effective.antt =====
-- backend/app/pricing/effective.py: the verified effective price and what accompanies it.
pub mod Price
use Prim.Native.String.{String}
use price_intelligence_india.Base.{
  ℕ, zero, suc, min, ◌+◌, ◌-◌, ◌*◌, Bool, true, false, ◌&&◌, ◌||◌, not, Option, none, some, List,
  [], ◌∷◌, foldl, ℤ, pos, negsuc, ◌+ℤ◌, ◌-ℤ◌, is_some, if◌then◌else◌, any, leb, ◌==◌,
}
use price_intelligence_india.Domain.{
  AvailabilityStatus, ConfidenceLevel, high, medium, low, AdjustmentKind, AdjustmentEligibility,
  Datetime, PriceKind, FreshnessStatus, is_promotional, is_fee, is_verified_eligible, is_ineligible,
  is_unavailable, same_kind,
}
use price_intelligence_india.Money.{round_half_up}
use price_intelligence_india.Pricing.Models.{
  PriceAdjustment, affects_effective_price, OfferInput, quality_score,
}

-- In hundredths of a percent.
unfoldable pub displayed_discount_percentage : Option ℕ → Option ℕ → Option ℕ
displayed_discount_percentage (some mrp) (some displayed) =
    if mrp == 0 || leb mrp displayed
    then none
    else some (round_half_up ((mrp - displayed) * 10_000) mrp)
displayed_discount_percentage _ _ = none

-- The place of a level in `_CONFIDENCE_ORDER`, and the level at a place.
abbrev pub level_index : ConfidenceLevel → ℕ
level_index high = 0
level_index medium = 1
level_index low = 2

abbrev pub level_at : ℕ → ConfidenceLevel
level_at zero = high
level_at (suc zero) = medium
level_at (suc (suc _)) = low

-- `steps` levels down, and never below LOW.
unfoldable pub lower_confidence : ConfidenceLevel → ℕ → ConfidenceLevel
lower_confidence current steps = level_at (min (level_index current + steps) 2)

unfoldable pub synthesize_fee_adjustment :
    AdjustmentKind → Option ℕ → Option Datetime → ConfidenceLevel → String → PriceAdjustment
synthesize_fee_adjustment kind none observed_at confidence source = record {
  kind = kind;
  amount = none;
  source = source;
  eligibility = AdjustmentEligibility.unavailable;
  observed_at = observed_at;
  confidence = lower_confidence confidence 1;
}
synthesize_fee_adjustment kind (some amount) observed_at confidence source = record {
  kind = kind;
  amount = some amount;
  source = source;
  eligibility = AdjustmentEligibility.verified_eligible;
  observed_at = observed_at;
  confidence = confidence;
}

abbrev discount_adjustment :
    Option ℕ → AdjustmentEligibility → Option Datetime → ConfidenceLevel → PriceAdjustment
discount_adjustment amount eligibility observed_at confidence = record {
  kind = AdjustmentKind.displayed_discount;
  amount = amount;
  source = "price_snapshot.mrp_vs_displayed";
  eligibility = eligibility;
  observed_at = observed_at;
  confidence = confidence;
}

unfoldable pub synthesize_displayed_discount :
    Option ℕ → Option ℕ → Option Datetime → ConfidenceLevel → PriceAdjustment
synthesize_displayed_discount (some mrp) (some displayed) observed_at confidence =
    if leb mrp displayed
    then discount_adjustment (some 0) AdjustmentEligibility.verified_eligible observed_at confidence
    else discount_adjustment (some (mrp - displayed)) AdjustmentEligibility.verified_eligible
        observed_at confidence
synthesize_displayed_discount _ _ observed_at confidence =
    discount_adjustment none AdjustmentEligibility.unavailable observed_at
      (lower_confidence confidence 1)

-- `observation_confidence or ConfidenceLevel.LOW`
abbrev pub confidence_or_low : Option ConfidenceLevel → ConfidenceLevel
confidence_or_low (some c) = c
confidence_or_low none = low

unfoldable pub collect_offer_adjustments : OfferInput → List PriceAdjustment
unfolding synthesize_displayed_discount synthesize_fee_adjustment
collect_offer_adjustments offer =
    let confidence = confidence_or_low offer.observation_confidence in
    synthesize_displayed_discount offer.mrp offer.displayed_price offer.observed_at confidence
    ∷ synthesize_fee_adjustment AdjustmentKind.delivery_fee offer.delivery_fee offer.observed_at
        confidence "price_snapshot.delivery_fee"
    ∷ synthesize_fee_adjustment AdjustmentKind.platform_fee offer.platform_fee offer.observed_at
        confidence "price_snapshot.platform_fee"
    ∷ offer.promotional_adjustments

-- The amounts of one kind that are recorded.
unfoldable pub amounts_of_kind : AdjustmentKind → List PriceAdjustment → List ℕ
amounts_of_kind kind [] = []
amounts_of_kind kind (a ∷ rest) =
    let others = amounts_of_kind kind rest in
    if same_kind a.kind kind then elim a.amount [ none ↦ others | some n ↦ n ∷ others ] else others

unfoldable pub amount_for_kind : List PriceAdjustment → AdjustmentKind → Option ℕ
unfolding amounts_of_kind
amount_for_kind adjustments kind = elim (amounts_of_kind kind adjustments) [
  | [] ↦ none
  | n ∷ rest ↦ some (foldl ◌+◌ 0 (n ∷ rest))
]

-- One round of the loop of `compute_effective_price`.
unfoldable pub apply_adjustment : Bool → ℤ → PriceAdjustment → ℤ
unfolding affects_effective_price
apply_adjustment include_unverified total a = elim a.amount [
  | none ↦ total
  | some n ↦
      if is_fee a.kind
      then (if include_unverified || affects_effective_price a then total +ℤ pos n else total)
      else if not (is_promotional a.kind)
      then total
      else if include_unverified
      then (if not (is_ineligible a.eligibility) then total -ℤ pos n else total)
      else if affects_effective_price a
      then total -ℤ pos n
      else total
]

-- `Decimal("0.00")` in place of a negative total
abbrev pub at_least_zero : ℤ → ℕ
at_least_zero (pos n) = n
at_least_zero (negsuc _) = 0

unfoldable pub compute_effective_price : Option ℕ → List PriceAdjustment → Bool → Option ℕ
compute_effective_price none adjustments include_unverified = none
compute_effective_price (some displayed_price) adjustments include_unverified =
    some (
      at_least_zero (foldl (apply_adjustment include_unverified) (pos displayed_price) adjustments))

abbrev applied_verified : PriceAdjustment → Bool
applied_verified a = affects_effective_price a && (is_promotional a.kind || is_fee a.kind)

unfoldable pub classify_price_kind : Option ℕ → Option ℕ → List PriceAdjustment → PriceKind
classify_price_kind (some _) (some _) adjustments =
    if any applied_verified adjustments
    then PriceKind.verified_effective
    else PriceKind.displayed_only
classify_price_kind _ _ adjustments = PriceKind.displayed_only

unfoldable pub is_offer_available : AvailabilityStatus → Bool
is_offer_available AvailabilityStatus.in_stock = true
is_offer_available AvailabilityStatus.limited_stock = true
is_offer_available _ = false

unfoldable pub can_win_verified_ranking : Bool → Option ℕ → Option ℕ → Bool
can_win_verified_ranking is_available displayed_price verified_effective =
    is_available && is_some displayed_price && is_some verified_effective

-- A promotion that the offer mentions and that is not known to apply.
abbrev is_unsafe : PriceAdjustment → Bool
is_unsafe a =
    is_promotional a.kind
    && not (is_verified_eligible a.eligibility)
    && not (is_unavailable a.eligibility)

abbrev one_if : Bool → ℕ
one_if b = if b then 1 else 0

abbrev freshness_steps : FreshnessStatus → ℕ
freshness_steps FreshnessStatus.stale = 1
freshness_steps FreshnessStatus.missing = 2
freshness_steps _ = 0

unfoldable pub resolve_offer_confidence :
    OfferInput → List PriceAdjustment → FreshnessStatus → ConfidenceLevel
resolve_offer_confidence offer adjustments freshness_status =
    lower_confidence (confidence_or_low offer.observation_confidence) (
      freshness_steps freshness_status
      + one_if (not (is_some offer.displayed_price))
      + one_if (quality_score offer.seller == 0)
      + one_if (not (is_some offer.delivery_fee))
      + one_if (any is_unsafe adjustments))
