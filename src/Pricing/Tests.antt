-- ===== src/Pricing/Tests.antt =====
-- Sample offers, runs of the pricing engine on them, and its theorems at these inputs.
use mathlib.Core.List.{mem-cons_self}
use mathlib.Core.List.Perm
use price_intelligence_india.Base.{
  ℕ, ◌+◌, ◌-◌, ◌+ℤ◌, ◌-ℤ◌, ◌≡◌, refl, ◌↔◌, true, false, not, Option, none, some, List, [], ◌∷◌, all,
  sum_of, leb_option, arith,
}
use price_intelligence_india.Domain.{
  is_missing, Datetime, has_text, AvailabilityStatus, ConfidenceLevel, AdjustmentKind,
  AdjustmentEligibility, RankingCriterion,
}
use price_intelligence_india.Money.{round_half_up}
use price_intelligence_india.Base.Sort.{sort_by}
use price_intelligence_india.Pricing.Models.{
  PriceAdjustment, affects_effective_price, SellerSnapshot, quality_score, OfferInput,
  ComparedOffer, DataFreshness,
}
use price_intelligence_india.Pricing.Effective.{
  apply_adjustment, collect_offer_adjustments, can_win_verified_ranking, classify_price_kind,
  resolve_offer_confidence, lower_confidence, amount_for_kind, compute_effective_price,
  displayed_discount_percentage, is_offer_available,
}
use price_intelligence_india.Pricing.Effective.Price.{
  added, taken_off, compute_effective_price-eq-sums,
}
use price_intelligence_india.Pricing.Freshness.{
  FreshnessWindows, classify_freshness, offer_freshness, aggregate_freshness, aggregate_status,
}
use price_intelligence_india.Pricing.Freshness.Status.{severity, worst, aggregate_status-worst}
use price_intelligence_india.Pricing.Ranking.{
  rank_offers, explain_against, explain_selection, ranking_sort_key, select_lowest_verified,
  assign_ranks,
}
use price_intelligence_india.Pricing.Ranking.Selection.{explain_against-Decides, Decides}
use price_intelligence_india.Pricing.Engine.{build_offer, compare_variant}
use price_intelligence_india.Pricing.Engine.Variants.{
  is_candidate, compare_variant-lowest, compare_variant-eq-none_iff, compare_variant-perm_invariant,
}

abbrev adjustment : AdjustmentKind → ℕ → AdjustmentEligibility → PriceAdjustment
adjustment kind amount eligibility = record {
  kind = kind;
  amount = some amount;
  source = "sample";
  eligibility = eligibility;
  observed_at = none;
  confidence = ConfidenceLevel.high;
}

abbrev verified_coupon : PriceAdjustment
verified_coupon = adjustment AdjustmentKind.coupon 5_000 AdjustmentEligibility.verified_eligible

abbrev member_cashback : PriceAdjustment
member_cashback = adjustment AdjustmentKind.cashback 2_000 AdjustmentEligibility.membership_only

abbrev paid_delivery : PriceAdjustment
paid_delivery = adjustment AdjustmentKind.delivery_fee 4_000 AdjustmentEligibility.verified_eligible

abbrev basket : List PriceAdjustment
basket = verified_coupon ∷ member_cashback ∷ paid_delivery ∷ []

effective_of_basket :
    (compute_effective_price (some 100_000) basket false ≡ some 99_000)
    × (compute_effective_price (some 100_000) basket true ≡ some 97_000)
    × (compute_effective_price (some 1_000) (verified_coupon ∷ []) false ≡ some 0)
unfolding compute_effective_price apply_adjustment ◌+ℤ◌ ◌-ℤ◌
effective_of_basket = (refl, refl, refl)

discount_of_third : displayed_discount_percentage (some 300) (some 200) ≡ some 3_333
unfolding displayed_discount_percentage round_half_up
discount_of_third = refl

compute_effective_price-eq-sums_example :
    compute_effective_price (some 100_000) basket true
    ≡ some (100_000 + sum_of (added true) basket - sum_of (taken_off true) basket)
compute_effective_price-eq-sums_example = compute_effective_price-eq-sums 100_000 basket true

abbrev windows : FreshnessWindows
windows = record {
  fresh_within = 21_600_000_000;
  stale_after = 86_400_000_000;
  windows_are_ordered = omega arith;
}

abbrev now : Datetime
now = 900_000_000_000

abbrev seller : SellerSnapshot
seller = record {
  seller_id = some 7;
  name = none;
  is_first_party = some true;
  is_active = some true;
}

abbrev offer : ℕ → Option ℕ → AvailabilityStatus → List PriceAdjustment → OfferInput
offer n price availability promotions = record {
  offer_id = n ∷ [];
  variant_id = 1;
  retailer_id = n;
  retailer_slug = 97 ∷ [];
  retailer_name = "A";
  retailer_product_id = n;
  source_url = none;
  source_type = none;
  observed_at = some 890_000_000_000;
  currency = "INR";
  displayed_price = price;
  mrp = some 120_000;
  source_effective_price = none;
  delivery_fee = some 0;
  platform_fee = none;
  availability = availability;
  observation_confidence = some ConfidenceLevel.high;
  seller = seller;
  promotional_adjustments = promotions;
}

abbrev cheap : OfferInput
cheap = offer 1 (some 100_000) AvailabilityStatus.in_stock (verified_coupon ∷ member_cashback ∷ [])

abbrev dear : OfferInput
dear = offer 2 (some 96_000) AvailabilityStatus.limited_stock []

abbrev sold_out : OfferInput
sold_out = offer 3 (some 90_000) AvailabilityStatus.out_of_stock []

abbrev shop : List OfferInput
shop = dear ∷ sold_out ∷ cheap ∷ []

-- The engine opened, for runs by evaluation.
program : Unit {0}
unfolding compare_variant build_offer rank_offers sort_by ranking_sort_key quality_score has_text
    select_lowest_verified explain_selection compute_effective_price apply_adjustment ◌+ℤ◌ ◌-ℤ◌
    collect_offer_adjustments affects_effective_price is_offer_available can_win_verified_ranking
    offer_freshness classify_freshness aggregate_freshness classify_price_kind
    resolve_offer_confidence lower_confidence displayed_discount_percentage round_half_up
    amount_for_kind assign_ranks
program = tt

abbrev winner : ComparedOffer
winner = record (build_offer windows now cheap) { rank = 1 }

lowest_in_shop : (compare_variant windows now 1 shop none).lowest_verified_offer ≡ some winner
unfolding program
lowest_in_shop = refl

shop_criterion :
    (compare_variant windows now 1 shop none).ranking.criterion
    ≡ RankingCriterion.verified_effective_price
unfolding program
shop_criterion = refl

dear-candidate : is_candidate dear ≡ true
unfolding program
dear-candidate = refl

compare_variant-lowest_example :
    (is_offer_available AvailabilityStatus.in_stock ≡ true)
    × (leb_option winner.effective_price (build_offer windows now dear).effective_price ≡ true)
unfolding build_offer
compare_variant-lowest_example =
    compare_variant-lowest windows now 1 shop none winner dear lowest_in_shop mem-cons_self
      dear-candidate

compare_variant-eq-none_iff_example :
    ((compare_variant windows now 1 (sold_out ∷ []) none).lowest_verified_offer ≡ none)
    ↔ (all (λ o. not (is_candidate o)) (sold_out ∷ []) ≡ true)
compare_variant-eq-none_iff_example = compare_variant-eq-none_iff windows now 1 (sold_out ∷ []) none

compare_variant-perm_invariant_example :
    compare_variant windows now 1 shop none
    ≡ compare_variant windows now 1 (sold_out ∷ dear ∷ cheap ∷ []) none
compare_variant-perm_invariant_example =
    compare_variant-perm_invariant windows now 1 shop (sold_out ∷ dear ∷ cheap ∷ []) none refl
      (Perm.swap sold_out dear (cheap ∷ []))

abbrev runner_up : ComparedOffer
runner_up = build_offer windows now dear

explain_against-Decides_example : Decides (explain_against winner runner_up).0 winner runner_up
unfolding program
explain_against-Decides_example = explain_against-Decides winner runner_up refl refl refl

abbrev unrated : OfferInput
unrated = record cheap { observation_confidence = none }

abbrev observed : Datetime → DataFreshness
observed t = offer_freshness (some t) now windows

abbrev never_observed : DataFreshness
never_observed = offer_freshness none now windows

aggregate_status-worst_example :
    let items = observed 890_000_000_000 ∷ never_observed ∷ [] in
    (is_missing (aggregate_status items) ≡ all (λ item. is_missing item.status) items)
    × (severity (aggregate_status items) ≡ worst items)
unfolding offer_freshness
aggregate_status-worst_example =
    aggregate_status-worst (observed 890_000_000_000) (never_observed ∷ []) refl

abbrev variants : List (List DataFreshness)
variants = (observed 890_000_000_000 ∷ never_observed ∷ []) ∷ (observed 800_000_000_000 ∷ []) ∷ []
