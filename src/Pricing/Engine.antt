-- ===== src/Pricing/Engine.antt =====
-- backend/app/pricing/engine.py: `PriceComparisonEngine`. Metrics and log records are left out.
pub mod Offers
pub mod Variants
use Prim.Native.String.{String}
use price_intelligence_india.Base.{
  ℕ, true, false, ◌&&◌, not, Option, none, some, List, map, is_some, eq_option, if◌then◌else◌,
}
use price_intelligence_india.Domain.{Uuid, Datetime, AdjustmentKind, ConfidenceLevel, PriceKind}
use price_intelligence_india.Pricing.Models.{
  OfferInput, ComparedOffer, VariantComparison, ProductComparison,
}
use price_intelligence_india.Pricing.Effective.{
  collect_offer_adjustments, compute_effective_price, classify_price_kind, is_offer_available,
  resolve_offer_confidence, displayed_discount_percentage, amount_for_kind,
  can_win_verified_ranking,
}
use price_intelligence_india.Pricing.Freshness.{
  FreshnessWindows, offer_freshness, aggregate_freshness,
}
use price_intelligence_india.Pricing.Ranking.{rank_offers, select_lowest_verified}

-- `estimated`, which is dropped where it equals the verified price
abbrev pub estimate_unless : Option ℕ → Option ℕ → Option ℕ
estimate_unless verified estimated = if eq_option estimated verified then none else estimated

abbrev estimate_kind : Option ℕ → Option PriceKind
estimate_kind (some _) = some PriceKind.estimated_unverified
estimate_kind none = none

unfoldable pub build_offer : FreshnessWindows → Datetime → OfferInput → ComparedOffer
build_offer config as_of offer =
    let adjustments = collect_offer_adjustments offer in
    let freshness = offer_freshness offer.observed_at as_of config in
    let verified = compute_effective_price offer.displayed_price adjustments false in
    let estimated =
      estimate_unless verified (compute_effective_price offer.displayed_price adjustments true) in
    let available = is_offer_available offer.availability in
    let confidence =
      if not (is_some offer.observation_confidence) && not (is_some offer.observed_at)
      then ConfidenceLevel.low
      else resolve_offer_confidence offer adjustments freshness.status in
    record {
      offer_id = offer.offer_id;
      variant_id = offer.variant_id;
      retailer_id = offer.retailer_id;
      retailer_slug = offer.retailer_slug;
      retailer_name = offer.retailer_name;
      retailer_product_id = offer.retailer_product_id;
      seller = offer.seller;
      displayed_price = offer.displayed_price;
      mrp = offer.mrp;
      discount_percentage = displayed_discount_percentage offer.mrp offer.displayed_price;
      coupon_discount = amount_for_kind adjustments AdjustmentKind.coupon;
      payment_discount = amount_for_kind adjustments AdjustmentKind.payment_discount;
      cashback = amount_for_kind adjustments AdjustmentKind.cashback;
      delivery_fee = offer.delivery_fee;
      platform_fee = offer.platform_fee;
      effective_price = verified;
      unverified_estimated_price = estimated;
      unverified_price_kind = estimate_kind estimated;
      source_effective_price = offer.source_effective_price;
      price_kind = classify_price_kind offer.displayed_price verified adjustments;
      availability = offer.availability;
      source_url = offer.source_url;
      source_type = offer.source_type;
      observation_timestamp = offer.observed_at;
      confidence = confidence;
      observation_confidence = offer.observation_confidence;
      freshness = freshness;
      adjustments = adjustments;
      currency = offer.currency;
      rank = 0;
      is_available = available;
      can_win_verified_ranking = can_win_verified_ranking available offer.displayed_price verified;
    }

-- `as_of` is the caller's, or the engine's clock read once.
unfoldable pub compare_variant :
    FreshnessWindows → Datetime → Uuid → List OfferInput → Option String → VariantComparison
compare_variant config as_of variant_id offers variant_key =
    let ranked = rank_offers (map (build_offer config as_of) offers) in
    let (winner, explanation) = select_lowest_verified ranked in
    record {
      variant_id = variant_id;
      variant_key = variant_key;
      offers = ranked;
      lowest_verified_offer = winner;
      ranking = explanation;
      data_freshness = aggregate_freshness (map (λ o. o.freshness) ranked) as_of;
    }

-- The mapping from variants to offers, in its order, with each variant's key.
unfoldable pub compare_product :
    FreshnessWindows
    → Datetime
    → Uuid
    → List (Uuid × List OfferInput × Option String)
    → ProductComparison
unfolding compare_variant
compare_product config as_of product_id variants =
    let comparisons =
      map (λ (variant_id, offers, key). compare_variant config as_of variant_id offers key)
        variants in
    record {
      product_id = product_id;
      variants = comparisons;
      data_freshness = aggregate_freshness (map (λ c. c.data_freshness) comparisons) as_of;
      as_of = as_of;
    }
