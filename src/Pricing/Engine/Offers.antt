-- ===== src/Pricing/Engine/Offers.antt =====
-- What `_build_offer` makes of one offer.
use price_intelligence_india.Base.{
  ℕ, zero, suc, ◌+◌, ◌≤◌, ◌≡◌, refl, true, false, ◌&&◌, Option, none, some, List, is_some, all,
  leb_option, ltb_option, arith, min,
}
use price_intelligence_india.Domain.{Datetime, ConfidenceLevel}
use price_intelligence_india.Pricing.Models.{OfferInput, PriceAdjustment}
use price_intelligence_india.Pricing.Effective.{
  collect_offer_adjustments, compute_effective_price, resolve_offer_confidence, level_index,
  level_at, lower_confidence, confidence_or_low,
}
use price_intelligence_india.Pricing.Effective.Price.{is_settled, estimate-le-verified}
use price_intelligence_india.Pricing.Freshness.{FreshnessWindows, offer_freshness}
use price_intelligence_india.Pricing.Engine.{build_offer, estimate_unless}

-- The fees that the snapshot gives are settled, so all are if the caller's adjustments are.
collect-settled :
    (offer : OfferInput)
    → all is_settled offer.promotional_adjustments ≡ true
    → all is_settled (collect_offer_adjustments offer) ≡ true
unfolding collect_offer_adjustments
collect-settled offer h = ground arith

estimate_unless-lt :
    (verified estimated : Option ℕ) (e : ℕ)
    → leb_option estimated verified ≡ true
    → estimate_unless verified estimated ≡ some e
    → ltb_option (some e) verified ≡ true
estimate_unless-lt verified estimated e h k = ground arith

estimate-lt :
    (displayed_price : Option ℕ) (adjustments : List PriceAdjustment) (estimate : ℕ)
    → all is_settled adjustments ≡ true
    → estimate_unless
        (compute_effective_price displayed_price adjustments false)
        (compute_effective_price displayed_price adjustments true)
      ≡ some estimate
    → ltb_option (some estimate) (compute_effective_price displayed_price adjustments false) ≡ true
estimate-lt none adjustments estimate h k = unfold compute_effective_price in cc
estimate-lt (some d) adjustments estimate h k =
    estimate_unless-lt _ _ estimate (estimate-le-verified d adjustments h) k

-- If the caller's adjustments hold no unverified fee, an unverified estimate that is shown is
-- strictly below the verified price, which is then known.
pub build_offer-estimate_lt :
    (config : FreshnessWindows) (as_of : Datetime) (offer : OfferInput) (estimate : ℕ)
    → all is_settled offer.promotional_adjustments ≡ true
    → (build_offer config as_of offer).unverified_estimated_price ≡ some estimate
    → ltb_option (some estimate) (build_offer config as_of offer).effective_price ≡ true
unfolding build_offer
build_offer-estimate_lt config as_of offer estimate h k =
    estimate-lt offer.displayed_price (collect_offer_adjustments offer) estimate
      (collect-settled offer h) k

level_index-level_at : (n : ℕ) → n ≤ 2 → level_index (level_at n) ≡ n
level_index-level_at zero h = refl
level_index-level_at (suc zero) h = refl
level_index-level_at (suc (suc n)) h = omega arith

level_index-lower_confidence :
    (c : ConfidenceLevel) (steps : ℕ)
    → level_index (lower_confidence c steps) ≡ min (level_index c + steps) 2
unfolding lower_confidence
level_index-lower_confidence c steps =
    level_index-level_at (min (level_index c + steps) 2) (omega arith)

level_index-le : (c : ConfidenceLevel) → level_index c ≤ 2
level_index-le c = ground arith

low_of_level_index : (c : ConfidenceLevel) → 2 ≤ level_index c → c ≡ ConfidenceLevel.low
low_of_level_index c h = ground arith

-- The confidence of a compared offer is never above that of its observation, an unrated observation
-- counting as LOW.
pub build_offer-confidence_le :
    (config : FreshnessWindows) (as_of : Datetime) (offer : OfferInput)
    → level_index (confidence_or_low offer.observation_confidence)
      ≤ level_index (build_offer config as_of offer).confidence
unfolding build_offer resolve_offer_confidence
build_offer-confidence_le config as_of offer =
    let base = confidence_or_low offer.observation_confidence in
    grind (arith, level_index-lower_confidence, level_index-le base)

-- An offer whose observation has no rating or no time has LOW confidence.
pub build_offer-confidence_low :
    (config : FreshnessWindows) (as_of : Datetime) (offer : OfferInput)
    → (is_some offer.observation_confidence && is_some offer.observed_at) ≡ false
    → (build_offer config as_of offer).confidence ≡ ConfidenceLevel.low
unfolding build_offer resolve_offer_confidence offer_freshness
build_offer-confidence_low config as_of offer h =
    low_of_level_index _ (grind (arith, level_index-lower_confidence))
