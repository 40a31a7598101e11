-- ===== src/Pricing/Models.antt =====
-- backend/app/pricing/models.py: the inputs and outputs of the comparison engine. The fields hold
-- what the validators let through: amounts are non-negative whole paise, timestamps are aware.
use Prim.Native.String.{String}
use price_intelligence_india.Base.{
  ℕ, ◌+◌, Bool, false, ◌&&◌, ◌||◌, not, Option, none, some, List, ℤ, is_some, if◌then◌else◌,
}
use price_intelligence_india.Domain.{
  Text, Uuid, Datetime, has_text, AvailabilityStatus, SourceType, ConfidenceLevel, AdjustmentKind,
  AdjustmentEligibility, PriceKind, FreshnessStatus, RankingCriterion, is_promotional, is_fee,
  is_verified_eligible,
}

pub record PriceAdjustment : Type 0 where
  pub kind : AdjustmentKind
  pub amount : Option ℕ
  pub source : String
  pub eligibility : AdjustmentEligibility
  pub observed_at : Option Datetime
  pub confidence : ConfidenceLevel

unfoldable pub affects_effective_price : PriceAdjustment → Bool
affects_effective_price a =
    is_verified_eligible a.eligibility
    && is_some a.amount
    && (is_promotional a.kind || is_fee a.kind)

pub record SellerSnapshot : Type 0 where
  pub seller_id : Option Uuid
  pub name : Option Text
  pub is_first_party : Option Bool
  pub is_active : Option Bool

-- `flag is True`
abbrev pub is_true : Option Bool → Bool
is_true (some b) = b
is_true none = false

abbrev pub is_named : Option Text → Bool
is_named (some name) = has_text name
is_named none = false

unfoldable pub quality_score : SellerSnapshot → ℕ
quality_score s =
    if not (is_some s.seller_id) && not (is_named s.name)
    then 0
    else 1 + (if is_true s.is_active then 1 else 0) + (if is_true s.is_first_party then 2 else 0)

pub record OfferInput : Type 0 where
  pub offer_id : Text
  pub variant_id : Uuid
  pub retailer_id : Uuid
  pub retailer_slug : Text
  pub retailer_name : String
  pub retailer_product_id : Uuid
  pub source_url : Option String
  pub source_type : Option SourceType
  pub observed_at : Option Datetime
  pub currency : String
  pub displayed_price : Option ℕ
  pub mrp : Option ℕ
  pub source_effective_price : Option ℕ
  pub delivery_fee : Option ℕ
  pub platform_fee : Option ℕ
  pub availability : AvailabilityStatus
  pub observation_confidence : Option ConfidenceLevel
  pub seller : SellerSnapshot
  pub promotional_adjustments : List PriceAdjustment

-- `age_seconds` is kept in microseconds.
pub record DataFreshness : Type 0 where
  pub status : FreshnessStatus
  pub as_of : Datetime
  pub observed_at : Option Datetime
  pub age_seconds : Option ℤ
  pub oldest_observation : Option Datetime
  pub newest_observation : Option Datetime
  pub stale_offer_count : ℕ
  pub missing_observation_count : ℕ
  pub offer_count : ℕ

pub record ComparedOffer : Type 0 where
  pub offer_id : Text
  pub variant_id : Uuid
  pub retailer_id : Uuid
  pub retailer_slug : Text
  pub retailer_name : String
  pub retailer_product_id : Uuid
  pub seller : SellerSnapshot
  pub displayed_price : Option ℕ
  pub mrp : Option ℕ
  pub discount_percentage : Option ℕ
  pub coupon_discount : Option ℕ
  pub payment_discount : Option ℕ
  pub cashback : Option ℕ
  pub delivery_fee : Option ℕ
  pub platform_fee : Option ℕ
  pub effective_price : Option ℕ
  pub unverified_estimated_price : Option ℕ
  pub unverified_price_kind : Option PriceKind
  pub source_effective_price : Option ℕ
  pub price_kind : PriceKind
  pub availability : AvailabilityStatus
  pub source_url : Option String
  pub source_type : Option SourceType
  pub observation_timestamp : Option Datetime
  pub confidence : ConfidenceLevel
  pub observation_confidence : Option ConfidenceLevel
  pub freshness : DataFreshness
  pub adjustments : List PriceAdjustment
  pub currency : String
  pub rank : ℕ
  pub is_available : Bool
  pub can_win_verified_ranking : Bool

-- The `reason` sentence, as the case that writes it and the values that it interpolates.
pub data Reason : Type 0 where
  nothing_recorded none_available nothing_priced : Reason
  only_verified only_displayed : Option ℕ → Reason
  lowest_effective : (price other : Option ℕ) → (slug : Text) → Reason
  lowest_displayed : (tied price other : Option ℕ) → Reason
  better_availability : (status other : AvailabilityStatus) → Reason
  better_seller : (score other : ℕ) → Reason
  better_delivery : (fee other : Option ℕ) → Reason
  stable_identity : (slug offer_id : Text) → Reason

pub record RankingExplanation : Type 0 where
  pub criterion : RankingCriterion
  pub reason : Reason
  pub tie_breakers_applied : List RankingCriterion
  pub selected_offer_id : Option Text

pub record VariantComparison : Type 0 where
  pub variant_id : Uuid
  pub variant_key : Option String
  pub offers : List ComparedOffer
  pub lowest_verified_offer : Option ComparedOffer
  pub ranking : RankingExplanation
  pub data_freshness : DataFreshness

pub record ProductComparison : Type 0 where
  pub product_id : Uuid
  pub variants : List VariantComparison
  pub data_freshness : DataFreshness
  pub as_of : Datetime
