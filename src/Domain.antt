-- ===== src/Domain.antt =====
-- backend/app/domain/enums.py and backend/app/pricing/enums.py: the enumerations that several
-- components share, with the membership tests that the code makes on them.
use Prim.Native.Nat.{ℕ}
use mathlib.Core.Bool.{Bool, true, false, ◌||◌}
use mathlib.Core.List.{List}
use price_intelligence_india.Base.{any, leb, not, ◌&&◌, ◌==◌}

-- A string whose characters matter: its code points.
abbrev pub Text : Type 0
Text = List ℕ

-- The code points that `str.strip` removes.
unfoldable pub is_space : ℕ → Bool
is_space c =
    leb 9 c && leb c 13
    || leb 28 c && leb c 32
    || c == 133
    || c == 160
    || c == 5760
    || leb 8192 c && leb c 8202
    || c == 8232
    || c == 8233
    || c == 8239
    || c == 8287
    || c == 12288

-- `bool(text.strip())`
unfoldable pub has_text : Text → Bool
unfolding is_space
has_text = any λ c. not (is_space c)

-- A `uuid.UUID` is the number that it is ordered by; a timezone-aware `datetime` is its distance in
-- microseconds from `datetime.min` in UTC.
abbrev pub Uuid : Type 0
Uuid = ℕ

abbrev pub Datetime : Type 0
Datetime = ℕ

pub data AvailabilityStatus : Type 0 where
  in_stock out_of_stock limited_stock unknown : AvailabilityStatus

pub data SourceType : Type 0 where
  official_api affiliate_feed product_feed other_permitted : SourceType

pub data ConfidenceLevel : Type 0 where
  high medium low : ConfidenceLevel

pub data AdjustmentKind : Type 0 where
  coupon payment_discount cashback delivery_fee platform_fee displayed_discount other :
      AdjustmentKind

pub data AdjustmentEligibility : Type 0 where
  verified_eligible ineligible unverified unavailable membership_only payment_method_specific
        conditional :
      AdjustmentEligibility

pub data PriceKind : Type 0 where
  verified_effective displayed_only estimated_unverified : PriceKind

pub data FreshnessStatus : Type 0 where
  fresh aging stale missing : FreshnessStatus

pub data RankingCriterion : Type 0 where
  verified_effective_price displayed_price availability seller_quality delivery
        no_applicable_offer :
      RankingCriterion

pub data ValueKind : Type 0 where
  observed calculated predicted : ValueKind

pub data MetricStatus : Type 0 where
  available insufficient_history : MetricStatus

pub data InsufficientReasonCode : Type 0 where
  no_qualifying_observations no_observations_in_window below_minimum_observation_count
        no_current_price no_comparison_baseline zero_time_span zero_baseline_price :
      InsufficientReasonCode

pub data TrendDirection : Type 0 where
  rising falling stable insufficient_history : TrendDirection

pub data SaleEventType : Type 0 where
  retailer_specific brand category seasonal national_shopping manually_curated externally_sourced :
      SaleEventType

pub data SaleEventSource : Type 0 where
  manual_curation official_api affiliate_feed product_feed other_permitted
        observed_price_inference :
      SaleEventSource

pub data SaleEventStatus : Type 0 where
  before_event during_event after_event : SaleEventStatus

abbrev pub is_stale : FreshnessStatus → Bool
is_stale FreshnessStatus.stale = true
is_stale _ = false

abbrev pub is_missing : FreshnessStatus → Bool
is_missing FreshnessStatus.missing = true
is_missing _ = false

abbrev pub is_aging : FreshnessStatus → Bool
is_aging FreshnessStatus.aging = true
is_aging _ = false

abbrev pub is_verified_eligible : AdjustmentEligibility → Bool
is_verified_eligible AdjustmentEligibility.verified_eligible = true
is_verified_eligible _ = false

abbrev pub is_ineligible : AdjustmentEligibility → Bool
is_ineligible AdjustmentEligibility.ineligible = true
is_ineligible _ = false

abbrev pub is_unavailable : AdjustmentEligibility → Bool
is_unavailable AdjustmentEligibility.unavailable = true
is_unavailable _ = false

-- The `in` tests of `_PROMOTIONAL_KINDS` and `_FEE_KINDS`.
abbrev pub is_promotional : AdjustmentKind → Bool
is_promotional AdjustmentKind.coupon = true
is_promotional AdjustmentKind.payment_discount = true
is_promotional AdjustmentKind.cashback = true
is_promotional _ = false

abbrev pub is_fee : AdjustmentKind → Bool
is_fee AdjustmentKind.delivery_fee = true
is_fee AdjustmentKind.platform_fee = true
is_fee _ = false

-- `item.kind is kind`
abbrev pub same_kind : AdjustmentKind → AdjustmentKind → Bool
same_kind AdjustmentKind.coupon AdjustmentKind.coupon = true
same_kind AdjustmentKind.payment_discount AdjustmentKind.payment_discount = true
same_kind AdjustmentKind.cashback AdjustmentKind.cashback = true
same_kind AdjustmentKind.delivery_fee AdjustmentKind.delivery_fee = true
same_kind AdjustmentKind.platform_fee AdjustmentKind.platform_fee = true
same_kind AdjustmentKind.displayed_discount AdjustmentKind.displayed_discount = true
same_kind AdjustmentKind.other AdjustmentKind.other = true
same_kind _ _ = false
