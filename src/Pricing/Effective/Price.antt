-- ===== src/Pricing/Effective/Price.antt =====
-- What `compute_effective_price` computes: the loop against sums that no loop computes.
use price_intelligence_india.Base.{
  ℕ, ◌+◌, ◌-◌, ◌≤◌, ◌≡◌, refl, Bool, true, false, ◌&&◌, ◌||◌, not, Option, none, some, List, [],
  ◌∷◌, foldl, ℤ, pos, pos_part, neg_part, +ℤ_parts, -ℤ_parts, if◌then◌else◌, sum_of, all, is_some,
  arith, leb_option,
}
use price_intelligence_india.Domain.{is_fee, is_promotional, is_ineligible, is_verified_eligible}
use price_intelligence_india.Pricing.Models.{PriceAdjustment}
use price_intelligence_india.Pricing.Effective.{
  apply_adjustment, at_least_zero, compute_effective_price,
}

abbrev amount_or_zero : Option ℕ → ℕ
amount_or_zero none = 0
amount_or_zero (some n) = n

-- What one adjustment adds to a price: a fee, if it is verified or everything counts.
abbrev pub added : Bool → PriceAdjustment → ℕ
added include_unverified a =
    if is_fee a.kind && (include_unverified || is_verified_eligible a.eligibility)
    then amount_or_zero a.amount
    else 0

-- What one adjustment takes off: a promotion that is verified; with `include_unverified`, one that
-- is not known to be ineligible.
abbrev pub taken_off : Bool → PriceAdjustment → ℕ
taken_off include_unverified a =
    if is_promotional a.kind
      && (if include_unverified
          then not (is_ineligible a.eligibility)
          else is_verified_eligible a.eligibility)
    then amount_or_zero a.amount
    else 0

apply_adjustment_parts :
    (include_unverified : Bool) (total : ℤ) (a : PriceAdjustment)
    → pos_part (apply_adjustment include_unverified total a)
        + neg_part total
        + taken_off include_unverified a
      ≡ neg_part (apply_adjustment include_unverified total a)
        + pos_part total
        + added include_unverified a
unfolding apply_adjustment
apply_adjustment_parts include_unverified total a = ground (
  arith,
  +ℤ_parts total (pos (amount_or_zero a.amount)),
  -ℤ_parts total (pos (amount_or_zero a.amount)),
)

foldl-apply_adjustment :
    (include_unverified : Bool) (total : ℤ) (adjustments : List PriceAdjustment)
    → let final = foldl (apply_adjustment include_unverified) total adjustments in
      pos_part final + neg_part total + sum_of (taken_off include_unverified) adjustments
      ≡ neg_part final + pos_part total + sum_of (added include_unverified) adjustments
foldl-apply_adjustment inc total [] = omega arith
foldl-apply_adjustment inc total (a ∷ rest) = omega (
  arith,
  apply_adjustment_parts inc total a,
  foldl-apply_adjustment inc (apply_adjustment inc total a) rest,
)

at_least_zero_lem : (t : ℤ) (x y : ℕ) → pos_part t + y ≡ neg_part t + x → at_least_zero t ≡ x - y
at_least_zero_lem t x y e = ground arith

-- The payable price is the displayed price, plus every fee that counts, less every promotion that
-- counts, and zero where the promotions exceed the rest: for the verified price and for the
-- estimate, whatever the order of the adjustments.
pub compute_effective_price-eq-sums :
    (displayed_price : ℕ) (adjustments : List PriceAdjustment) (include_unverified : Bool)
    → compute_effective_price (some displayed_price) adjustments include_unverified
      ≡ some (
          displayed_price
          + sum_of (added include_unverified) adjustments
          - sum_of (taken_off include_unverified) adjustments)
unfolding compute_effective_price
compute_effective_price-eq-sums d adjustments inc =
    let final = foldl (apply_adjustment inc) (pos d) adjustments in
    let e =
      at_least_zero_lem final (d + sum_of (added inc) adjustments)
        (sum_of (taken_off inc) adjustments)
        (omega (arith, foldl-apply_adjustment inc (pos d) adjustments)) in
    λ i. some (e i)

-- A fee is settled if it is verified or not recorded.
abbrev pub is_settled : PriceAdjustment → Bool
is_settled a = not (is_fee a.kind) || is_verified_eligible a.eligibility || not (is_some a.amount)

added-settled :
    (rest : List PriceAdjustment)
    → all is_settled rest ≡ true
    → sum_of (added true) rest ≡ sum_of (added false) rest
added-settled [] h = refl
added-settled (a ∷ rest) h = ground (arith, added-settled rest)

taken_off-le :
    (rest : List PriceAdjustment) → sum_of (taken_off false) rest ≤ sum_of (taken_off true) rest
taken_off-le [] = omega arith
taken_off-le (a ∷ rest) = ground (arith, taken_off-le rest)

-- Where every recorded fee is verified, the estimate that counts unverified promotions is at most
-- the verified price.
pub estimate-le-verified :
    (displayed_price : ℕ) (adjustments : List PriceAdjustment)
    → all is_settled adjustments ≡ true
    → leb_option
        (compute_effective_price (some displayed_price) adjustments true)
        (compute_effective_price (some displayed_price) adjustments false)
      ≡ true
estimate-le-verified d adjustments h =
    rw
      (
        compute_effective_price-eq-sums d adjustments true,
        compute_effective_price-eq-sums d adjustments false,
      )
      (ground (arith, added-settled adjustments, taken_off-le adjustments))
