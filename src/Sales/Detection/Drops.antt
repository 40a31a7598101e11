-- ===== src/Sales/Detection/Drops.antt =====
-- The discounted observations of detection.py: prices well below the median of the earlier ones of
-- their listing.
use price_intelligence_india.Base.{
  ℕ, ◌+◌, ◌-◌, ◌*◌, Bool, ◌&&◌, not, Option, List, [], ◌∷◌, ◌++◌, foldl, compare, leb, ◌==◌,
  eq_option, if◌then◌else◌,
}
use price_intelligence_india.Base.Compare.{compare_list, is_le}
use price_intelligence_india.Base.Sort.{sort_by}
use price_intelligence_india.Domain.{Uuid}
use price_intelligence_india.Money.{round_half_up}
use price_intelligence_india.Pricing.History.Points.{
  HistoricalObservationPoint, analysis_price, comes_before,
}
use price_intelligence_india.Sales.Models.{SalesConfig}
use price_intelligence_india.Sales.History.Metrics.{median_twice}

-- A `defaultdict(list)` with its keys in the order of their first use
module _ {ℓ κ} {K : Type ℓ} {A : Type κ} (same : K → K → Bool) where
  -- `grouped[key].append(item)`
  unfoldable pub append_to : K → A → List (K × List A) → List (K × List A)
  append_to key item [] = (key, item ∷ []) ∷ []
  append_to key item ((k, items) ∷ rest) =
      let later = append_to key item rest in
      if same k key then (k, items ++ item ∷ []) ∷ rest else (k, items) ∷ later

-- `_listing_key`
abbrev pub ListingKey : Type 0
ListingKey = Uuid × Option Uuid

abbrev pub listing_key : HistoricalObservationPoint → ListingKey
listing_key point = (point.retailer_product_id, point.seller_id)

abbrev pub same_key : ListingKey → ListingKey → Bool
same_key (product, seller) (product', seller') = product == product' && eq_option seller seller'

-- A discounted observation and its drop, in ten-thousandths of a percent
abbrev pub Drop : Type 0
Drop = HistoricalObservationPoint × ℕ

-- `drop >= threshold`, where `baseline` is twice the median
abbrev pub is_discounted : (threshold baseline price : ℕ) → Bool
is_discounted threshold baseline price =
    not (baseline == 0) && leb (threshold * baseline + 2 * price * 1_000_000) (baseline * 1_000_000)

-- `quantize_ratio(_drop_percent(baseline, price))` of a price that is not above the baseline
abbrev pub drop_percent : (baseline price : ℕ) → ℕ
drop_percent baseline price = round_half_up ((baseline - 2 * price) * 1_000_000) baseline

-- The loop over the series of a listing
unfoldable pub series_drops :
    (threshold : ℕ) (prior : List ℕ) → List HistoricalObservationPoint → List Drop
unfolding median_twice
series_drops threshold prior [] = []
series_drops threshold [] (point ∷ rest) = series_drops threshold (analysis_price point ∷ []) rest
series_drops threshold (p ∷ ps) (point ∷ rest) =
    let baseline = median_twice (p ∷ ps) in
    let price = analysis_price point in
    let later = series_drops threshold ((p ∷ ps) ++ price ∷ []) rest in
    if is_discounted threshold baseline price
    then (point, drop_percent baseline price) ∷ later
    else later

-- `(point.observed_at, point.snapshot_id)`
abbrev pub drop_key : Drop → List ℕ
drop_key (point, drop) = point.observed_at ∷ point.snapshot_id ∷ []

abbrev pub drop_order : Drop → Drop → Bool
drop_order a b = is_le (compare_list compare (drop_key a) (drop_key b))

abbrev pub Series : Type 0
Series = ListingKey × List HistoricalObservationPoint

unfoldable pub grouped : List HistoricalObservationPoint → List Series
unfolding append_to
grouped = foldl (λ groups point. append_to same_key (listing_key point) point groups) []

unfoldable pub drops_of_series : (threshold : ℕ) → List Series → List Drop
unfolding series_drops
drops_of_series threshold [] = []
drops_of_series threshold ((key, series) ∷ rest) =
    series_drops threshold [] (sort_by comes_before series) ++ drops_of_series threshold rest

-- `SaleEventDetector._discounted_observations`
unfoldable pub discounted_observations : SalesConfig → List HistoricalObservationPoint → List Drop
unfolding grouped drops_of_series
discounted_observations config points =
    sort_by drop_order (drops_of_series config.drop_percent_threshold (grouped points))
