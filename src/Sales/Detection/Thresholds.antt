-- ===== src/Sales/Detection/Thresholds.antt =====
-- The discounted observations reach the threshold.
use mathlib.Core.List.{List, [], ◌∷◌, ◌++◌}
use price_intelligence_india.Base.{
  ℕ, ◌-◌, ◌*◌, ◌≡◌, refl, ◌∙◌, Bool, true, all, all-append, leb, arith, Bool-cases, inl, inr,
}
use price_intelligence_india.Base.Sort.{sort_by}
use price_intelligence_india.Base.Distinct.{all-sort_by}
use price_intelligence_india.Money.{le-round_half_up}
use price_intelligence_india.Pricing.History.Points.{
  HistoricalObservationPoint, analysis_price, comes_before,
}
use price_intelligence_india.Sales.Models.{SalesConfig}
use price_intelligence_india.Sales.History.Metrics.{median_twice}
use price_intelligence_india.Sales.Detection.Drops.{
  Drop, is_discounted, series_drops, drop_order, Series, drops_of_series, discounted_observations,
  grouped,
}
use price_intelligence_india.Sales.Detection.Windows.{drop_of}

abbrev pub reaches : ℕ → Drop → Bool
reaches low d = leb low (drop_of d)

-- The drops that are found reach the threshold.
series_drops-reaches :
    (t : ℕ) (prior : List ℕ) (series : List HistoricalObservationPoint)
    → all (reaches t) (series_drops t prior series) ≡ true
unfolding series_drops
series_drops-reaches t prior [] = refl
series_drops-reaches t [] (p ∷ rest) = series_drops-reaches t (analysis_price p ∷ []) rest
series_drops-reaches t (q ∷ qs) (p ∷ rest) =
    let ih = series_drops-reaches t ((q ∷ qs) ++ analysis_price p ∷ []) rest in
    let baseline = median_twice (q ∷ qs) in
    elim (Bool-cases (is_discounted t baseline (analysis_price p))) [
      | inl e ↦
          let found =
            le-round_half_up ((baseline - 2 * analysis_price p) * 1_000_000) baseline t
              (ground arith) (ground arith) in
          rw e (ground (arith, ih, found))
      | inr e ↦ rw e ih
    ]

drops_of_series-reaches :
    (t : ℕ) (groups : List Series) → all (reaches t) (drops_of_series t groups) ≡ true
unfolding drops_of_series
drops_of_series-reaches t [] = refl
drops_of_series-reaches t ((key, series) ∷ rest) =
    all-append (reaches t) (series_drops t [] (sort_by comes_before series))
      (drops_of_series t rest)
    ∙ ground (
      arith,
      series_drops-reaches t [] (sort_by comes_before series),
      drops_of_series-reaches t rest,
    )

pub discounted-reaches :
    (config : SalesConfig) (points : List HistoricalObservationPoint)
    → all (reaches config.drop_percent_threshold) (discounted_observations config points) ≡ true
unfolding discounted_observations
discounted-reaches config points =
    all-sort_by drop_order (reaches config.drop_percent_threshold)
      (drops_of_series config.drop_percent_threshold (grouped points))
      (drops_of_series-reaches config.drop_percent_threshold (grouped points))
