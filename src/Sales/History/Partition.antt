-- ===== src/Sales/History/Partition.antt =====
-- Every qualifying observation is counted once: in the sales, or in the baseline.
use Prim.Native.String.{String}
use mathlib.Core.List.{List, [], ◌∷◌}
use price_intelligence_india.Base.{
  ℕ, suc, ◌≡◌, refl, ap, sym, ◌∙◌, true, not, Option, filter, length, arith, inl, inr,
}
use price_intelligence_india.Base.Members.{distinct_by}
use price_intelligence_india.Base.Sort.{sort_by}
use price_intelligence_india.Base.Distinct.{filter-same}
use price_intelligence_india.Domain.{Uuid, Datetime}
use price_intelligence_india.Pricing.History.Points.{qualifying_observations}
use price_intelligence_india.Validation.Outcome.{ok, Validated-cases, ok-injective, raised≢ok}
use price_intelligence_india.Validation.SaleEvents.{Moment}
use price_intelligence_india.Sales.Models.{
  EventWindowHistory, SaleEventRecord, SalePricePoint, VariantSaleHistory, SalesConfig,
}
use price_intelligence_india.Sales.Lifecycle.{instant, collect, starts_sooner}
use price_intelligence_india.Sales.History.Metrics.{
  SaleStats, stats_from_points, baseline, percent_below_baseline,
}
use price_intelligence_india.Sales.History.Engine.{
  no_events, Points, observations_of, qualifying_sale_points, gather, outside, window_of,
  variant_history, compute_variant, unit_of,
}
use price_intelligence_india.Sales.History.Counts.{
  is_in_some_window, none_kept, gather-Counted, gather-seen,
}

stats-count :
    (ps : Points) (as_of : Datetime) (min_count : ℕ) (unit : String)
    → (stats_from_points ps as_of min_count unit).average.observation_count ≡ length ps
unfolding stats_from_points
stats-count [] as_of min_count unit = refl
stats-count (p ∷ ps) as_of min_count unit = ground arith

baseline-count :
    (ps : Points) (as_of : Datetime) (min_count : ℕ) (unit : String)
    → (baseline ps as_of min_count unit).observation_count ≡ length ps
unfolding baseline
baseline-count [] as_of min_count unit = refl
baseline-count (p ∷ ps) as_of min_count unit = ground arith

all_kept : (ps : Points) → length ps ≡ length (filter (λ p. true) ps)
all_kept [] = refl
all_kept (p ∷ ps) = ap suc (all_kept ps)

module _ (config : SalesConfig) where
  -- The counts of a history are those of its statistics and of the points outside the sales.
  variant_history-counts :
      (product_id variant_id : Uuid) (key : Option String) (observed : ℕ) (qualifying : Points)
      (as_of : Datetime) (windows : List EventWindowHistory) (stats : SaleStats) (non_sale : Points)
      (h : VariantSaleHistory)
      → variant_history config product_id variant_id key observed qualifying as_of windows stats
          non_sale
        ≡ ok h
      → (h.overall_sale_average.observation_count ≡ stats.average.observation_count)
        × (h.non_sale_baseline.observation_count ≡ length non_sale)
  unfolding variant_history
  variant_history-counts product_id variant_id key observed qualifying as_of windows stats non_sale
        h e =
      let min_count = config.min_observations_for_sale_stats in
      let base = baseline non_sale as_of min_count (unit_of qualifying) in
      elim (Validated-cases (percent_below_baseline stats.average base as_of)) [
        | inl (percent, p) ↦
            let same = ok-injective _ _ (rw p at e) in
            (
              ap (λ (v : VariantSaleHistory). v.overall_sale_average.observation_count) (sym same),
              ap (λ (v : VariantSaleHistory). v.non_sale_baseline.observation_count) (sym same)
                  ∙ baseline-count non_sale as_of min_count (unit_of qualifying),
            )
        | inr (error, p) ↦ absurd (raised≢ok error h (rw p at e))
      ]

  -- If no two observations share a snapshot, the sale statistics count each qualifying observation that
  -- some event's window has, and count it once however many have it; the baseline counts the others.
  pub compute_variant-partition :
      (product_id variant_id : Uuid) (key : Option String) (points : List SalePricePoint)
      (events : List SaleEventRecord) (as_of : Moment) (h : VariantSaleHistory)
      → distinct_by (λ p. p.snapshot_id) (observations_of points) ≡ true
      → compute_variant config product_id variant_id points events key as_of ≡ ok h
      → let in_sale = is_in_some_window events (qualifying_sale_points points) in
        let qualifying = qualifying_observations (observations_of points) in
        (h.overall_sale_average.observation_count ≡ length (filter in_sale qualifying))
        × (h.non_sale_baseline.observation_count
            ≡ length (filter (λ p. not (in_sale p)) qualifying))
  unfolding compute_variant variant_history
  compute_variant-partition product_id variant_id key points [] as_of h d e =
      let qualifying = qualifying_observations (observations_of points) in
      let (sales, others) =
        variant_history-counts product_id variant_id key (length points) qualifying (instant as_of)
          [] (no_events config (unit_of qualifying) (instant as_of)) qualifying h e in
      (sales ∙ none_kept qualifying, others ∙ all_kept qualifying)
  compute_variant-partition product_id variant_id key points (event ∷ events) as_of h d e =
      let qualifying = qualifying_observations (observations_of points) in
      let sale_points = qualifying_sale_points points in
      let sorted = sort_by starts_sooner (event ∷ events) in
      let g = gather sale_points sorted in
      let min_count = config.min_observations_for_sale_stats in
      elim (Validated-cases (collect (window_of config qualifying sale_points as_of) sorted)) [
        | inl (windows, w) ↦
            let (sales, others) =
              variant_history-counts product_id variant_id key (length points) qualifying
                (instant as_of) windows
                (stats_from_points g.in_any_event (instant as_of) min_count (unit_of qualifying))
                (outside g.seen qualifying) h (rw w at e) in
            (
              sales
                  ∙ stats-count g.in_any_event (instant as_of) min_count (unit_of qualifying)
                  ∙ gather-Counted points sorted d
                  ∙ ap length
                      (filter-same _ _ qualifying (gather-seen sale_points (event ∷ events))),
              others
                  ∙ ap length (
                      filter-same _ _ qualifying
                        (λ p. ap not (gather-seen sale_points (event ∷ events) p))),
            )
        | inr (error, w) ↦ absurd (raised≢ok error h (rw w at e))
      ]
