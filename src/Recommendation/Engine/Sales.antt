-- ===== src/Recommendation/Engine/Sales.antt =====
-- Which upcoming sale `select_credible_upcoming` selects.
use mathlib.Core.List.{Mem}
use mathlib.Core.Logic.{◌⊎◌}
use price_intelligence_india.Base.Members.{all-of_mem, mem-filter, all-filter}
use price_intelligence_india.Base.{◌≡◌, true, some, List, filter}
use price_intelligence_india.Base.Compare.{
  compare_list-IsComparison, compare-IsComparison, is_le_total, is_le_trans,
}
use price_intelligence_india.Base.Sort.{sort_by-head, sort_by-mem_head}
use price_intelligence_india.Recommendation.Models.{UpcomingSaleInput, RecommendationConfig}
use price_intelligence_india.Recommendation.Rules.{
  is_credible, sale_key, starts_before, select_credible_upcoming,
}

starts_before_total :
    (a b : UpcomingSaleInput) → (starts_before a b ≡ true) ⊎ (starts_before b a ≡ true)
starts_before_total a b =
    is_le_total (compare_list-IsComparison compare-IsComparison) (sale_key a) (sale_key b)

starts_before_trans :
    (a b c : UpcomingSaleInput)
    → starts_before a b ≡ true
    → starts_before b c ≡ true
    → starts_before a c ≡ true
starts_before_trans a b c h k =
    is_le_trans (compare_list-IsComparison compare-IsComparison) (sale_key a) (sale_key b)
      (sale_key c) h k

module _ (config : RecommendationConfig) (events : List UpcomingSaleInput) where
  -- The selected sale is credible, and no credible sale comes before it.
  pub select_credible_upcoming-first :
      (s e : UpcomingSaleInput)
      → select_credible_upcoming events config ≡ some s
      → Mem e events
      → is_credible config e ≡ true
      → (is_credible config s ≡ true) × (starts_before s e ≡ true)
  unfolding select_credible_upcoming
  select_credible_upcoming-first s e h m c =
      let sales = filter (is_credible config) events in
      let credible = all-filter (is_credible config) events in
      (
        all-of_mem (is_credible config) _ s credible
            (sort_by-mem_head starts_before starts_before_total starts_before_trans sales s h),
        sort_by-head starts_before starts_before_total starts_before_trans sales s e h
            (mem-filter (is_credible config) events e m c),
      )
