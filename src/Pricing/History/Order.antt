-- ===== src/Pricing/History/Order.antt =====
-- What the history of a variant does not depend on: the order in which its observations are given.
use mathlib.Core.List.{Perm}
use mathlib.Core.Logic.{◌⊎◌}
use text.Mathlib.TextEquality.{IsScalar-prop}
use Prim.Native.String.{String}
use price_intelligence_india.Base.{ℕ, ◌≡◌, refl, ap, true, Option, List, ◌∷◌}
use price_intelligence_india.Base.Compare.{
  compare_list-IsComparison, compare-IsComparison, is_le_total, is_le_trans, is_le_antisymm,
}
use price_intelligence_india.Base.Members.{distinct_by, eq_of_distinct}
use price_intelligence_india.Base.Sort.{sort_by-perm_invariant}
use price_intelligence_india.Domain.{Uuid, Datetime}
use price_intelligence_india.Pricing.History.Points.{
  HistoricalObservationPoint, sort_key, comes_before,
}
use price_intelligence_india.Pricing.History.Engine.{HistoryConfig, compute_variant}

HistoricalObservationPoint-set : IsSet HistoricalObservationPoint
HistoricalObservationPoint-set = hlevel (IsScalar-prop)

pub comes_before_total :
    (a b : HistoricalObservationPoint) → (comes_before a b ≡ true) ⊎ (comes_before b a ≡ true)
comes_before_total a b =
    is_le_total (compare_list-IsComparison compare-IsComparison) (sort_key a) (sort_key b)

pub comes_before_trans :
    (a b c : HistoricalObservationPoint)
    → comes_before a b ≡ true
    → comes_before b c ≡ true
    → comes_before a c ≡ true
comes_before_trans a b c h k =
    is_le_trans (compare_list-IsComparison compare-IsComparison) (sort_key a) (sort_key b)
      (sort_key c) h k

snapshot_of : List ℕ → ℕ
snapshot_of (a ∷ b ∷ c ∷ rest) = c
snapshot_of _ = 0

pub same_snapshot :
    (a b : HistoricalObservationPoint)
    → comes_before a b ≡ true
    → comes_before b a ≡ true
    → a.snapshot_id ≡ b.snapshot_id
unfolding snapshot_of
same_snapshot a b h k =
    ap snapshot_of (
      is_le_antisymm (compare_list-IsComparison compare-IsComparison) (sort_key a) (sort_key b) h k)

module _ (config : HistoryConfig) (now : Datetime) where
  -- If no two observations share a snapshot, the history of a variant does not depend on the order in
  -- which they are given.
  pub compute_variant-perm_invariant :
      (product_id variant_id : Uuid) (key : Option String)
      (observations others : List HistoricalObservationPoint)
      → distinct_by (λ p. p.snapshot_id) observations ≡ true
      → Perm observations others
      → compute_variant config now product_id variant_id observations key
        ≡ compute_variant config now product_id variant_id others key
  unfolding compute_variant
  compute_variant-perm_invariant product_id variant_id key observations others distinct p =
      let sorted =
        sort_by-perm_invariant comes_before comes_before_total comes_before_trans observations
          others
          (λ a b m n h k.
            eq_of_distinct (λ p. p.snapshot_id) HistoricalObservationPoint-set observations a b
              distinct m n (same_snapshot a b h k))
          p in
      rw sorted refl
