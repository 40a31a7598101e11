-- ===== src/Pricing/Ranking/Order.antt =====
-- The ranked order: `rank_offers` sorts by a total order, keeps every offer, and does not depend on
-- the order in which the offers came.
use mathlib.Core.List.{Mem, Perm}
use mathlib.Core.List.Perm
use price_intelligence_india.Base.{
  ℕ, ◌+◌, ◌≡◌, refl, ap, ◌∙◌, ◌⊎◌, true, List, [], ◌∷◌, map, length, zero, suc,
}
use price_intelligence_india.Base.Compare.{
  IsComparison, compare-IsComparison, compare_ℤ-IsComparison, compare_list-IsComparison,
  compare_pair-IsComparison, is_le_total, is_le_trans, is_le_antisymm,
}
use price_intelligence_india.Base.Sort.{
  IsSorted, sort_by, sort_by-IsSorted, sort_by-perm, length-sort_by, sort_by-perm_invariant,
}
use price_intelligence_india.Pricing.Models.{ComparedOffer}
use price_intelligence_india.Pricing.Ranking.{
  compare_keys, ranking_sort_key, ranks_before, assign_ranks, rank_offers,
}

keys-IsComparison : IsComparison compare_keys
keys-IsComparison = compare_pair-IsComparison (compare_list-IsComparison compare_ℤ-IsComparison) (
    compare_pair-IsComparison (compare_list-IsComparison compare-IsComparison)
      (compare_list-IsComparison compare-IsComparison))

pub ranks_before_total :
    (a b : ComparedOffer) → (ranks_before a b ≡ true) ⊎ (ranks_before b a ≡ true)
ranks_before_total a b = is_le_total keys-IsComparison (ranking_sort_key a) (ranking_sort_key b)

pub ranks_before_trans :
    (a b c : ComparedOffer)
    → ranks_before a b ≡ true
    → ranks_before b c ≡ true
    → ranks_before a c ≡ true
ranks_before_trans a b c =
    is_le_trans keys-IsComparison (ranking_sort_key a) (ranking_sort_key b) (ranking_sort_key c)

-- Offers that tie have one identity.
offer_id_of_tie :
    (a b : ComparedOffer)
    → ranks_before a b ≡ true
    → ranks_before b a ≡ true
    → a.offer_id ≡ b.offer_id
unfolding ranking_sort_key
offer_id_of_tie a b h k =
    ap (λ key. key.1.1)
      (is_le_antisymm keys-IsComparison (ranking_sort_key a) (ranking_sort_key b) h k)

pub offers_in_order :
    (offers : List ComparedOffer) → IsSorted ranks_before (sort_by ranks_before offers)
offers_in_order = sort_by-IsSorted ranks_before ranks_before_total ranks_before_trans

-- If no two of the offers share an identity, the ranked list is a function of the set of offers:
-- every order of the input gives the same ranking.
pub rank_offers-perm_invariant :
    (offers others : List ComparedOffer)
    → ((a b : ComparedOffer) → Mem a offers → Mem b offers → a.offer_id ≡ b.offer_id → a ≡ b)
    → Perm offers others
    → rank_offers offers ≡ rank_offers others
unfolding rank_offers
rank_offers-perm_invariant offers others distinct p = ap (assign_ranks 1) (
    sort_by-perm_invariant ranks_before ranks_before_total ranks_before_trans offers others
      (λ a b m n h k. distinct a b m n (offer_id_of_tie a b h k)) p)

-- An offer without its place in the ranking.
abbrev pub unranked : ComparedOffer → ComparedOffer
unranked o = record o { rank = 0 }

-- `n` numbers from `index` on.
abbrev pub count_up : ℕ → ℕ → List ℕ
count_up index zero = []
count_up index (suc n) = index ∷ count_up (index + 1) n

unranked-assign_ranks :
    (index : ℕ) (offers : List ComparedOffer)
    → map unranked (assign_ranks index offers) ≡ map unranked offers
unfolding assign_ranks
unranked-assign_ranks index [] = refl
unranked-assign_ranks index (o ∷ rest) =
    ap (◌∷◌ (unranked o)) (unranked-assign_ranks (index + 1) rest)

ranks-assign_ranks :
    (index : ℕ) (offers : List ComparedOffer)
    → map (λ o. o.rank) (assign_ranks index offers) ≡ count_up index (length offers)
unfolding assign_ranks
ranks-assign_ranks index [] = refl
ranks-assign_ranks index (o ∷ rest) = ap (◌∷◌ index) (ranks-assign_ranks (index + 1) rest)

-- The ranked list holds each offer as often as the input does, only its rank is new, and the ranks
-- are 1, 2, 3, … in this order.
pub rank_offers-perm :
    (offers : List ComparedOffer)
    → Perm (map unranked (rank_offers offers)) (map unranked offers)
      × (map (λ o. o.rank) (rank_offers offers) ≡ count_up 1 (length offers))
unfolding rank_offers
rank_offers-perm offers = (
  rw (unranked-assign_ranks 1 (sort_by ranks_before offers))
      (Perm.map unranked (sort_by-perm ranks_before offers)),
  ranks-assign_ranks 1 (sort_by ranks_before offers)
      ∙ ap (count_up 1) (length-sort_by ranks_before offers),
)
