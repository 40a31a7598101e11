-- ===== src/Pricing/Ranking.antt =====
-- backend/app/pricing/ranking.py: the sort key, the ranked order, and the winner's explanation.
pub mod Order
pub mod Selection
pub mod Winner
use price_intelligence_india.Base.{
  ℕ, ◌+◌, Bool, true, false, not, Option, none, some, List, [], ◌∷◌, ◌++◌, ℤ, pos, sub_ℕ,
  if◌then◌else◌, filter, all, eq_option, ◌==◌, compare, Ordering,
}
use price_intelligence_india.Base.Compare.{compare_list, compare_pair, compare_ℤ, is_le, is_eq}
use price_intelligence_india.Base.Sort.{sort_by}
use price_intelligence_india.Domain.{
  Text, AvailabilityStatus, PriceKind, RankingCriterion, verified_effective_price, displayed_price,
  availability, seller_quality, delivery, no_applicable_offer,
}
use price_intelligence_india.Pricing.Models.{
  ComparedOffer, RankingExplanation, Reason, quality_score,
}

abbrev pub availability_rank : AvailabilityStatus → ℕ
availability_rank AvailabilityStatus.in_stock = 0
availability_rank AvailabilityStatus.limited_stock = 1
availability_rank AvailabilityStatus.unknown = 2
availability_rank AvailabilityStatus.out_of_stock = 3

-- `_MAX_MONEY`, in paise
abbrev max_money : ℕ
max_money = 99_999_999_999

-- `(0, price)`, or `(1, _MAX_MONEY)` for a price that is not known
abbrev pub price_key : Option ℕ → List ℤ
price_key (some price) = pos 0 ∷ pos price ∷ []
price_key none = pos 1 ∷ pos max_money ∷ []

abbrev pub verified_rank_price : ComparedOffer → List ℤ
verified_rank_price o = price_key (if o.can_win_verified_ranking then o.effective_price else none)

abbrev pub displayed_rank_price : ComparedOffer → List ℤ
displayed_rank_price o = price_key o.displayed_price

abbrev pub delivery_key : ComparedOffer → List ℤ
delivery_key o = price_key o.delivery_fee

-- The numbers of the key, then the two identities.
abbrev pub SortKey : Type 0
SortKey = List ℤ × (Text × Text)

unfoldable pub ranking_sort_key : ComparedOffer → SortKey
ranking_sort_key o = (
  verified_rank_price o
      ++ (displayed_rank_price o
          ++ (pos (availability_rank o.availability)
              ∷ sub_ℕ 0 (quality_score o.seller)
              ∷ delivery_key o)),
  (o.retailer_slug, o.offer_id),
)

-- Tuples compare place by place, and strings code point by code point.
abbrev pub compare_keys : SortKey → SortKey → Ordering
compare_keys =
    compare_pair (compare_list compare_ℤ)
      (compare_pair (compare_list compare) (compare_list compare))

abbrev pub ranks_before : ComparedOffer → ComparedOffer → Bool
ranks_before a b = is_le (compare_keys (ranking_sort_key a) (ranking_sort_key b))

-- `enumerate(ordered, start=index)` with `model_copy(update={"rank": index})`
unfoldable pub assign_ranks : ℕ → List ComparedOffer → List ComparedOffer
assign_ranks index [] = []
assign_ranks index (o ∷ rest) = record o { rank = index } ∷ assign_ranks (index + 1) rest

unfoldable pub rank_offers : List ComparedOffer → List ComparedOffer
unfolding assign_ranks
rank_offers offers = assign_ranks 1 (sort_by ranks_before offers)

abbrev pub same_text : Text → Text → Bool
same_text a b = is_eq (compare_list compare a b)

abbrev same_availability : AvailabilityStatus → AvailabilityStatus → Bool
same_availability a b = availability_rank a == availability_rank b

abbrev is_verified_kind : PriceKind → Bool
is_verified_kind PriceKind.verified_effective = true
is_verified_kind _ = false

-- The criterion, the tie-breakers before it, and the reason.
abbrev pub Explanation : Type 0
Explanation = RankingCriterion × List RankingCriterion × Reason

unfoldable pub explain_against : ComparedOffer → ComparedOffer → Explanation
explain_against w next =
    if not (eq_option w.effective_price next.effective_price)
    then (
      verified_effective_price,
      [],
      Reason.lowest_effective w.effective_price next.effective_price next.retailer_slug,
    )
    else if not (eq_option w.displayed_price next.displayed_price)
    then (
      displayed_price,
      verified_effective_price ∷ [],
      Reason.lowest_displayed w.effective_price w.displayed_price next.displayed_price,
    )
    else if not (same_availability w.availability next.availability)
    then (
      availability,
      verified_effective_price ∷ displayed_price ∷ [],
      Reason.better_availability w.availability next.availability,
    )
    else if not (quality_score w.seller == quality_score next.seller)
    then (
      seller_quality,
      verified_effective_price ∷ displayed_price ∷ availability ∷ [],
      Reason.better_seller (quality_score w.seller) (quality_score next.seller),
    )
    else (
      delivery,
      verified_effective_price ∷ displayed_price ∷ availability ∷ seller_quality ∷ [],
      if not (is_eq (compare_list compare_ℤ (delivery_key w) (delivery_key next)))
          then Reason.better_delivery w.delivery_fee next.delivery_fee
          else Reason.stable_identity w.retailer_slug w.offer_id,
    )

unfoldable pub explain_selection : ComparedOffer → List ComparedOffer → Explanation
unfolding explain_against
explain_selection w [] =
    if is_verified_kind w.price_kind
    then (verified_effective_price, [], Reason.only_verified w.effective_price)
    else (displayed_price, [], Reason.only_displayed w.displayed_price)
explain_selection w (next ∷ _) = explain_against w next

abbrev pub eligible_offers : List ComparedOffer → List ComparedOffer
eligible_offers = filter λ o. o.can_win_verified_ranking

no_selection_reason : List ComparedOffer → Reason
no_selection_reason [] = Reason.nothing_recorded
no_selection_reason (o ∷ ranked) =
    if all (λ x. not x.is_available) (o ∷ ranked)
    then Reason.none_available
    else Reason.nothing_priced

unfoldable pub select_lowest_verified :
    List ComparedOffer → Option ComparedOffer × RankingExplanation
unfolding explain_selection no_selection_reason
select_lowest_verified ranked = elim (eligible_offers ranked) [
  | [] ↦ (
    none,
    record {
      criterion = no_applicable_offer;
      reason = no_selection_reason ranked;
      tie_breakers_applied = [];
      selected_offer_id = none;
    },
  )
  | w ∷ others ↦
      let runners_up = filter (λ o. not (same_text o.offer_id w.offer_id)) (w ∷ others) in
      let (criterion, tie_breakers, reason) = explain_selection w runners_up in
      (
        some w,
        record {
          criterion = criterion;
          reason = reason;
          tie_breakers_applied = tie_breakers;
          selected_offer_id = some w.offer_id;
        },
      )
]
