-- ===== src/Pricing/Ranking/Selection.antt =====
-- The winner of `select_lowest_verified` and its explanation.
use price_intelligence_india.Base.{
  ℕ, ℤ, pos, sub_ℕ, ◌&&◌, Option-cases, ltb, ltb_ℤ, ◌⊎◌, ◌++◌, Ordering, compare, ◌<◌, ◌≡◌, Bool,
  true, some, List, ◌∷◌, is_some, ltb→lt, leb_option, ltb_option, inl, inr, arith,
}
use price_intelligence_india.Base.Compare.{
  and_then, is_le, compare_list, compare_ℤ, compare_ℤ-IsComparison,
}
use price_intelligence_india.Domain.{
  RankingCriterion, verified_effective_price, displayed_price, availability, seller_quality,
  delivery, no_applicable_offer,
}
use price_intelligence_india.Pricing.Models.{ComparedOffer, quality_score}
use price_intelligence_india.Pricing.Ranking.{
  price_key, ranks_before, ranking_sort_key, delivery_key, availability_rank, explain_against,
}

-- Whether the first sequence, with `rest` behind it, comes no later than the second.
abbrev in_order : List ℤ → List ℤ → Ordering → Bool
in_order xs ys rest = is_le (and_then (compare_list compare_ℤ xs ys) rest)

in_order-cons :
    (m n : ℤ) (xs ys : List ℤ) (rest : Ordering)
    → in_order (m ∷ xs) (n ∷ ys) rest ≡ true
    → (ltb_ℤ m n ≡ true) ⊎ (m ≡ n) × (in_order xs ys rest ≡ true)
in_order-cons m n xs ys rest h = ground (arith, compare_ℤ-IsComparison.equal m n)

in_order-price :
    (p q : ℕ) (xs ys : List ℤ) (rest : Ordering)
    → in_order (price_key (some p) ++ xs) (price_key (some q) ++ ys) rest ≡ true
    → (ltb p q ≡ true) ⊎ (p ≡ q) × (in_order xs ys rest ≡ true)
in_order-price p q xs ys rest h = ground (arith, in_order-cons (pos p) (pos q) xs ys rest)

-- The offer competes for the verified price, and both of its prices are known.
abbrev pub is_competing : ComparedOffer → Bool
is_competing o =
    o.can_win_verified_ranking && (is_some o.effective_price && is_some o.displayed_price)

-- `w` is better than `next` by the criterion, after ties on the criteria before it; by delivery, the
-- last one, it is better or the same.
abbrev pub Decides : RankingCriterion → ComparedOffer → ComparedOffer → Type 0
Decides verified_effective_price w next = ltb_option w.effective_price next.effective_price ≡ true
Decides displayed_price w next =
    (w.effective_price ≡ next.effective_price)
    × (ltb_option w.displayed_price next.displayed_price ≡ true)
Decides availability w next =
    (w.effective_price ≡ next.effective_price)
    × (w.displayed_price ≡ next.displayed_price)
    × (availability_rank w.availability < availability_rank next.availability)
Decides seller_quality w next =
    (w.effective_price ≡ next.effective_price)
    × (w.displayed_price ≡ next.displayed_price)
    × (availability_rank w.availability ≡ availability_rank next.availability)
    × (quality_score next.seller < quality_score w.seller)
Decides delivery w next =
    (w.effective_price ≡ next.effective_price)
    × (w.displayed_price ≡ next.displayed_price)
    × (availability_rank w.availability ≡ availability_rank next.availability)
    × (quality_score next.seller ≡ quality_score w.seller)
    × (is_le (compare_list compare_ℤ (delivery_key w) (delivery_key next)) ≡ true)
Decides no_applicable_offer w next = ⊥

in_order-tail :
    (m n q r : ℕ) (xs ys : List ℤ) (rest : Ordering)
    → in_order (pos m ∷ sub_ℕ 0 q ∷ xs) (pos n ∷ sub_ℕ 0 r ∷ ys) rest ≡ true
    → (m < n) ⊎ (m ≡ n) × ((r < q) ⊎ (r ≡ q) × (is_le (compare_list compare_ℤ xs ys) ≡ true))
in_order-tail m n q r xs ys rest h = ground (
  arith,
  in_order-cons (pos m) (pos n) (sub_ℕ 0 q ∷ xs) (sub_ℕ 0 r ∷ ys) rest,
  in_order-cons (sub_ℕ 0 q) (sub_ℕ 0 r) xs ys rest,
)

competing_prices :
    (o : ComparedOffer)
    → is_competing o ≡ true
    → (p : ℕ) × (d : ℕ) × (o.effective_price ≡ some p)
      × (o.displayed_price ≡ some d)
      × (o.can_win_verified_ranking ≡ true)
competing_prices o h = elim (Option-cases o.effective_price) [
  | inl e ↦ ground arith
  | inr (p, e) ↦ elim (Option-cases o.displayed_price) [
    | inl f ↦ ground arith
    | inr (d, f) ↦ (p, d, e, f, ground arith)
  ]
]

-- The rest of the key behind the two prices, and the texts behind the numbers.
abbrev tail_key : ComparedOffer → List ℤ
tail_key o =
    pos (availability_rank o.availability) ∷ sub_ℕ 0 (quality_score o.seller) ∷ delivery_key o

abbrev compare_identity : ComparedOffer → ComparedOffer → Ordering
compare_identity a b =
    and_then (compare_list compare a.retailer_slug b.retailer_slug)
      (compare_list compare a.offer_id b.offer_id)

ranks_before-in_order :
    (a b : ComparedOffer) (p d p' d' : ℕ)
    → a.effective_price ≡ some p
    → a.displayed_price ≡ some d
    → a.can_win_verified_ranking ≡ true
    → b.effective_price ≡ some p'
    → b.displayed_price ≡ some d'
    → b.can_win_verified_ranking ≡ true
    → ranks_before a b ≡ true
    → in_order
        (price_key (some p) ++ (price_key (some d) ++ tail_key a))
        (price_key (some p') ++ (price_key (some d') ++ tail_key b))
        (compare_identity a b)
      ≡ true
unfolding ranking_sort_key
ranks_before-in_order a b p d p' d' e f w e' f' w' h = rw (e, f, w, e', f', w') at h

-- What the order of the keys says of two offers with known prices.
in_order-cases :
    (p d p' d' m n q r : ℕ) (xs ys : List ℤ) (rest : Ordering)
    → in_order
        (price_key (some p) ++ (price_key (some d) ++ (pos m ∷ sub_ℕ 0 q ∷ xs)))
        (price_key (some p') ++ (price_key (some d') ++ (pos n ∷ sub_ℕ 0 r ∷ ys)))
        rest
      ≡ true
    → (p < p')
      ⊎ (p ≡ p')
        × ((d < d')
            ⊎ (d ≡ d')
              × ((m < n)
                  ⊎ (m ≡ n) × ((r < q) ⊎ (r ≡ q) × (is_le (compare_list compare_ℤ xs ys) ≡ true))))
in_order-cases p d p' d' m n q r xs ys rest h =
    let first =
      in_order-price p p' (price_key (some d) ++ (pos m ∷ sub_ℕ 0 q ∷ xs))
        (price_key (some d') ++ (pos n ∷ sub_ℕ 0 r ∷ ys)) rest h in
    elim first [
      | inl less ↦ inl (ltb→lt p p' less)
      | inr (same, h') ↦
          let second =
            in_order-price d d' (pos m ∷ sub_ℕ 0 q ∷ xs) (pos n ∷ sub_ℕ 0 r ∷ ys) rest h' in
          elim second [
            | inl less ↦ inr (same, inl (ltb→lt d d' less))
            | inr (same', h'') ↦ inr (same, inr (same', in_order-tail m n q r xs ys rest h''))
          ]
    ]

explain_against-cases :
    (w next : ComparedOffer) (p d p' d' : ℕ)
    → w.effective_price ≡ some p
    → w.displayed_price ≡ some d
    → next.effective_price ≡ some p'
    → next.displayed_price ≡ some d'
    → let m = availability_rank w.availability in
      let n = availability_rank next.availability in
      let q = quality_score w.seller in
      let r = quality_score next.seller in
      let late = is_le (compare_list compare_ℤ (delivery_key w) (delivery_key next)) in
      (p < p')
        ⊎ (p ≡ p')
          × ((d < d') ⊎ (d ≡ d') × ((m < n) ⊎ (m ≡ n) × ((r < q) ⊎ (r ≡ q) × (late ≡ true))))
      → Decides (explain_against w next).0 w next
unfolding explain_against
explain_against-cases w next p d p' d' e f e' f' cases = ground arith

-- On every criterion before the one that the explanation names the winner and the runner-up tie. On
-- that one the winner is strictly better, except for delivery, the last one, which is named also
-- where the two tie on it: there the winner is no worse.
pub explain_against-Decides :
    (w next : ComparedOffer)
    → is_competing w ≡ true
    → is_competing next ≡ true
    → ranks_before w next ≡ true
    → Decides (explain_against w next).0 w next
explain_against-Decides w next cw cn h =
    let (p, d, e, f, c) = competing_prices w cw in
    let (p', d', e', f', c') = competing_prices next cn in
    explain_against-cases w next p d p' d' e f e' f' (
      in_order-cases p d p' d' _ _ _ _ (delivery_key w) (delivery_key next)
        (compare_identity w next) (ranks_before-in_order w next p d p' d' e f c e' f' c' h))

-- Of two competing offers the earlier one has the lower verified price, or the same.
pub leb-of_ranks_before :
    (a b : ComparedOffer)
    → is_competing a ≡ true
    → is_competing b ≡ true
    → ranks_before a b ≡ true
    → leb_option a.effective_price b.effective_price ≡ true
leb-of_ranks_before a b ca cb h =
    let (p, d, e, f, c) = competing_prices a ca in
    let (p', d', e', f', c') = competing_prices b cb in
    let cases =
      in_order-cases p d p' d' (availability_rank a.availability) (availability_rank b.availability)
        (quality_score a.seller) (quality_score b.seller) (delivery_key a) (delivery_key b)
        (compare_identity a b) (ranks_before-in_order a b p d p' d' e f c e' f' c' h) in
    rw (e, e') (ground (arith, cases))
