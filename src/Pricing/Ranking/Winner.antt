-- ===== src/Pricing/Ranking/Winner.antt =====
-- The winner of `select_lowest_verified`.
use mathlib.Core.List.{Mem, not-mem-nil, mem-cons}
use mathlib.Core.List.Pairwise
use mathlib.Core.List.Perm
use mathlib.Core.Logic.Or
use mathlib.Core.Bool.{Bool-set, false≢true}
use mathlib.Core.Option.{some-injective}
use price_intelligence_india.Base.{
  ℕ, ◌+◌, ◌≡◌, ◌↔◌, none, refl, sym, ap, ◌∙◌, subst, Bool, true, some, List, [], ◌∷◌,
  filter-cons_true, head?, all, leb_option, Bool-cases, inl, inr, arith, ◌||◌, not,
}
use price_intelligence_india.Base.Members.{all-of_mem, all-of_forall}
use price_intelligence_india.Base.Sort.{IsSorted, sort_by, sort_by-perm, le_of_mem-head}
use price_intelligence_india.Pricing.Models.{ComparedOffer}
use price_intelligence_india.Pricing.Ranking.{
  ranks_before, ranking_sort_key, assign_ranks, rank_offers, eligible_offers,
  select_lowest_verified,
}
use price_intelligence_india.Pricing.Ranking.Order.{offers_in_order, ranks_before_total}
use price_intelligence_india.Pricing.Ranking.Selection.{is_competing, leb-of_ranks_before}

-- The selection is the first competing offer of the list.
pub select-head :
    (ranked : List ComparedOffer)
    → (select_lowest_verified ranked).0 ≡ head? (eligible_offers ranked)
unfolding select_lowest_verified
select-head ranked = ground arith

head?-filter :
    (ranked : List ComparedOffer) (w : ComparedOffer)
    → head? (eligible_offers ranked) ≡ some w
    → w.can_win_verified_ranking ≡ true
head?-filter [] w h = cc
head?-filter (o ∷ rest) w h = elim (Bool-cases o.can_win_verified_ranking) [
  | inl e ↦ ground arith
  | inr e ↦ head?-filter rest w (ground arith)
]

first_eligible :
    (index : ℕ) (sorted : List ComparedOffer) (w o : ComparedOffer)
    → IsSorted ranks_before sorted
    → head? (eligible_offers (assign_ranks index sorted)) ≡ some w
    → Mem o sorted
    → o.can_win_verified_ranking ≡ true
    → ranks_before w o ≡ true
unfolding assign_ranks ranking_sort_key
first_eligible index [] w o s h m c = absurd (not-mem-nil m)
first_eligible index (x ∷ xs) w o s h m c = elim (Bool-cases x.can_win_verified_ranking) [
  | inl e ↦
      let before : ranks_before x o ≡ true = le_of_mem-head ranks_before ranks_before_total o s m in
      let same : record x { rank = index } ≡ w = some-injective _ _ (
        sym (
          ap head? (
            filter-cons_true (λ v. v.can_win_verified_ranking) (record x { rank = index })
              (assign_ranks (index + 1) xs) e))
        ∙ h) in
      subst (λ v. ranks_before v o ≡ true) same before
  | inr e ↦
      Or.elim (Bool-set _ _) (mem-cons.0 m)
        (λ same.
          absurd (false≢true (sym e ∙ (ap (λ v. v.can_win_verified_ranking) (sym same) ∙ c))))
        (λ n. first_eligible (index + 1) xs w o (Pairwise.of_cons s) (rw e at h) n c)
]

-- Every competing offer of the list has its prices.
abbrev pub is_priced : ComparedOffer → Bool
is_priced o = not o.can_win_verified_ranking || is_competing o

-- A test that does not look at the rank.
abbrev pub IgnoresRank : (ComparedOffer → Bool) → Type 0
IgnoresRank p = (o : ComparedOffer) (index : ℕ) → p (record o { rank = index }) ≡ p o

pub all-rank_offers :
    (p : ComparedOffer → Bool) (offers : List ComparedOffer)
    → IgnoresRank p
    → all p (rank_offers offers) ≡ all p (sort_by ranks_before offers)
unfolding rank_offers
all-rank_offers p offers ignores = go 1 (sort_by ranks_before offers)
  where
    go : (index : ℕ) (xs : List ComparedOffer) → all p (assign_ranks index xs) ≡ all p xs
    go index [] = refl
    go index (x ∷ xs) = rw (ignores x index, go (index + 1) xs)

pub all-sort_by :
    (p : ComparedOffer → Bool) (offers : List ComparedOffer)
    → all p offers ≡ true
    → all p (sort_by ranks_before offers) ≡ true
all-sort_by p offers h =
    all-of_forall p (sort_by ranks_before offers)
      (λ o m. all-of_mem p offers o h ((Perm.mem_iff (sort_by-perm ranks_before offers)).0 m))

head?-all :
    (p : ComparedOffer → Bool) (offers : List ComparedOffer) (w : ComparedOffer)
    → all p offers ≡ true
    → head? (eligible_offers offers) ≡ some w
    → p w ≡ true
head?-all p [] w a h = cc
head?-all p (x ∷ xs) w a h = elim (Bool-cases x.can_win_verified_ranking) [
  | inl e ↦ subst (λ v. p v ≡ true) (some-injective _ _ (rw e at h)) (ground arith)
  | inr e ↦ head?-all p xs w (ground arith) (rw e at h)
]

all-sort_by_back :
    (p : ComparedOffer → Bool) (offers : List ComparedOffer)
    → all p (sort_by ranks_before offers) ≡ true
    → all p offers ≡ true
all-sort_by_back p offers h = all-of_forall p offers (λ o m.
    all-of_mem p (sort_by ranks_before offers) o h
      ((Perm.mem_iff (sort_by-perm ranks_before offers)).1 m))

abbrev pub loses : ComparedOffer → Bool
loses o = not o.can_win_verified_ranking

head?-none :
    (ranked : List ComparedOffer)
    → (head? (eligible_offers ranked) ≡ none) ↔ (all loses ranked ≡ true)
head?-none [] = (λ h. refl, λ h. refl)
head?-none (x ∷ xs) =
    let (f, g) = head?-none xs in
    elim (Bool-cases x.can_win_verified_ranking) [
      | inl e ↦ (λ h. absurd (contradiction e h), λ h. absurd (contradiction' e h))
      | inr e ↦ (λ h. rw e (f (rw e at h)), λ h. rw e (g (ground arith)))
    ]
  where
    contradiction : x.can_win_verified_ranking ≡ true → head? (eligible_offers (x ∷ xs)) ≡ none → ⊥
    contradiction e h = ground arith

    contradiction' : x.can_win_verified_ranking ≡ true → all loses (x ∷ xs) ≡ true → ⊥
    contradiction' e h = ground arith

-- Nothing is selected exactly if no offer of the list can win.
pub select-eq-none_iff :
    (offers : List ComparedOffer)
    → ((select_lowest_verified (rank_offers offers)).0 ≡ none) ↔ (all loses offers ≡ true)
select-eq-none_iff offers =
    let (f, g) = head?-none (rank_offers offers) in
    let kept = all-rank_offers loses offers (λ o index. refl) in
    (
      λ h.
          all-sort_by_back loses offers (sym kept ∙ f (sym (select-head (rank_offers offers)) ∙ h)),
      λ h. select-head (rank_offers offers) ∙ g (kept ∙ all-sort_by loses offers h),
    )

module _ (offers : List ComparedOffer) (priced : all is_priced offers ≡ true) (w : ComparedOffer)
    (selected : (select_lowest_verified (rank_offers offers)).0 ≡ some w) where
  winner_first : head? (eligible_offers (rank_offers offers)) ≡ some w
  winner_first = sym (select-head (rank_offers offers)) ∙ selected

  pub winner-can_win : w.can_win_verified_ranking ≡ true
  winner-can_win = head?-filter (rank_offers offers) w winner_first

  -- What holds of every offer of the list, whatever its rank, holds of the selected one.
  pub winner-satisfies :
      (p : ComparedOffer → Bool) → IgnoresRank p → all p offers ≡ true → p w ≡ true
  winner-satisfies p ignores h =
      head?-all p (rank_offers offers) w (all-rank_offers p offers ignores ∙ all-sort_by p offers h)
        winner_first

  winner-is_competing : is_competing w ≡ true
  winner-is_competing =
      let known = winner-satisfies is_priced (λ o index. refl) priced in
      ground (arith, winner-can_win)

  -- No offer of the list that competes has a lower verified price than the selected one.
  pub winner-is_lowest :
      (o : ComparedOffer)
      → Mem o offers
      → o.can_win_verified_ranking ≡ true
      → leb_option w.effective_price o.effective_price ≡ true
  unfolding rank_offers
  winner-is_lowest o m c =
      let known = all-of_mem is_priced offers o priced m in
      leb-of_ranks_before w o winner-is_competing (ground arith) (
        first_eligible 1 (sort_by ranks_before offers) w o (offers_in_order offers) winner_first
          ((Perm.mem_iff (sort_by-perm ranks_before offers)).1 m) c)
