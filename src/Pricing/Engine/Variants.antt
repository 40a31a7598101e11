-- ===== src/Pricing/Engine/Variants.antt =====
-- What `compare_variant` and `compare_product` promise of a whole comparison.
use Prim.Native.String.{String}
use mathlib.Core.List.{Mem, Perm, mem-map_of_mem, mem-cons, not-mem-nil, exists_of_mem-map}
use mathlib.Core.List.Perm
use mathlib.Core.Logic.Or
use mathlib.Core.Logic.{∥∥₁_elim}
use text.Mathlib.TextEquality.{IsScalar-prop}
use price_intelligence_india.Base.{
  ◌≡◌, refl, sym, ap, ap₂, ◌∙◌, ◌↔◌, Bool, true, ◌&&◌, not, Option, none, some, List, [], ◌∷◌, map,
  all, is_some, leb_option, if◌then◌else◌, arith,
}
use price_intelligence_india.Base.Members.{all-of_mem}
use price_intelligence_india.Base.Compare.{compare_list-IsComparison, compare-IsComparison}
use price_intelligence_india.Pricing.Ranking.{same_text}
use price_intelligence_india.Domain.{Uuid, Datetime, Text}
use price_intelligence_india.Pricing.Models.{OfferInput, ComparedOffer}
use price_intelligence_india.Pricing.Effective.{
  is_offer_available, can_win_verified_ranking, compute_effective_price,
}
use price_intelligence_india.Pricing.Freshness.{FreshnessWindows}
use price_intelligence_india.Pricing.Ranking.Order.{rank_offers-perm_invariant}
use price_intelligence_india.Pricing.Ranking.Winner.{
  is_priced, winner-is_lowest, winner-satisfies, winner-can_win, loses, select-eq-none_iff,
}
use price_intelligence_india.Pricing.Engine.{build_offer, compare_variant}

-- An offer that may be bought, at a price that was observed.
abbrev pub is_candidate : OfferInput → Bool
is_candidate o = is_offer_available o.availability && is_some o.displayed_price

-- An offer that wins is on sale.
abbrev wins_on_sale : ComparedOffer → Bool
wins_on_sale o = if o.can_win_verified_ranking then is_offer_available o.availability else true

ComparedOffer-set : IsSet ComparedOffer
ComparedOffer-set = hlevel (IsScalar-prop)

OfferInput-set : IsSet OfferInput
OfferInput-set = hlevel (IsScalar-prop)

-- No two of the offers have one `offer_id`.
abbrev pub distinct_ids : List OfferInput → Bool
distinct_ids [] = true
distinct_ids (o ∷ rest) = all (λ x. not (same_text o.offer_id x.offer_id)) rest && distinct_ids rest

same_text_of_eq : (s t : Text) → s ≡ t → same_text s t ≡ true
same_text_of_eq s t e = ground (arith, (compare_list-IsComparison compare-IsComparison).reflexive s)

ids_differ :
    (o x : OfferInput) (rest : List OfferInput)
    → distinct_ids (o ∷ rest) ≡ true
    → Mem x rest
    → o.offer_id ≡ x.offer_id
    → ⊥
ids_differ o x rest d m same =
    let other = all-of_mem (λ x. not (same_text o.offer_id x.offer_id)) rest x (ground arith) m in
    ground (arith, same_text_of_eq o.offer_id x.offer_id)

eq_of_same_id :
    (offers : List OfferInput) (a b : OfferInput)
    → distinct_ids offers ≡ true
    → Mem a offers
    → Mem b offers
    → a.offer_id ≡ b.offer_id
    → a ≡ b
eq_of_same_id [] a b d m n same = absurd (not-mem-nil m)
eq_of_same_id (o ∷ rest) a b d m n same =
    let id = λ (x : OfferInput). x.offer_id in
    Or.elim (OfferInput-set a b) (mem-cons.0 m)
      (λ ea.
        Or.elim (OfferInput-set a b) (mem-cons.0 n) (λ eb. ea ∙ sym eb)
          (λ later. absurd (ids_differ o b rest d later (sym (ap id ea) ∙ same))))
      (λ later.
        Or.elim (OfferInput-set a b) (mem-cons.0 n)
          (λ eb. absurd (ids_differ o a rest d later (sym (ap id eb) ∙ sym same)))
          (λ later'. eq_of_same_id rest a b (ground arith) later later' same))

module _ (config : FreshnessWindows) (as_of : Datetime) where
  build_offer-is_priced : (o : OfferInput) → is_priced (build_offer config as_of o) ≡ true
  unfolding build_offer can_win_verified_ranking
  build_offer-is_priced o = ground arith

  build_offer-wins_on_sale : (o : OfferInput) → wins_on_sale (build_offer config as_of o) ≡ true
  unfolding build_offer can_win_verified_ranking
  build_offer-wins_on_sale o = ground arith

  build_offer-can_win :
      (o : OfferInput) → (build_offer config as_of o).can_win_verified_ranking ≡ is_candidate o
  unfolding build_offer can_win_verified_ranking compute_effective_price
  build_offer-can_win o = ground arith

  all-build_offer :
      (p : ComparedOffer → Bool)
      → ((o : OfferInput) → p (build_offer config as_of o) ≡ true)
      → (offers : List OfferInput) → all p (map (build_offer config as_of) offers) ≡ true
  all-build_offer p h [] = refl
  all-build_offer p h (o ∷ rest) = rw (h o) (all-build_offer p h rest)

  module _ (variant_id : Uuid) (offers : List OfferInput) (key : Option String) where
    -- The offer that a comparison selects is on sale, and no offer that is on sale at a known price
    -- has a lower verified price.
    pub compare_variant-lowest :
        (w : ComparedOffer) (o : OfferInput)
        → (compare_variant config as_of variant_id offers key).lowest_verified_offer ≡ some w
        → Mem o offers
        → is_candidate o ≡ true
        → (is_offer_available w.availability ≡ true)
          × (leb_option w.effective_price (build_offer config as_of o).effective_price ≡ true)
    unfolding compare_variant
    compare_variant-lowest w o selected m c =
        let built = map (build_offer config as_of) offers in
        let priced = all-build_offer is_priced build_offer-is_priced offers in
        let on_sale =
          winner-satisfies built priced w selected wins_on_sale (λ o index. refl)
            (all-build_offer wins_on_sale build_offer-wins_on_sale offers) in
        let wins = winner-can_win built priced w selected in
        (
          ground arith,
          winner-is_lowest built priced w selected (build_offer config as_of o)
              (mem-map_of_mem (build_offer config as_of) m) (build_offer-can_win o ∙ c),
        )

    all-loses-built :
        (rest : List OfferInput)
        → all loses (map (build_offer config as_of) rest) ≡ all (λ o. not (is_candidate o)) rest
    all-loses-built [] = refl
    all-loses-built (o ∷ rest) =
        ap₂ (λ (a b : Bool). a && b) (ap not (build_offer-can_win o)) (all-loses-built rest)

    -- A comparison selects nothing exactly if no offer is on sale at a known price.
    pub compare_variant-eq-none_iff :
        ((compare_variant config as_of variant_id offers key).lowest_verified_offer ≡ none)
        ↔ (all (λ o. not (is_candidate o)) offers ≡ true)
    unfolding compare_variant
    compare_variant-eq-none_iff =
        let (f, g) = select-eq-none_iff (map (build_offer config as_of) offers) in
        let same = all-loses-built offers in (λ h. sym same ∙ f h, λ h. g (same ∙ h))

  -- If no two offers share an identity, the comparison does not depend on their order.
  pub compare_variant-perm_invariant :
      (variant_id : Uuid) (offers others : List OfferInput) (key : Option String)
      → distinct_ids offers ≡ true
      → Perm offers others
      → compare_variant config as_of variant_id offers key
        ≡ compare_variant config as_of variant_id others key
  unfolding compare_variant build_offer
  compare_variant-perm_invariant variant_id offers others key distinct p =
      let build = build_offer config as_of in
      let ranked =
        rank_offers-perm_invariant (map build offers) (map build others)
          (λ a b m n same. ∥∥₁_elim (exists_of_mem-map m) (ComparedOffer-set a b) λ (x, mx, ex).
            ∥∥₁_elim (exists_of_mem-map n) (ComparedOffer-set a b) λ (y, my, ey).
              let ids = ap (λ o. o.offer_id) ex ∙ (same ∙ sym (ap (λ o. o.offer_id) ey)) in
              sym ex ∙ (ap build (eq_of_same_id offers x y distinct mx my ids) ∙ ey))
          (Perm.map build p) in
      rw ranked
