-- ===== src/Pricing/History/Drops.antt =====
-- The baseline of a price change, and the price drop that is derived from it.
use mathlib.Core.List.{Mem, Pairwise, not-mem-nil, mem-cons, mem-cons_self, mem-cons_of_mem}
use mathlib.Core.List.Pairwise
use mathlib.Core.Logic.Or
use mathlib.Core.Bool.{Bool-set}
use mathlib.Core.Option.{some-injective}
use price_intelligence_india.Base.{
  ℕ, ◌*◌, ◌≡◌, refl, sym, subst, ◌∙◌, Bool, true, false, ◌&&◌, none, some, List, [], ◌∷◌, ℤ, pos,
  sub_ℕ, leb_ℤ, length, ◌==◌, filter, if◌then◌else◌, ltb, leb, arith, Bool-cases, inl, inr,
  filter-cons_true, filter-cons_false, Option-cases,
}
use price_intelligence_india.Base.Members.{all-of_mem, all-filter, mem-filter, mem-of_filter}
use price_intelligence_india.Base.Sort.{sort_by-IsSorted, IsSorted, le_of_mem-head}
use price_intelligence_india.Domain.{Datetime}
use price_intelligence_india.Pricing.History.Points.{
  PriceDropResult, HistoricalObservationPoint, analysis_price, same_listing, comes_before,
  comes_strictly_before, qualifying_observations,
}
use price_intelligence_india.Pricing.History.Changes.{
  last?, baseline_for, change_percent, percentage_change, detect_price_drop,
}
use price_intelligence_india.Pricing.History.Order.{comes_before_total, comes_before_trans}

abbrev Points : Type 0
Points = List HistoricalObservationPoint

last-mem : (xs : Points) (w : HistoricalObservationPoint) → last? xs ≡ some w → Mem w xs
last-mem [] w h = cc
last-mem (x ∷ []) w h = subst (λ v. Mem v (x ∷ [])) (some-injective _ _ h) mem-cons_self
last-mem (x ∷ y ∷ ys) w h = mem-cons_of_mem x (last-mem (y ∷ ys) w h)

IsSorted-single : (v : HistoricalObservationPoint) → IsSorted comes_before (v ∷ [])
IsSorted-single v = Pairwise.cons (λ b m. absurd (not-mem-nil m)) Pairwise.nil

last-is_last :
    (xs : Points) (w p : HistoricalObservationPoint)
    → IsSorted comes_before xs
    → last? xs ≡ some w
    → Mem p xs
    → comes_before p w ≡ true
last-is_last [] w p s h m = cc
last-is_last (x ∷ []) w p s h m =
    let self = λ (v : HistoricalObservationPoint).
      le_of_mem-head comes_before comes_before_total v (IsSorted-single v) mem-cons_self in
    Or.elim (Bool-set _ _) (mem-cons.0 m)
      (λ same. subst (λ v. comes_before p v ≡ true) (same ∙ some-injective _ _ h) (self p))
      (λ none. absurd (not-mem-nil none))
last-is_last (x ∷ y ∷ ys) w p s h m =
    Or.elim (Bool-set _ _) (mem-cons.0 m)
      (λ first.
        subst (λ v. comes_before v w ≡ true) (sym first)
          (le_of_mem-head comes_before comes_before_total w s
            (mem-cons_of_mem x (last-mem (y ∷ ys) w h))))
      (λ later. last-is_last (y ∷ ys) w p (Pairwise.of_cons s) h later)

IsSorted-filter :
    (q : HistoricalObservationPoint → Bool) (xs : Points)
    → IsSorted comes_before xs
    → IsSorted comes_before (filter q xs)
IsSorted-filter q [] s = s
IsSorted-filter q (x ∷ xs) (Pairwise.cons h s) = elim (Bool-cases (q x)) [
  | inl e ↦
      subst (IsSorted comes_before) (sym (filter-cons_true q x xs e))
        (Pairwise.cons (λ b m. h b (mem-of_filter q xs b m)) (IsSorted-filter q xs s))
  | inr e ↦
      subst (IsSorted comes_before) (sym (filter-cons_false q x xs e)) (IsSorted-filter q xs s)
]

-- An observation before the current one in its own listing.
abbrev pub is_earlier : HistoricalObservationPoint → HistoricalObservationPoint → Bool
is_earlier current p = same_listing p current && comes_strictly_before p current

baseline-of_change :
    (points : Points) (current : HistoricalObservationPoint) (as_of : Datetime)
    → (percentage_change points (some current) as_of).1 ≡ baseline_for current points
unfolding percentage_change
baseline-of_change points current as_of = ground arith

module _ (observations : Points) (current : HistoricalObservationPoint) (as_of : Datetime) where
  -- The baseline of a change is the latest qualifying observation of the same listing and seller that
  -- comes before the current one.
  pub percentage_change-baseline :
      (w p : HistoricalObservationPoint)
      → (percentage_change (qualifying_observations observations) (some current) as_of).1 ≡ some w
      → Mem p (qualifying_observations observations)
      → is_earlier current p ≡ true
      → (is_earlier current w ≡ true)
        × Mem w (qualifying_observations observations)
        × (comes_before p w ≡ true)
  unfolding qualifying_observations baseline_for
  percentage_change-baseline w p h m e =
      let points = qualifying_observations observations in
      let earlier = filter (is_earlier current) points in
      let last : last? earlier ≡ some w = sym (baseline-of_change points current as_of) ∙ h in
      let inside = last-mem earlier w last in
      (
        all-of_mem (is_earlier current) earlier w (all-filter (is_earlier current) points) inside,
        mem-of_filter (is_earlier current) points w inside,
        last-is_last earlier w p
            (IsSorted-filter (is_earlier current) points
              (sort_by-IsSorted comes_before comes_before_total comes_before_trans _))
            last (mem-filter (is_earlier current) points p m e),
      )

below : (n : ℕ) → leb_ℤ (sub_ℕ 0 n) (pos 0) ≡ true
below n = ground arith

above : (n : ℕ) → leb_ℤ (pos 0) (pos n) ≡ true
above n = ground arith

-- The percentage is negative, or zero, for a price below the baseline's, and not negative otherwise.
change_percent-sign :
    (c b : ℕ)
    → (if ltb c b then leb_ℤ (change_percent c b) (pos 0) else leb_ℤ (pos 0) (change_percent c b))
      ≡ true
change_percent-sign c b = elim (Bool-cases (ltb c b)) [
  | inl e ↦
      let more : leb (b * 1_000_000) (c * 1_000_000) ≡ false = ground arith in
      rw (e, more) (below _)
  | inr e ↦
      let less : leb (b * 1_000_000) (c * 1_000_000) ≡ true = ground arith in rw (e, less) (above _)
]

-- What `compute_variant` reports of a drop.
abbrev pub drop_of :
    List HistoricalObservationPoint → HistoricalObservationPoint → Datetime → PriceDropResult
drop_of points current as_of =
    let change = percentage_change points (some current) as_of in
    detect_price_drop (some current) change.1 change.0 as_of (length points)

-- The drop with no baseline, and with one.
module _ (points : Points) (current : HistoricalObservationPoint) (as_of : Datetime) where
  drop_of-none :
      baseline_for current points ≡ none → (drop_of points current as_of).drop_occurred ≡ none
  unfolding percentage_change detect_price_drop
  drop_of-none e = rw e

  drop_of-some :
      (b : HistoricalObservationPoint) (drop : Bool)
      → baseline_for current points ≡ some b
      → (drop_of points current as_of).drop_occurred ≡ some drop
      → (drop ≡ ltb (analysis_price current) (analysis_price b))
        × ((drop_of points current as_of).percentage_change
            ≡ some (change_percent (analysis_price current) (analysis_price b)))
  unfolding percentage_change detect_price_drop
  drop_of-some b drop e = elim (Bool-cases (analysis_price b == 0)) [
    | inl z ↦ rw (e, z) (λ h. cc)
    | inr z ↦ rw (e, z) (λ h. (sym (some-injective _ _ h), refl))
  ]

  -- Where a drop is known to have occurred or not, the percentage reported beside it is at most zero
  -- for a drop, and at least zero otherwise.
  pub detect_price_drop-sign :
      (drop : Bool) (percent : ℤ)
      → (drop_of points current as_of).drop_occurred ≡ some drop
      → (drop_of points current as_of).percentage_change ≡ some percent
      → (if drop then leb_ℤ percent (pos 0) else leb_ℤ (pos 0) percent) ≡ true
  detect_price_drop-sign drop percent h k = elim (Option-cases (baseline_for current points)) [
    | inl e ↦ cc (drop_of-none e)
    | inr (b, e) ↦
        let found = drop_of-some b drop e h in
        let value : percent ≡ change_percent (analysis_price current) (analysis_price b) =
          some-injective _ _ (sym k ∙ found.1) in
        rw (found.0, value) (change_percent-sign (analysis_price current) (analysis_price b))
  ]
