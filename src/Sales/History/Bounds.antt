-- ===== src/Sales/History/Bounds.antt =====
-- The average of a sale lies between its extrema.
use Prim.Native.String.{String}
use mathlib.Core.List.{List, [], ◌∷◌}
use price_intelligence_india.Base.{
  ℕ, ◌*◌, ◌≤◌, ◌≡◌, refl, Bool, true, false, ◌&&◌, Option, none, some, all, length, leb, ltb,
  if◌then◌else◌, arith, Bool-cases, le→leb, inl, inr,
}
use mathlib.Core.Option.{some-injective}
use price_intelligence_india.Domain.{Datetime}
use price_intelligence_india.Money.{round_half_up-le, le-round_half_up}
use price_intelligence_india.Pricing.History.Points.{HistoricalObservationPoint, analysis_price}
use price_intelligence_india.Sales.History.Metrics.{
  total_price, mean, is_cheaper_or_same, min_point, max_point, stats_from_points,
}

abbrev Points : Type 0
Points = List HistoricalObservationPoint

abbrev costs_at_least : ℕ → HistoricalObservationPoint → Bool
costs_at_least low p = leb low (analysis_price p)

abbrev costs_at_most : ℕ → HistoricalObservationPoint → Bool
costs_at_most high p = leb (analysis_price p) high

cheaper-price :
    (a b : HistoricalObservationPoint)
    → is_cheaper_or_same a b ≡ true
    → analysis_price a ≤ analysis_price b
cheaper-price a b h = ground arith

dearer-price :
    (a b : HistoricalObservationPoint)
    → is_cheaper_or_same a b ≡ false
    → analysis_price b ≤ analysis_price a
dearer-price a b h = ground arith

both : (a b : Bool) → a ≡ true → b ≡ true → (a && b) ≡ true
both a b h k = ground arith

abbrev cheaper :
    HistoricalObservationPoint → HistoricalObservationPoint → HistoricalObservationPoint
cheaper best p = if is_cheaper_or_same best p then best else p

abbrev dearer : HistoricalObservationPoint → HistoricalObservationPoint → HistoricalObservationPoint
dearer best p = if is_cheaper_or_same p best then best else p

cheaper-bound :
    (best p : HistoricalObservationPoint)
    → (analysis_price (cheaper best p) ≤ analysis_price best)
      × (analysis_price (cheaper best p) ≤ analysis_price p)
cheaper-bound best p = elim (Bool-cases (is_cheaper_or_same best p)) [
  | inl e ↦ rw e (omega arith, cheaper-price best p e)
  | inr e ↦ rw e (dearer-price best p e, omega arith)
]

dearer-bound :
    (best p : HistoricalObservationPoint)
    → (analysis_price best ≤ analysis_price (dearer best p))
      × (analysis_price p ≤ analysis_price (dearer best p))
dearer-bound best p = elim (Bool-cases (is_cheaper_or_same p best)) [
  | inl e ↦ rw e (omega arith, cheaper-price p best e)
  | inr e ↦ rw e (dearer-price p best e, omega arith)
]

min_point-bound :
    (best : HistoricalObservationPoint) (ps : Points)
    → (analysis_price (min_point best ps) ≤ analysis_price best)
      × (all (costs_at_least (analysis_price (min_point best ps))) ps ≡ true)
unfolding min_point
min_point-bound best [] = (omega arith, refl)
min_point-bound best (p ∷ ps) =
    let (below, rest) = min_point-bound (cheaper best p) ps in
    let (first, second) = cheaper-bound best p in
    (omega (arith, below, first), both _ _ (le→leb _ _ (omega (arith, below, second))) rest)

max_point-bound :
    (best : HistoricalObservationPoint) (ps : Points)
    → (analysis_price best ≤ analysis_price (max_point best ps))
      × (all (costs_at_most (analysis_price (max_point best ps))) ps ≡ true)
unfolding max_point
max_point-bound best [] = (omega arith, refl)
max_point-bound best (p ∷ ps) =
    let (above, rest) = max_point-bound (dearer best p) ps in
    let (first, second) = dearer-bound best p in
    (omega (arith, above, first), both _ _ (le→leb _ _ (omega (arith, above, second))) rest)

total-at_least :
    (low : ℕ) (ps : Points) → all (costs_at_least low) ps ≡ true → low * length ps ≤ total_price ps
total-at_least low [] h = grind arith
total-at_least low (p ∷ ps) h = grind (arith, total-at_least low ps)

total-at_most :
    (high : ℕ) (ps : Points)
    → all (costs_at_most high) ps ≡ true
    → total_price ps ≤ high * length ps
total-at_most high [] h = grind arith
total-at_most high (p ∷ ps) h = grind (arith, total-at_most high ps)

mean-between :
    (p : HistoricalObservationPoint) (ps : Points)
    → (analysis_price (min_point p ps) ≤ mean (p ∷ ps))
      × (mean (p ∷ ps) ≤ analysis_price (max_point p ps))
unfolding mean
mean-between p ps =
    let low = analysis_price (min_point p ps) in
    let high = analysis_price (max_point p ps) in
    let (l, ls) = min_point-bound p ps in
    let (h, hs) = max_point-bound p ps in
    (
      le-round_half_up (total_price (p ∷ ps)) (length (p ∷ ps)) low (omega arith)
          (total-at_least low (p ∷ ps) (ground arith)),
      round_half_up-le (total_price (p ∷ ps)) (length (p ∷ ps)) high (omega arith)
          (total-at_most high (p ∷ ps) (ground arith)),
    )

none≢some : (n : ℕ) → ◌≡◌ {A = Option ℕ} none (some n) → ⊥
none≢some n h = cc

-- The statistics of a sale are known together, and then the average is not below the low and not
-- above the high.
pub stats_from_points-between :
    (points : List HistoricalObservationPoint) (as_of : Datetime) (min_count : ℕ) (unit : String)
    (average : ℕ)
    → (stats_from_points points as_of min_count unit).average.value ≡ some average
    → let stats = stats_from_points points as_of min_count unit in
      (low : ℕ) × (high : ℕ) × (stats.low.value ≡ some low)
      × (stats.high.value ≡ some high)
      × (low ≤ average)
      × (average ≤ high)
unfolding stats_from_points
stats_from_points-between [] as_of min_count unit average e = cc
stats_from_points-between (p ∷ ps) as_of min_count unit average e =
    elim (Bool-cases (ltb (length (p ∷ ps)) min_count)) [
      | inl few ↦ absurd (none≢some average (rw few at e))
      | inr enough ↦
          let same : mean (p ∷ ps) ≡ average = some-injective _ _ (rw enough at e) in
          let (below, above) = mean-between p ps in
          (
            analysis_price (min_point p ps),
            analysis_price (max_point p ps),
            rw enough refl,
            rw enough refl,
            omega (arith, same, below),
            omega (arith, same, above),
          )
    ]
