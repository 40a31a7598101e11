-- ===== src/Pricing/History/Bounds.antt =====
-- An average lies between the extrema, and a percentile within its scale.
use Prim.Native.String.{String}
use mathlib.Core.List.Perm
use mathlib.Core.Bool.{false≢true}
use price_intelligence_india.Base.{
  ℕ, ◌*◌, ◌≤◌, ◌<◌, min, max, ◌≡◌, refl, sym, ap, ◌∙◌, Bool, true, false, ◌||◌, Option, none, some,
  List, [], ◌∷◌, filter, all, any, length, foldl, head?, if◌then◌else◌, leb, ◌==◌, arith, inl, inr,
  Option-cases,
}
use price_intelligence_india.Base.Members.{all-of_mem, all-filter, all-of_filter, mem-of_head}
use price_intelligence_india.Base.Sort.{sort_by, sort_by-perm, length-sort_by}
use price_intelligence_india.Domain.{Datetime}
use price_intelligence_india.Money.{round_half_up, round_half_up-le, le-round_half_up}
use price_intelligence_india.Pricing.History.Points.{
  HistoricalObservationPoint, analysis_price, comes_before, window_points, is_in_window,
}
use price_intelligence_india.Pricing.History.Metrics.{
  window_average, total_price, lowest, highest, earliest, extrema, historical_low, historical_high,
}

abbrev Points : Type 0
Points = List HistoricalObservationPoint

abbrev is_above : ℕ → HistoricalObservationPoint → Bool
is_above low p = leb low (analysis_price p)

abbrev is_under : ℕ → HistoricalObservationPoint → Bool
is_under high p = leb (analysis_price p) high

abbrev fold_low : ℕ → Points → ℕ
fold_low = foldl λ low p. min low (analysis_price p)

abbrev fold_high : ℕ → Points → ℕ
fold_high = foldl λ high p. max high (analysis_price p)

is_above_mono :
    (a b : ℕ) (ps : Points) → a ≤ b → all (is_above b) ps ≡ true → all (is_above a) ps ≡ true
is_above_mono a b [] h e = refl
is_above_mono a b (p ∷ ps) h e = ground (arith, is_above_mono a b ps h)

fold_low-bound :
    (low : ℕ) (ps : Points) → (fold_low low ps ≤ low) × (all (is_above (fold_low low ps)) ps ≡ true)
fold_low-bound low [] = (omega arith, refl)
fold_low-bound low (p ∷ ps) = ground (arith, fold_low-bound (min low (analysis_price p)) ps)

fold_high-bound :
    (high : ℕ) (ps : Points)
    → (high ≤ fold_high high ps) × (all (is_under (fold_high high ps)) ps ≡ true)
fold_high-bound high [] = (omega arith, refl)
fold_high-bound high (p ∷ ps) = ground (arith, fold_high-bound (max high (analysis_price p)) ps)

lowest-bound : (ps : Points) → all (is_above (lowest ps)) ps ≡ true
lowest-bound [] = refl
lowest-bound (p ∷ ps) = ground (arith, fold_low-bound (analysis_price p) ps)

highest-bound : (ps : Points) → all (is_under (highest ps)) ps ≡ true
highest-bound [] = refl
highest-bound (p ∷ ps) = ground (arith, fold_high-bound (analysis_price p) ps)

total-above :
    (low : ℕ) (ps : Points) → all (is_above low) ps ≡ true → low * length ps ≤ total_price ps
total-above low [] h = grind arith
total-above low (p ∷ ps) h = grind (arith, total-above low ps)

total-under :
    (high : ℕ) (ps : Points) → all (is_under high) ps ≡ true → total_price ps ≤ high * length ps
total-under high [] h = grind arith
total-under high (p ∷ ps) h = grind (arith, total-under high ps)

-- The highest price is one of the prices.
fold_high-attained :
    (high : ℕ) (ps : Points)
    → ((fold_high high ps == high) || any (λ p. analysis_price p == fold_high high ps) ps) ≡ true
fold_high-attained high [] = ground arith
fold_high-attained high (p ∷ ps) =
    ground (arith, fold_high-attained (max high (analysis_price p)) ps)

highest-attained :
    (p : HistoricalObservationPoint) (ps : Points)
    → any (λ q. analysis_price q == highest (p ∷ ps)) (p ∷ ps) ≡ true
highest-attained p ps = ground (arith, fold_high-attained (analysis_price p) ps)

earliest-satisfies :
    (q : HistoricalObservationPoint → Bool) (ps : Points) (w : HistoricalObservationPoint)
    → earliest (filter q ps) ≡ some w
    → q w ≡ true
earliest-satisfies q ps w h =
    all-of_mem q (filter q ps) w (all-filter q ps)
      ((Perm.mem_iff (sort_by-perm comes_before (filter q ps))).0 (mem-of_head _ w h))

any-of_filter :
    (q : HistoricalObservationPoint → Bool) (ps : Points)
    → length (filter q ps) ≡ 0
    → any q ps ≡ false
any-of_filter q [] h = refl
any-of_filter q (p ∷ ps) h = ground (arith, any-of_filter q ps)

length-of_head : (ps : Points) → head? ps ≡ none → length ps ≡ 0
length-of_head [] h = refl
length-of_head (p ∷ ps) h = cc

earliest-none :
    (q : HistoricalObservationPoint → Bool) (ps : Points)
    → earliest (filter q ps) ≡ none
    → any q ps ≡ false
earliest-none q ps h = any-of_filter q ps (
    sym (length-sort_by comes_before (filter q ps))
    ∙ length-of_head (sort_by comes_before (filter q ps)) h)

==→eq : (a b : ℕ) → (a == b) ≡ true → a ≡ b
==→eq a b h = ground arith

abbrev price_or_zero : Option HistoricalObservationPoint → ℕ
price_or_zero none = 0
price_or_zero (some w) = analysis_price w

abbrev target : Bool → Points → ℕ
target pick_high ps = if pick_high then highest ps else lowest ps

extrema-value :
    (pick_high : Bool) (ps : Points) (as_of : Datetime) (min_count : ℕ) (unit : String) (v : ℕ)
    → (extrema pick_high ps as_of min_count unit).metric.value ≡ some v
    → (v ≡ price_or_zero (earliest (filter (λ p. analysis_price p == target pick_high ps) ps)))
      × (0 < length ps)
unfolding extrema
extrema-value pick_high ps as_of min_count unit v h = ground arith

-- A low that is reported is the lowest price at most.
low-value :
    (ps : Points) (as_of : Datetime) (min_count : ℕ) (unit : String) (low : ℕ)
    → (historical_low ps as_of min_count unit).metric.value ≡ some low
    → low ≤ lowest ps
unfolding historical_low
low-value ps as_of min_count unit low h =
    let (e, nonempty) = extrema-value false ps as_of min_count unit low h in
    let pick = λ (p : HistoricalObservationPoint). analysis_price p == lowest ps in
    elim (Option-cases (earliest (filter pick ps))) [
      | inl n ↦ omega (arith, e ∙ ap price_or_zero n)
      | inr (w, n) ↦ omega (
        arith,
        e ∙ ap price_or_zero n,
        ==→eq (analysis_price w) (lowest ps) (earliest-satisfies pick ps w n),
      )
    ]

-- A high that is reported is the highest price.
high-value :
    (ps : Points) (as_of : Datetime) (min_count : ℕ) (unit : String) (high : ℕ)
    → (historical_high ps as_of min_count unit).metric.value ≡ some high
    → high ≡ highest ps
unfolding historical_high
high-value [] as_of min_count unit high h =
    let (e, nonempty) = extrema-value true [] as_of min_count unit high h in omega (arith, nonempty)
high-value (p ∷ ps) as_of min_count unit high h =
    let (e, nonempty) = extrema-value true (p ∷ ps) as_of min_count unit high h in
    let pick = λ (q : HistoricalObservationPoint). analysis_price q == highest (p ∷ ps) in
    elim (Option-cases (earliest (filter pick (p ∷ ps)))) [
      | inl n ↦ absurd (false≢true (sym (earliest-none pick (p ∷ ps) n) ∙ highest-attained p ps))
      | inr (w, n) ↦
          e
          ∙ ap price_or_zero n
          ∙ ==→eq (analysis_price w) (highest (p ∷ ps)) (earliest-satisfies pick (p ∷ ps) w n)
    ]

average-value :
    (ps : Points) (days : ℕ) (as_of : Datetime) (min_count : ℕ) (unit : String) (mean : ℕ)
    → (window_average ps days as_of min_count unit).value ≡ some mean
    → (mean
        ≡ round_half_up
            (total_price (window_points ps as_of days))
            (length (window_points ps as_of days)))
      × (0 < length (window_points ps as_of days))
unfolding window_average
average-value ps days as_of min_count unit mean h = ground arith

module _ (points : Points) (as_of : Datetime) (unit : String) where
  -- A window average, where there is one, is between the historical low and the historical high,
  -- where there are these.
  pub window_average-between :
      (days min_average min_extrema mean low high : ℕ)
      → (window_average points days as_of min_average unit).value ≡ some mean
      → (historical_low points as_of min_extrema unit).metric.value ≡ some low
      → (historical_high points as_of min_extrema unit).metric.value ≡ some high
      → (low ≤ mean) × (mean ≤ high)
  window_average-between days min_average min_extrema mean low high a l h =
      let inside = window_points points as_of days in
      let (e, nonempty) = average-value points days as_of min_average unit mean a in
      let below = low-value points as_of min_extrema unit low l in
      let top = high-value points as_of min_extrema unit high h in
      let above = total-above (lowest points) inside (
        all-of_filter (is_above (lowest points)) (is_in_window as_of days) points
          (lowest-bound points)) in
      let under = total-under (highest points) inside (
        all-of_filter (is_under (highest points)) (is_in_window as_of days) points
          (highest-bound points)) in
      (
        omega (
          arith,
          e,
          below,
          le-round_half_up (total_price inside) (length inside) (lowest points) nonempty above,
        ),
        omega (
          arith,
          e,
          top,
          round_half_up-le (total_price inside) (length inside) (highest points) nonempty under,
        ),
      )
