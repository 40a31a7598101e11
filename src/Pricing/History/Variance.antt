-- ===== src/Pricing/History/Variance.antt =====
-- The sample variance of history.py, by the sum of the squares of the prices.
use price_intelligence_india.Base.{
  ℕ, suc, ◌+◌, ◌-◌, ◌*◌, ◌≡◌, subst, List, [], ◌∷◌, length, sum_of, arith, Bool-cases, leb, inl,
  inr,
}
use price_intelligence_india.Pricing.History.Points.{HistoricalObservationPoint, analysis_price}
use price_intelligence_india.Pricing.History.Metrics.{distance, squares, total_price, variance_num}

apart : (a d : ℕ) → (distance a (a + d) ≡ d) × (distance (a + d) a ≡ d)
apart a d = (omega arith, omega arith)

expanded : (a d : ℕ) → d * d + 2 * (a * (a + d)) ≡ a * a + (a + d) * (a + d)
expanded a d = omega arith

swapped : (a d : ℕ) → d * d + 2 * ((a + d) * a) ≡ (a + d) * (a + d) + a * a
swapped a d = omega arith

distance-square : (a b : ℕ) → distance a b * distance a b + 2 * (a * b) ≡ a * a + b * b
distance-square a b = elim (Bool-cases (leb a b)) [
  | inl e ↦
      let same : a + (b - a) ≡ b = ground arith in
      subst (λ c. distance a c * distance a c + 2 * (a * c) ≡ a * a + c * c) same
        (rw ((apart a (b - a)).0) (expanded a (b - a)))
  | inr e ↦
      let same : b + (a - b) ≡ a = ground arith in
      subst (λ c. distance c b * distance c b + 2 * (c * b) ≡ c * c + b * b) same
        (rw ((apart b (a - b)).1) (swapped b (a - b)))
]

-- The sum of the squares of the prices
abbrev pub squared_prices : List HistoricalObservationPoint → ℕ
squared_prices = sum_of λ p. analysis_price p * analysis_price p

squares_step :
    (n t x d s q m k : ℕ)
    → d + 2 * (n * x * t) ≡ n * x * (n * x) + t * t
    → s + 2 * (n * t) * q ≡ n * n * m + k * (t * t)
    → d + s + 2 * (n * t) * (x + q) ≡ n * n * (x * x + m) + suc k * (t * t)
squares_step n t x d s q m k h g = omega (arith, h, g)

squares-expanded :
    (n t : ℕ) (ps : List HistoricalObservationPoint)
    → squares n t ps + 2 * (n * t) * total_price ps
      ≡ n * n * squared_prices ps + length ps * (t * t)
squares-expanded n t [] = omega arith
squares-expanded n t (p ∷ ps) =
    squares_step n t (analysis_price p) _ (squares n t ps) (total_price ps) (squared_prices ps)
      (length ps) (distance-square (n * analysis_price p) t) (squares-expanded n t ps)

pub variance_num-eq :
    (ps : List HistoricalObservationPoint)
    → variance_num ps + length ps * (total_price ps * total_price ps)
      ≡ length ps * (length ps * squared_prices ps)
variance_num-eq ps = omega (arith, squares-expanded (length ps) (total_price ps) ps)
