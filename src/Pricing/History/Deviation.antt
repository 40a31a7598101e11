-- ===== src/Pricing/History/Deviation.antt =====
-- The rounding of the standard deviation of history.py.
use Prim.Native.String.{String}
use mathlib.Core.Option.{some-injective}
use native.Mathlib.Nat.{le_of_mul-le-mul_left, lt_of_mul-lt-mul_left}
use price_intelligence_india.Pricing.History.Variance.{squared_prices, variance_num-eq}
use price_intelligence_india.Base.{
  zero, ◌-◌, sum_of, Bool-cases, inl, inr, ℕ, suc, ◌+◌, ◌*◌, ◌^◌, ◌≤◌, ◌<◌, ◌≡◌, refl, subst, true,
  false, some, List, length, ltb, arith,
}
use price_intelligence_india.Base.Search.{last_passing-passes}
use price_intelligence_india.Domain.{Datetime}
use price_intelligence_india.Pricing.History.Points.{HistoricalObservationPoint, analysis_price}
use price_intelligence_india.Pricing.History.Metrics.{
  total_price, is_below_root, root_bits, rounded_root, variance_num, variance_den, deviation,
  price_volatility,
}

-- A result `r + 1` passes the test, and `r + 2` does not.
rounded_root-passes :
    (num den r : ℕ)
    → is_below_root num den (2 ^ root_bits) ≡ false
    → rounded_root num den ≡ suc r
    → (is_below_root num den (suc r) ≡ true) × (is_below_root num den (suc r + 1) ≡ false)
unfolding rounded_root
rounded_root-passes num den r far e =
    subst (λ v. (is_below_root num den v ≡ true) × (is_below_root num den (v + 1) ≡ false)) e
      (last_passing-passes (is_below_root num den) root_bits 0 refl far)

add_one : (r : ℕ) → r + 1 ≡ suc r
add_one r = omega arith

next_odd : (r : ℕ) → 2 * suc r + 1 ≡ 2 * r + 3
next_odd r = omega arith

above-root :
    (num den r : ℕ)
    → is_below_root num den (suc r + 1) ≡ false
    → 4 * num < (2 * r + 3) * (2 * r + 3) * den
above-root num den r h =
    let next : is_below_root num den (suc (suc r)) ≡ false =
      subst (λ v. is_below_root num den v ≡ false) (add_one (suc r)) h in
    let beyond : 4 * num < (2 * suc r + 1) * (2 * suc r + 1) * den = ground arith in
    subst (λ v. 4 * num < v * v * den) (next_odd r) beyond

rounded_root_nearest :
    (num den r : ℕ)
    → is_below_root num den (2 ^ root_bits) ≡ false
    → rounded_root num den ≡ suc r
    → ((2 * r + 1) * (2 * r + 1) * den ≤ 4 * num) × (4 * num < (2 * r + 3) * (2 * r + 3) * den)
rounded_root_nearest num den r far e =
    let (passes, fails) = rounded_root-passes num den r far e in
    (ground arith, above-root num den r fails)

no_prices : (b num : ℕ) → 4 * num < b * (0 * 0 * (0 - 1)) → ⊥
no_prices b num h = omega (arith, h)

-- The bounds of the variance, divided by the number of the prices
cancelled :
    (n a b t q num : ℕ)
    → num + n * (t * t) ≡ n * (n * q)
    → a * (n * n * (n - 1)) ≤ 4 * num
    → 4 * num < b * (n * n * (n - 1))
    → (a * (n * (n - 1)) + 4 * (t * t) ≤ 4 * (n * q))
      × (4 * (n * q) < b * (n * (n - 1)) + 4 * (t * t))
cancelled zero a b t q num e low high = absurd (no_prices b num high)
cancelled (suc m) a b t q num e low high = (
  le_of_mul-le-mul_left {k = suc m} (omega (arith, e, low)) (omega arith),
  lt_of_mul-lt-mul_left (suc m) (omega (arith, e, high)),
)

module _ (points : List HistoricalObservationPoint) (as_of : Datetime) (unit : String) where
  volatility-value :
      (min_count v : ℕ)
      → (price_volatility points as_of min_count unit).value ≡ some v
      → deviation points ≡ v
  unfolding price_volatility
  volatility-value min_count v h = elim (Bool-cases (ltb (length points) min_count)) [
    | inl few ↦ cc (rw few at h)
    | inr enough ↦ some-injective _ _ (rw enough at h)
  ]

  -- The volatility that is reported is within half a paisa of the sample standard deviation of the
  -- prices, if it is not zero and the deviation is below 2 ^ 40 paise: of `n` prices with the sum `t`
  -- and the sum of squares `q`, whose deviation has the square `(n * q - t * t) / (n * (n - 1))`.
  pub price_volatility_nearest :
      (min_count v : ℕ)
      → (price_volatility points as_of min_count unit).value ≡ some (suc v)
      → is_below_root (variance_num points) (variance_den points) (2 ^ root_bits) ≡ false
      → let n = length points in
        let t = sum_of analysis_price points in
        let q = sum_of (λ p. analysis_price p * analysis_price p) points in
        ((2 * v + 1) * (2 * v + 1) * (n * (n - 1)) + 4 * (t * t) ≤ 4 * (n * q))
        × (4 * (n * q) < (2 * v + 3) * (2 * v + 3) * (n * (n - 1)) + 4 * (t * t))
  price_volatility_nearest min_count v h far =
      let (low, high) =
        rounded_root_nearest (variance_num points) (variance_den points) v far
          (volatility-value min_count (suc v) h) in
      cancelled (length points) _ _ (total_price points) (squared_prices points)
        (variance_num points) (variance_num-eq points) low high
