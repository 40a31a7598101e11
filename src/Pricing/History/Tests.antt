-- ===== src/Pricing/History/Tests.antt =====
-- Runs of history.py on sample observations, and its theorems at these inputs.
use mathlib.Core.List.{Mem, mem-cons_self}
use mathlib.Core.List.Perm
use price_intelligence_india.Base.{
  length, sum_of, ◌-◌, suc, ◌+◌, ◌*◌, ◌≤◌, ◌<◌, ◌≡◌, refl, true, false, none, some, pos,
}
use price_intelligence_india.Base.Search.{last_passing}
use price_intelligence_india.Base.Sort.{sort_by}
use price_intelligence_india.Money.{round_half_up}
use price_intelligence_india.Domain.{TrendDirection}
use price_intelligence_india.Pricing.History.Points.{
  analysis_price, comes_before, qualifying_observations,
}
use price_intelligence_india.Pricing.History.Metrics.{
  window_average, historical_low, historical_high, extrema, price_volatility, rounded_root,
  current_price_percentile,
}
use price_intelligence_india.Pricing.History.Changes.{
  baseline_for, percentage_change, detect_price_drop, historical_trend,
}
use price_intelligence_india.Pricing.History.Engine.{compute_variant}
use price_intelligence_india.Pricing.History.Bounds.{window_average-between}
use price_intelligence_india.Pricing.History.Order.{compute_variant-perm_invariant}
use price_intelligence_india.Pricing.History.Deviation.{price_volatility_nearest}
use price_intelligence_india.Pricing.History.Drops.{is_earlier, percentage_change-baseline, drop_of}
use price_intelligence_india.Pricing.History.Samples.{config, now, points, shuffled, high_point}

-- The functions opened, for runs by evaluation.
program : Unit {0}
unfolding compute_variant qualifying_observations sort_by window_average historical_low
    historical_high extrema price_volatility rounded_root last_passing current_price_percentile
    percentage_change baseline_for detect_price_drop historical_trend round_half_up
program = tt

average_of_week : (window_average points 7 now 2 "INR").value ≡ some 95_000
unfolding program
average_of_week = refl

low_of_points : (historical_low points now 1 "INR").metric.value ≡ some 90_000
unfolding program
low_of_points = refl

high_of_points : (historical_high points now 1 "INR").metric.value ≡ some 100_000
unfolding program
high_of_points = refl

volatility_of_points : (price_volatility points now 3 "INR").value ≡ some (suc 4_999)
unfolding program
volatility_of_points = refl

falling_then_rising : (historical_trend points now 3 10_000).direction ≡ TrendDirection.falling
unfolding program
falling_then_rising = refl

root_of_two : rounded_root 2 1 ≡ 1
unfolding program
root_of_two = refl

no_drop : (drop_of points (high_point 3 13 95_000) now).drop_occurred ≡ some false
unfolding program
no_drop = refl

rise : (drop_of points (high_point 3 13 95_000) now).percentage_change ≡ some (pos 55_556)
unfolding program
rise = refl

window_average-between_example : (90_000 ≤ 95_000) × (95_000 ≤ 100_000)
window_average-between_example =
    window_average-between points now "INR" 7 2 1 95_000 90_000 100_000 average_of_week
      low_of_points high_of_points

price_volatility_nearest_example :
    let n = length points in
    let t = sum_of analysis_price points in
    let q = sum_of (λ p. analysis_price p * analysis_price p) points in
    ((2 * 4_999 + 1) * (2 * 4_999 + 1) * (n * (n - 1)) + 4 * (t * t) ≤ 4 * (n * q))
    × (4 * (n * q) < (2 * 4_999 + 3) * (2 * 4_999 + 3) * (n * (n - 1)) + 4 * (t * t))
price_volatility_nearest_example =
    price_volatility_nearest points now "INR" 3 4_999 volatility_of_points refl

compute_variant-perm_invariant_example :
    compute_variant config now 1 2 points none ≡ compute_variant config now 1 2 shuffled none
compute_variant-perm_invariant_example =
    compute_variant-perm_invariant config now 1 2 none points shuffled refl (Perm.swap _ _ _)

baseline :
    (percentage_change (qualifying_observations points) (some (high_point 3 13 95_000)) now).1
    ≡ some (high_point 2 12 90_000)
unfolding program
baseline = refl

sorted : qualifying_observations points ≡ points
unfolding program
sorted = refl

first_inside : Mem (high_point 1 10 100_000) (qualifying_observations points)
first_inside = rw sorted mem-cons_self

percentage_change-baseline_example :
    (is_earlier (high_point 3 13 95_000) (high_point 2 12 90_000) ≡ true)
    × Mem (high_point 2 12 90_000) (qualifying_observations points)
    × (comes_before (high_point 1 10 100_000) (high_point 2 12 90_000) ≡ true)
percentage_change-baseline_example =
    percentage_change-baseline points (high_point 3 13 95_000) now (high_point 2 12 90_000)
      (high_point 1 10 100_000) baseline first_inside refl
