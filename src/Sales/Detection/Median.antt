-- ===== src/Sales/Detection/Median.antt =====
-- A median is not below what every number reaches.
use mathlib.Core.List.{List, [], ◌∷◌}
use price_intelligence_india.Base.{
  ℕ, zero, suc, ◌*◌, ◌/◌, ◌-◌, ◌≤◌, ◌<◌, ◌≡◌, true, all, length, leb, arith,
}
use price_intelligence_india.Base.Sort.{sort_by, length-sort_by}
use price_intelligence_india.Base.Distinct.{all-sort_by}
use price_intelligence_india.Sales.History.Metrics.{nth, median_twice}

nth-le : (low : ℕ) (xs : List ℕ) (n : ℕ) → all (leb low) xs ≡ true → n < length xs → low ≤ nth xs n
nth-le low [] n h k = omega (arith, k)
nth-le low (x ∷ xs) zero h k = ground arith
nth-le low (x ∷ xs) (suc n) h k = nth-le low xs n (ground arith) (omega (arith, k))

pub median_twice-le :
    (low : ℕ) (xs : List ℕ) → all (leb low) xs ≡ true → 0 < length xs → 2 * low ≤ median_twice xs
unfolding median_twice
median_twice-le low xs h k =
    let sorted = sort_by leb xs in
    let same = length-sort_by leb xs in
    let bounded = all-sort_by leb (leb low) xs h in
    let half = length xs / 2 in
    let middle = nth-le low sorted half bounded (omega (arith, same, k)) in
    let before = nth-le low sorted (half - 1) bounded (omega (arith, same, k)) in
    ground (arith, middle, before)
