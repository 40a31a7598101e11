-- ===== src/Money.antt =====
-- backend/app/pricing/money.py. A `Decimal` amount of money is its number of paise, and a ratio or
-- a percentage its number of ten-thousandths. `ROUND_HALF_UP` acts on a non-negative quotient.
use price_intelligence_india.Base.{ℕ, ◌+◌, ◌*◌, ◌/◌, ◌%◌, ◌≤◌, ◌<◌, if◌then◌else◌, ltb, arith}

-- The whole number nearest to `num / den`; a tie goes up. `quantize_money` and `quantize_ratio` at
-- a quotient that is already scaled to their quantum.
unfoldable pub round_half_up : ℕ → ℕ → ℕ
round_half_up num den = (2 * num + den) / (2 * den)

-- The rounded quotient is within half a unit of the quotient.
pub round_half_up_nearest :
    (num den : ℕ)
    → 0 < den
    → (2 * (round_half_up num den * den) ≤ 2 * num + den)
      × (2 * num < 2 * (round_half_up num den * den) + den)
unfolding round_half_up
round_half_up_nearest num den h = grind arith

-- A quotient of at most `k` rounds to at most `k`.
pub round_half_up-le : (num den k : ℕ) → 0 < den → num ≤ k * den → round_half_up num den ≤ k
round_half_up-le num den k h le = grind (arith, round_half_up_nearest num den h)

-- A quotient of at least `k` rounds to at least `k`.
pub le-round_half_up : (num den k : ℕ) → 0 < den → k * den ≤ num → k ≤ round_half_up num den
le-round_half_up num den k h le = grind (arith, round_half_up_nearest num den h)

-- A larger quotient does not round to less.
pub round_half_up_mono : (a b den : ℕ) → 0 < den → a ≤ b → round_half_up a den ≤ round_half_up b den
round_half_up_mono a b den h le =
    grind (arith, round_half_up_nearest a den h, round_half_up_nearest b den h)

-- `round` of a non-negative quotient: to the nearest whole number, a tie to the even one.
unfoldable pub round_half_even : ℕ → ℕ → ℕ
round_half_even num den =
    if ltb (2 * (num % den)) den
    then num / den
    else if ltb den (2 * (num % den))
    then num / den + 1
    else num / den + (num / den) % 2
