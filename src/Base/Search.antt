-- ===== src/Base/Search.antt =====
-- The last number that passes a test, found bit by bit.
use Prim.Native.Nat.{ℕ, zero, suc, ◌+◌, ◌^◌}
use mathlib.Core.Path.{◌≡◌, subst}
use mathlib.Core.Logic.{inl, inr}
use mathlib.Core.Bool.{Bool, true, false}
use native.Mathlib.Nat.{pow-suc}
use native.Mathlib.Omega.{arith}
use price_intelligence_india.Base.Tests.{if◌then◌else◌, Bool-cases}

doubled : (low bits : ℕ) → low + 2 ^ suc bits ≡ low + 2 ^ bits + 2 ^ bits
doubled low bits = omega (arith, pow-suc 2 bits)

module _ (p : ℕ → Bool) where
  -- The last number from `low` on, below `low + 2 ^ bits`, that passes the test.
  unfoldable pub last_passing : (bits low : ℕ) → ℕ
  last_passing zero low = low
  last_passing (suc bits) low =
      last_passing bits (if p (low + 2 ^ bits) then low + 2 ^ bits else low)

  -- If `low` passes and `low + 2 ^ bits` does not, the result passes and its successor does not.
  pub last_passing-passes :
      (bits low : ℕ)
      → p low ≡ true
      → p (low + 2 ^ bits) ≡ false
      → let r = last_passing bits low in (p r ≡ true) × (p (r + 1) ≡ false)
  unfolding last_passing
  last_passing-passes zero low h k = (h, k)
  last_passing-passes (suc bits) low h k = elim (Bool-cases (p (low + 2 ^ bits))) [
    | inl e ↦ rw e (
        last_passing-passes bits (low + 2 ^ bits) e (subst (λ n. p n ≡ false) (doubled low bits) k))
    | inr e ↦ rw e (last_passing-passes bits low h e)
  ]
