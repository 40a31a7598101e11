-- ===== src/Base/Prices.antt =====
-- Optional amounts: `None` is an amount that nobody observed, and is never read as zero.
use Prim.Native.Nat.{ℕ}
use mathlib.Core.Bool.{Bool, false}
use mathlib.Core.Option.{Option, some}
use price_intelligence_india.Base.Tests.{leb, ltb}

-- Both amounts are known, and the first is at most (below) the second.
abbrev pub leb_option : Option ℕ → Option ℕ → Bool
leb_option (some a) (some b) = leb a b
leb_option _ _ = false

abbrev pub ltb_option : Option ℕ → Option ℕ → Bool
ltb_option (some a) (some b) = ltb a b
ltb_option _ _ = false
