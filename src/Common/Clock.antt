-- ===== src/Common/Clock.antt =====
-- Differences of timestamps. A timestamp is a number of microseconds; a clock may be set back, so a
-- difference is an integer (`negsuc n` is -(n + 1)).
use Prim.Native.Nat.{ℕ, zero, suc, ◌-◌, ◌/◌}
use mathlib.Core.Bool.{Bool, false}
use merlya.Common.Tests.{leb, ◌==◌, if◌then◌else◌}

pub data ℤ : Type 0 where
  pos : ℕ → ℤ
  negsuc : ℕ → ℤ

abbrev pub neg : ℕ → ℤ
neg zero = pos 0
neg (suc n) = negsuc n

-- int((end - start).total_seconds() * 1000), with exact arithmetic in place of the float.
unfoldable pub ms_between : ℕ → ℕ → ℤ
ms_between start end =
    if leb start end then pos ((end - start) / 1000) else neg ((start - end) / 1000)

-- z == 0
unfoldable pub is_zero : ℤ → Bool
is_zero (pos n) = n == 0
is_zero (negsuc n) = false
