-- ===== src/Common/Int.antt =====
-- The signed machine integers that the source reads: a value and its wrap-around range.
use Prim.Native.Nat.{ℕ, ◌+◌, ◌-◌, min}
use mathlib.Core.Bool.{Bool, true, false}
use recomp_net_server.Common.Tests.{if◌then◌else◌, ltb}

-- `negsuc n` is -(n + 1).
pub data ℤ : Type 0 where
  pos : ℕ → ℤ
  negsuc : ℕ → ℤ

-- `x < 0`
abbrev pub is_negative : ℤ → Bool
is_negative (pos n) = false
is_negative (negsuc n) = true

-- `x.max(0)`, as a number.
abbrev pub to_ℕ : ℤ → ℕ
to_ℕ (pos n) = n
to_ℕ (negsuc n) = 0

abbrev pub i32_max : ℕ
i32_max = 2_147_483_647

-- `i32::saturating_add`
pub saturating_add : ℤ → ℤ → ℤ
saturating_add (pos a) (pos b) = pos (min (a + b) i32_max)
saturating_add (pos a) (negsuc b) = if ltb b a then pos (a - b - 1) else negsuc (b - a)
saturating_add (negsuc a) (pos b) = if ltb a b then pos (b - a - 1) else negsuc (a - b)
saturating_add (negsuc a) (negsuc b) = negsuc (min (a + b + 1) i32_max)
