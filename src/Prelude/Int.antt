-- ===== src/Prelude/Int.antt =====
-- Go's `int`, 64 bits wide, and its arithmetic with the wrap-around written out.
use Prim.Native.Nat.{ℕ, zero, suc, ◌+◌, ◌-◌, min}
use mathlib.Core.Bool.{Bool, true, false, not}
use rabbitmq_kit_go.Prelude.Tests.{leb, ◌==◌, if◌then◌else◌}

-- `negsuc n` is -(n + 1).
pub data ℤ : Type 0 where
  pos : ℕ → ℤ
  negsuc : ℕ → ℤ

-- The greatest int, 2 ^ 63 - 1. The least is `negsuc max_int`.
abbrev pub max_int : ℕ
max_int = 9223372036854775807

-- a <= b
abbrev pub leb_int : ℤ → ℤ → Bool
leb_int (pos a) (pos b) = leb a b
leb_int (pos a) (negsuc b) = false
leb_int (negsuc a) (pos b) = true
leb_int (negsuc a) (negsuc b) = leb b a

-- a < b
abbrev pub ltb_int : ℤ → ℤ → Bool
ltb_int a b = not (leb_int b a)

-- x++ : past the greatest int comes the least.
abbrev pub incr : ℤ → ℤ
incr (pos n) = if n == max_int then negsuc max_int else pos (n + 1)
incr (negsuc zero) = pos 0
incr (negsuc (suc n)) = negsuc n

-- a - b for two clock readings, saturating as `time.Time.Sub` does.
abbrev pub sub_time : ℕ → ℕ → ℤ
sub_time a b = if leb b a then pos (min (a - b) max_int) else negsuc (min (b - a - 1) max_int)

abbrev pub pos_part : ℤ → ℕ
pos_part (pos n) = n
pos_part (negsuc n) = 0
