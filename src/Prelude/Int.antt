-- ===== src/Prelude/Int.antt =====
-- Go's signed integers: ℤ where a value may be negative, and the 64-bit pattern of an `int64` where
-- a sum may wrap around.
use Prim.Native.Nat.{ℕ, ◌+◌, ◌-◌, ◌%◌, ◌^◌, ◌≤◌, ◌<◌}
use mathlib.Core.Bool.{Bool, true, false, ◌&&◌}
use mathlib.Core.Path.{◌≡◌}
use native.Mathlib.Omega.{arith}
use static_web.Prelude.Tests.{ltb, ◌==◌, if◌then◌else◌}

-- `negsuc n` is -(n + 1).
pub data ℤ : Type 0 where
  pos : ℕ → ℤ
  negsuc : ℕ → ℤ

abbrev pub add_int64 : ℕ → ℕ → ℕ
add_int64 a b = (a + b) % 2 ^ 64

abbrev pub sub_int64 : ℕ → ℕ → ℕ
sub_int64 a b = (a + (2 ^ 64 - b % 2 ^ 64)) % 2 ^ 64

-- `t > size` for a bit pattern `t` and a `size` that is not negative: from 2^63 on `t` is negative.
abbrev pub gt_int64 : ℕ → ℕ → Bool
gt_int64 t size = ltb t (2 ^ 63) && ltb size t

pub sub_int64-le : (a b : ℕ) → a < 2 ^ 63 → b ≤ a → sub_int64 a b ≡ a - b
sub_int64-le a b h k = omega arith

-- `a < b` on ℤ.
abbrev pub lt_int : ℤ → ℤ → Bool
lt_int (pos a) (pos b) = ltb a b
lt_int (pos a) (negsuc b) = false
lt_int (negsuc a) (pos b) = true
lt_int (negsuc a) (negsuc b) = ltb b a

-- `a + n` on ℤ.
abbrev pub add_int : ℤ → ℕ → ℤ
add_int (pos a) n = pos (a + n)
add_int (negsuc a) n = if ltb a n then pos (n - a - 1) else negsuc (a - n)

abbrev pub eq_int : ℤ → ℤ → Bool
eq_int (pos a) (pos b) = a == b
eq_int (pos a) (negsuc b) = false
eq_int (negsuc a) (pos b) = false
eq_int (negsuc a) (negsuc b) = a == b
