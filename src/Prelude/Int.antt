-- ===== src/Prelude/Int.antt =====
-- Signed integers over the native numbers, under the library's names.
use Prim.Native.Nat.{ℕ, zero, suc, ◌-◌, ◌%◌, ◌^◌}
use mathlib.Core.Bool.{Bool, true, false}
use rosetta_recorder_cpp.Prelude.Tests.{ltb, if◌then◌else◌}

-- `negsuc n` is -(n + 1).
pub data ℤ : Type 0 where
  pos : ℕ → ℤ
  negsuc : ℕ → ℤ

-- `x <= 0`, the only order that the recorder asks of an `int`.
abbrev pub is_non_positive : ℤ → Bool
is_non_positive (pos zero) = true
is_non_positive (pos (suc n)) = false
is_non_positive (negsuc n) = true

-- A conversion to an unsigned type of `w` bits wraps.
abbrev pub to_unsigned : ℕ → ℤ → ℕ
to_unsigned w (pos n) = n % 2 ^ w
to_unsigned w (negsuc n) = 2 ^ w - 1 - n % 2 ^ w

-- A conversion of an unsigned value to a signed type of `w` bits, in two's complement.
abbrev pub to_signed : ℕ → ℕ → ℤ
to_signed w n = let m = n % 2 ^ w in if ltb m (2 ^ (w - 1)) then pos m else negsuc (2 ^ w - 1 - m)
