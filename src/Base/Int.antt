-- ===== src/Base/Int.antt =====
-- Signed integers over the native numbers, under the library's names, and the 8-bit pattern of one.
use semantic_oml.Base.{◌+◌}
use Prim.Native.Nat.{◌+◌, ℕ, ◌-◌, ◌%◌}
use mathlib.Core.Path.{◌≡◌}
use mathlib.Core.Bool.{Bool, true}
use native.Mathlib.Omega.{arith}
use semantic_oml.Base.Tests.{ltb, leb, if◌then◌else◌}

-- `negsuc n` is -(n + 1).
pub data ℤ : Type 0 where
  pos : ℕ → ℤ
  negsuc : ℕ → ℤ

-- a - b, as an integer.
abbrev pub sub_ℕ : ℕ → ℕ → ℤ
sub_ℕ a b = if leb b a then pos (a - b) else negsuc (b - a - 1)

abbrev pub sub_ℤ : ℤ → ℤ → ℤ
sub_ℤ (pos a) (pos b) = sub_ℕ a b
sub_ℤ (pos a) (negsuc b) = pos (a + b + 1)
sub_ℤ (negsuc a) (pos b) = negsuc (a + b)
sub_ℤ (negsuc a) (negsuc b) = sub_ℕ b a

-- The bits of an int8_t, and whether it holds the integer.
unfoldable pub int8_bits : ℤ → ℕ
int8_bits (pos n) = n % 256
int8_bits (negsuc n) = 255 - n % 256

unfoldable pub fits_int8 : ℤ → Bool
fits_int8 (pos n) = ltb n 128
fits_int8 (negsuc n) = ltb n 128

unfoldable pub int8_of : ℕ → ℤ
int8_of b = if ltb b 128 then pos b else negsuc (255 - b)

pub int8_of-int8_bits : (z : ℤ) → fits_int8 z ≡ true → int8_of (int8_bits z) ≡ z
unfolding int8_bits fits_int8 int8_of
int8_of-int8_bits (pos n) h = ground arith
int8_of-int8_bits (negsuc n) h = ground arith
