-- ===== src/Integers.antt =====
-- The conversions between C++ integers of different widths.
use lib_arcus.Prelude.{
  true, ◌⊎◌, is_negative, ℕ, ◌-◌, ◌%◌, ◌^◌, ◌<◌, ◌≡◌, ℤ, pos, negsuc, ltb, if◌then◌else◌, arith,
}

-- The bit pattern of an integer in two's complement.
abbrev pub pattern32 : ℤ → ℕ
pattern32 (pos n) = n % 2 ^ 32
pattern32 (negsuc n) = 2 ^ 32 - 1 - n % 2 ^ 32

-- The `int` with a bit pattern.
abbrev pub int_of : ℕ → ℤ
int_of b = if ltb b (2 ^ 31) then pos b else negsuc (2 ^ 32 - 1 - b)

-- A wider signed or unsigned integer where an `int` is expected.
unfoldable pub to_int32 : ℤ → ℤ
to_int32 z = int_of (pattern32 z)

-- An `unsigned long` where 32 bits are expected.
unfoldable pub to_uint32 : ℕ → ℕ
to_uint32 n = n % 2 ^ 32

-- The range of an `int`.
abbrev pub IsInt32 : ℤ → Type 0
IsInt32 (pos n) = n < 2 ^ 31
IsInt32 (negsuc n) = n < 2 ^ 31

pub to_int32-id : (z : ℤ) → IsInt32 z → to_int32 z ≡ z
unfolding to_int32
to_int32-id (pos n) h = ground arith
to_int32-id (negsuc n) h = ground arith

-- A number of 32 bits stays as it is, or becomes negative.
pub to_int32-cases :
    (n : ℕ) → n < 2 ^ 32 → (to_int32 (pos n) ≡ pos n) ⊎ (is_negative (to_int32 (pos n)) ≡ true)
unfolding to_int32
to_int32-cases n h = ground arith

pub to_int32-IsInt32 : (z : ℤ) → IsInt32 (to_int32 z)
unfolding to_int32
to_int32-IsInt32 (pos n) = ground arith
to_int32-IsInt32 (negsuc n) = ground arith

pub pattern32-to_int32 : (z : ℤ) → pattern32 (to_int32 z) ≡ pattern32 z
unfolding to_int32
pattern32-to_int32 (pos n) = ground arith
pattern32-to_int32 (negsuc n) = ground arith
