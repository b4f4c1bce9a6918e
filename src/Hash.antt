-- ===== src/Hash.antt =====
-- `hash` of src/MessageTypeStore.cpp: the 32-bit FNV-1a hash that makes type ids of names.
pub mod Ascii
pub mod Bounds
use lib_arcus.Prelude.{
  ℕ, ◌+◌, ◌-◌, ◌*◌, ◌%◌, ◌^◌, Bool, [], ◌∷◌, Bytes, take, length, ltb, if◌then◌else◌, bit_xor,
}

-- `static_cast<uint32_t>` of a char: a signed char is extended by its sign.
unfoldable pub char_u32 : (char_is_signed : Bool) → ℕ → ℕ
char_u32 char_is_signed c =
    if char_is_signed then (if ltb c 128 then c else 2 ^ 32 - 256 + c) else c

-- One round: xor, then multiply modulo 2 ^ 32.
unfoldable pub hash_step : ℕ → ℕ → ℕ
hash_step result c = bit_xor result c * 16777619 % 2 ^ 32

unfoldable pub hash_loop : Bool → ℕ → Bytes → ℕ
unfolding hash_step char_u32
hash_loop signed result [] = result
hash_loop signed result (c ∷ cs) = hash_loop signed (hash_step result (char_u32 signed c)) cs

-- The length is counted in 32 bits.
unfoldable pub hash : Bool → Bytes → ℕ
unfolding hash_loop
hash signed input = hash_loop signed 2166136261 (take (length input % 2 ^ 32) input)
