-- ===== src/ByteOrder.antt =====
-- `htonl`, `ntohl` and `htons`: the bytes of a word in network order, most significant first.
use lib_arcus.Prelude.{
  ℕ, ◌+◌, ◌*◌, ◌/◌, ◌%◌, ◌^◌, ◌<◌, ◌≡◌, refl, ap, [], ◌∷◌, Bytes, length, arith,
}

unfoldable pub htonl : ℕ → Bytes
htonl w = (w / 0x1000000 % 256) ∷ (w / 0x10000 % 256) ∷ (w / 0x100 % 256) ∷ (w % 256) ∷ []

-- The 32-bit word whose bytes a 4-byte buffer holds.
unfoldable pub ntohl : Bytes → ℕ
ntohl (a ∷ b ∷ c ∷ d ∷ []) = (a * 0x1000000 + b * 0x10000 + c * 0x100 + d) % 2 ^ 32
ntohl _ = 0

-- A port is converted to 16 bits first.
unfoldable pub htons : ℕ → Bytes
htons p = (p / 256 % 256) ∷ (p % 256) ∷ []

pub length-htonl : (w : ℕ) → length (htonl w) ≡ 4
unfolding htonl
length-htonl w = refl

pub ntohl-htonl : (w : ℕ) → w < 2 ^ 32 → ntohl (htonl w) ≡ w
unfolding htonl ntohl
ntohl-htonl w h = omega arith

-- Words with the same bytes are the same.
pub htonl-injective : (v w : ℕ) → v < 2 ^ 32 → w < 2 ^ 32 → htonl v ≡ htonl w → v ≡ w
htonl-injective v w hv hw e = omega (arith, ntohl-htonl v hv, ntohl-htonl w hw, ap ntohl e)

pub ntohl-lt : (bs : Bytes) → ntohl bs < 2 ^ 32
unfolding ntohl
ntohl-lt [] = omega arith
ntohl-lt (a ∷ []) = omega arith
ntohl-lt (a ∷ b ∷ []) = omega arith
ntohl-lt (a ∷ b ∷ c ∷ []) = omega arith
ntohl-lt (a ∷ b ∷ c ∷ d ∷ []) = omega arith
ntohl-lt (a ∷ b ∷ c ∷ d ∷ e ∷ bs) = omega arith
