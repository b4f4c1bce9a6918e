-- ===== src/Hash/Ascii.antt =====
-- The hash of a name in ASCII, on machines whose `char` is signed and on those where it is not.
use lib_arcus.Prelude.{
  ℕ, zero, suc, ◌%◌, ◌^◌, ◌<◌, ◌≡◌, refl, Bool, [], ◌∷◌, Bytes, take, length, arith,
}
use lib_arcus.Hash.{char_u32, hash_step, hash_loop, hash}

abbrev pub IsAscii : Bytes → Type 0
IsAscii [] = Unit {0}
IsAscii (c ∷ cs) = (c < 128) × IsAscii cs

take-IsAscii : (n : ℕ) (cs : Bytes) → IsAscii cs → IsAscii (take n cs)
take-IsAscii zero cs h = tt
take-IsAscii (suc n) [] h = tt
take-IsAscii (suc n) (c ∷ cs) (h, hs) = (h, take-IsAscii n cs hs)

char_u32-ascii : (signed signed' : Bool) (c : ℕ) → c < 128 → char_u32 signed c ≡ char_u32 signed' c
unfolding char_u32
char_u32-ascii signed signed' c h = ground arith

hash_loop-ascii :
    (signed signed' : Bool) (result : ℕ) (cs : Bytes)
    → IsAscii cs
    → hash_loop signed result cs ≡ hash_loop signed' result cs
unfolding hash_loop
hash_loop-ascii signed signed' result [] h = refl
hash_loop-ascii signed signed' result (c ∷ cs) (h, hs) =
    rw (char_u32-ascii signed signed' c h)
      (hash_loop-ascii signed signed' (hash_step result (char_u32 signed' c)) cs hs)

-- The hash of a name in ASCII does not depend on whether the compiler's `char` is signed, so that
-- both sides of a connection give a type the same id.
pub hash-ascii :
    (signed signed' : Bool) (input : Bytes) → IsAscii input → hash signed input ≡ hash signed' input
unfolding hash
hash-ascii signed signed' input h =
    hash_loop-ascii signed signed' 2166136261 _ (take-IsAscii (length input % 2 ^ 32) input h)
