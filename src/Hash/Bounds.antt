-- ===== src/Hash/Bounds.antt =====
-- The range of the hash.
use lib_arcus.Prelude.{ℕ, ◌%◌, ◌^◌, ◌<◌, Bool, [], ◌∷◌, Bytes, arith, take, length}
use lib_arcus.Hash.{char_u32, hash_step, hash_loop, hash}

hash_step-lt : (result c : ℕ) → hash_step result c < 2 ^ 32
unfolding hash_step
hash_step-lt result c = omega arith

hash_loop-lt :
    (signed : Bool) (result : ℕ) (cs : Bytes)
    → result < 2 ^ 32
    → hash_loop signed result cs < 2 ^ 32
unfolding hash_loop
hash_loop-lt signed result [] h = h
hash_loop-lt signed result (c ∷ cs) h =
    hash_loop-lt signed (hash_step result (char_u32 signed c)) cs
      (hash_step-lt result (char_u32 signed c))

-- Every name has a 32-bit hash.
pub hash-lt : (signed : Bool) (input : Bytes) → hash signed input < 2 ^ 32
unfolding hash
hash-lt signed input =
    hash_loop-lt signed 2166136261 (take (length input % 2 ^ 32) input) (omega arith)
