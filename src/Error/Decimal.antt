-- ===== src/Error/Decimal.antt =====
-- `std::to_string` of the integers that error texts hold.
use lib_arcus.Prelude.{
  ℕ, zero, suc, ◌+◌, ◌/◌, ◌%◌, ◌++◌, [], ◌∷◌, Bytes, ltb, if◌then◌else◌, ℤ, pos, negsuc,
}

-- A number has at most as many digits as itself, so `n` as fuel is enough.
decimal_fuel : ℕ → ℕ → Bytes
decimal_fuel zero n = (b'0' + n % 10) ∷ []
decimal_fuel (suc f) n =
    let more = decimal_fuel f (n / 10) ++ (b'0' + n % 10) ∷ [] in
    if ltb n 10 then (b'0' + n) ∷ [] else more

unfoldable pub decimal : ℕ → Bytes
unfolding decimal_fuel
decimal n = decimal_fuel n n

unfoldable pub to_string : ℤ → Bytes
unfolding decimal
to_string (pos n) = decimal n
to_string (negsuc n) = b'-' ∷ decimal (suc n)
