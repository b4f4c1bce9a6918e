-- ===== src/Socket/Listeners.antt =====
-- The list of listeners as `std::find` and `erase` see it.
use lib_arcus.Prelude.{ℕ, Option, none, some, List, [], ◌∷◌, ◌==◌, if◌then◌else◌}

abbrev pub behind : ℕ → Option (List ℕ) → Option (List ℕ)
behind l none = none
behind l (some rest) = some (l ∷ rest)

-- Without the first element that equals `a`; `none` where none does.
unfoldable pub erase_first : ℕ → List ℕ → Option (List ℕ)
erase_first a [] = none
erase_first a (l ∷ ls) = if l == a then some ls else behind l (erase_first a ls)
