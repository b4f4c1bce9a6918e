-- ===== src/MessageTypeStore/Table.antt =====
-- `std::unordered_map` with numbers for keys, as an association list.
use lib_arcus.Prelude.{ℕ, ◌≡◌, refl, Option, none, some, List, [], ◌∷◌, ◌==◌, if◌then◌else◌, arith}

abbrev pub UnorderedMap {ℓ} : Type ℓ → Type ℓ
UnorderedMap V = List (ℕ × V)

module _ {ℓ} {V : Type ℓ} where
  unfoldable pub find : ℕ → UnorderedMap V → Option V
  find k [] = none
  find k ((j, v) ∷ t) = if j == k then some v else find k t

  -- `t[k] = v`.
  unfoldable pub insert : ℕ → V → UnorderedMap V → UnorderedMap V
  insert k v [] = (k, v) ∷ []
  insert k v ((j, w) ∷ t) = if j == k then (k, v) ∷ t else (j, w) ∷ insert k v t

  pub find-insert :
      (j k : ℕ) (v : V) (t : UnorderedMap V)
      → find j (insert k v t) ≡ (if k == j then some v else find j t)
  unfolding find insert
  find-insert j k v [] = refl
  find-insert j k v ((i, w) ∷ t) = ground (arith, find-insert j k v t)
