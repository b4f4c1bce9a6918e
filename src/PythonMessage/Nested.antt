-- ===== src/PythonMessage/Nested.antt =====
-- The messages inside a message: what their number and their indices have to do with each other.
use lib_arcus.Prelude.{
  ℕ, ltb, ◌≡◌, ◌<◌, ◌≤◌, refl, ap, ◌∙◌, ◌⊎◌, inl, inr, true, false, Option, some, none, Bytes, [],
  ℤ, pos, negsuc, arith,
}
use lib_arcus.Reflection.{FieldType, Ran, undefined, done, Reflection, IsReflection, Exception}
use lib_arcus.Connection.Receive.{c_string}
use lib_arcus.PythonMessage.{
  PythonMessage, World, map_ran, raise, from_message, get_repeated_message, element,
}

trichotomy : (i n : ℕ) → (i < n) ⊎ (i ≡ n) ⊎ (n < i)
trichotomy i n = ground arith

module _ {Float Double : Type 0} (r : Reflection Float Double) (laws : IsReflection r) where
  -- `IndexError`, with the name of the field.
  abbrev IsIndexError : Bytes → World r → Ran (Option (PythonMessage r) × World r) → Type 0
  IsIndexError name w out = out ≡ done (none, raise r Exception.index_error (c_string [] name) w)

  -- `getRepeatedMessage` where the field and its size are known.
  element-found :
      (p : r.Pointer) (name : Bytes) (f : r.Field) (n i : ℕ) (w : World r)
      → r.find_field_by_name (r.descriptor p) name ≡ some f
      → r.field_size w.heap p f ≡ done n
      → get_repeated_message r (from_message r p) name (pos i) w
        ≡ element r (from_message r p) name f i n w
  unfolding get_repeated_message from_message
  element-found p name f n i w found size = rw (found, get_repeated_message, size) refl

  -- An index up to the size is looked up, a larger one is refused.
  element-let :
      (m : PythonMessage r) (name : Bytes) (f : r.Field) (n i : ℕ) (w : World r) (o : Ran r.Pointer)
      → i ≤ n
      → r.mutable_repeated_message w.heap m.message f i ≡ o
      → element r m name f i n w ≡ map_ran o (λ p. (some (from_message r p), w))
  unfolding element
  element-let m name f n i w o below eq =
      let passed : ltb n i ≡ false = ground arith in rw (passed, eq) refl

  element-refused :
      (m : PythonMessage r) (name : Bytes) (f : r.Field) (n i : ℕ) (w : World r)
      → n < i
      → IsIndexError name w (element r m name f i n w)
  unfolding element
  element-refused m name f n i w above =
      let stopped : ltb n i ≡ true = ground arith in rw stopped refl

  found-negative :
      (p : r.Pointer) (name : Bytes) (f : r.Field) (i : ℕ) (w : World r)
      → r.find_field_by_name (r.descriptor p) name ≡ some f
      → IsIndexError name w (get_repeated_message r (from_message r p) name (negsuc i) w)
  unfolding get_repeated_message from_message
  found-negative p name f i w found = rw (found, get_repeated_message) refl

  element-inside :
      (p : r.Pointer) (name : Bytes) (f : r.Field) (n i : ℕ) (w : World r) (q : r.Pointer)
      → r.find_field_by_name (r.descriptor p) name ≡ some f
      → r.field_size w.heap p f ≡ done n
      → i < n
      → r.mutable_repeated_message w.heap p f i ≡ done q
      → get_repeated_message r (from_message r p) name (pos i) w ≡ done (some (from_message r q), w)
  unfolding from_message
  element-inside p name f n i w q found size below there =
      element-found p name f n i w found size
      ∙ element-let (from_message r p) name f n i w (done q) (omega arith) there

  -- Let a repeated message field with n elements be found in a message that is there. Then
  -- `getRepeatedMessage` returns the element at an index below
  -- n; at the index n, which it lets pass, its behaviour is undefined; and for any other index, a
  -- negative one or one above n, it sets IndexError with the field's name, and changes nothing else.
  pub get_repeated_message-index :
      (p : r.Pointer) (name : Bytes) (f : r.Field) (n : ℕ) (w : World r) (index : ℤ)
      → r.is_live w.heap p ≡ true
      → r.find_field_by_name (r.descriptor p) name ≡ some f
      → r.is_repeated f ≡ true
      → r.field_type f ≡ FieldType.type_message
      → r.field_size w.heap p f ≡ done n
      → ((i : ℕ) × (q : r.Pointer) × (index ≡ pos i)
          × (i < n)
          × (r.mutable_repeated_message w.heap p f i ≡ done q)
          × (get_repeated_message r (from_message r p) name index w
              ≡ done (some (from_message r q), w)))
        ⊎ ((index ≡ pos n) × (get_repeated_message r (from_message r p) name index w ≡ undefined))
        ⊎ (((i : ℕ) → index ≡ pos i → n < i)
            × IsIndexError name w (get_repeated_message r (from_message r p) name index w))
  unfolding from_message
  get_repeated_message-index p name f n w (negsuc i) live found list messages size =
      inr (inr ((λ j eq. ground (arith, eq)), found-negative p name f i w found))
  get_repeated_message-index p name f n w (pos i) live found list messages size =
      let eq = element-found p name f n i w found size in
      elim (trichotomy i n) [
        | inl below ↦
            let (q, there) =
              laws.element_inside w.heap p name f n i live found list messages size below in
            inl (i, q, refl, below, there, element-inside p name f n i w q found size below there)
        | inr (inl same) ↦
            let gone =
              laws.element_outside w.heap p name f n i live found list messages size
                (omega (arith, same)) in
            inr (
              inl (
                ap pos same,
                eq
                    ∙ element-let (from_message r p) name f n i w undefined (omega (arith, same))
                        gone,
              ))
        | inr (inr above) ↦ inr (
            inr (
              (λ j e. ground (arith, e, above)),
              eq ∙ element-refused (from_message r p) name f n i w above,
            ))
      ]
