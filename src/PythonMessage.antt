-- ===== src/PythonMessage.antt =====
-- python/PythonMessage.cpp: a message of Protocol Buffers as an object of Python.
pub mod Fields
pub mod Nested
pub mod Missing
use lib_arcus.Prelude.{
  ℕ, ltb, ◌≡◌, Bool, true, false, not, ◌||◌, Option, some, none, Bytes, text, ℤ, pos, negsuc,
  is_negative, if◌then◌else◌, [],
}
use lib_arcus.Reflection.{
  FieldType, CppType, CppValue, Ran, fatal, undefined, done, Floats, Reflection, Exception, Raised,
  Python,
}
use lib_arcus.Connection.Receive.{c_string}
use lib_arcus.Integers.{to_int32, to_uint32}

-- The reflection object is the interface itself. `none` is the null pointer.
pub record PythonMessage {Float Double : Type 0} (r : Reflection Float Double) : Type 0 where
  pub shared_message : Option r.Pointer
  pub message : r.Pointer
  pub descriptor : r.Descriptor

-- What the methods read and change: the messages, and the error indicator.
pub record World {Float Double : Type 0} (r : Reflection Float Double) : Type 0 where
  pub heap : r.Heap
  pub raised : Option Raised

-- What follows a call, if it returns.
abbrev pub map_ran {ℓ κ} : {A : Type ℓ} {B : Type κ} → Ran A → (A → B) → Ran B
map_ran fatal f = fatal
map_ran undefined f = undefined
map_ran (done a) f = done (f a)

-- A call that fails replaces the error, one that succeeds leaves it.
abbrev pub later : Option Raised → Option Raised → Option Raised
later (some e) before = some e
later none before = before

module _ {Float Double : Type 0} (r : Reflection Float Double) where
  -- The constructor from a plain pointer, and the one from a shared pointer.
  unfoldable pub from_message : r.Pointer → PythonMessage r
  from_message p = record { shared_message = none; message = p; descriptor = r.descriptor p }

  unfoldable pub from_shared : r.Pointer → PythonMessage r
  from_shared p = record { shared_message = some p; message = p; descriptor = r.descriptor p }

  unfoldable pub get_type_name : PythonMessage r → Bytes
  get_type_name m = r.type_name m.message

  unfoldable pub get_shared_message : PythonMessage r → Option r.Pointer
  get_shared_message m = m.shared_message

  unfoldable pub has_attr : PythonMessage r → Bytes → Bool
  has_attr m field_name = elim (r.find_field_by_name m.descriptor field_name) [
    | none ↦ false
    | some field ↦ true
  ]

  -- `PyErr_SetString`
  abbrev pub raise : Exception → Bytes → World r → World r
  raise exception message w = record w {
    raised = some (record { exception = exception; message = message });
  }

  -- The text of an exception is a C string.
  unfoldable pub missing : Bytes → World r → World r
  unfolding c_string
  missing field_name = raise Exception.attribute_error (c_string [] field_name)

  unfoldable pub could_not_handle : World r → World r
  could_not_handle = raise Exception.value_error (text "Could not handle value of field")

  unfoldable pub add_repeated_message :
      PythonMessage r → Bytes → World r → Ran (Option (PythonMessage r) × World r)
  unfolding missing from_message
  add_repeated_message m field_name w = elim (r.find_field_by_name m.descriptor field_name) [
    | none ↦ done (none, missing field_name w)
    | some field ↦
        map_ran (r.add_message w.heap m.message field)
          (λ (p, h). (some (from_message p), record w { heap = h }))
  ]

  unfoldable pub repeated_message_count : PythonMessage r → Bytes → World r → Ran (ℤ × World r)
  unfolding missing
  repeated_message_count m field_name w = elim (r.find_field_by_name m.descriptor field_name) [
    | none ↦ done (negsuc 0, missing field_name w)
    | some field ↦ map_ran (r.field_size w.heap m.message field) (λ n. (pos n, w))
  ]

  unfoldable pub get_message :
      PythonMessage r → Bytes → World r → Ran (Option (PythonMessage r) × World r)
  unfolding missing from_message
  get_message m field_name w = elim (r.find_field_by_name m.descriptor field_name) [
    | none ↦ done (none, missing field_name w)
    | some field ↦
        map_ran (r.mutable_message w.heap m.message field)
          (λ (p, h). (some (from_message p), record w { heap = h }))
  ]

  -- `getRepeatedMessage` with the size of the field, where the index is not negative.
  unfoldable pub element :
      PythonMessage r
      → Bytes
      → r.Field
      → (index size : ℕ) → World r
      → Ran (Option (PythonMessage r) × World r)
  unfolding c_string from_message
  element m field_name field index size w =
      if ltb size index
      then done (none, raise Exception.index_error (c_string [] field_name) w)
      else map_ran (r.mutable_repeated_message w.heap m.message field index)
          (λ p. (some (from_message p), w))

  sized :
      PythonMessage r
      → Bytes
      → r.Field
      → ℕ
      → World r
      → Ran ℕ
      → Ran (Option (PythonMessage r) × World r)
  unfolding element
  sized m field_name field index w fatal = fatal
  sized m field_name field index w undefined = undefined
  sized m field_name field index w (done size) = element m field_name field index size w

  at_index :
      PythonMessage r → Bytes → r.Field → ℤ → World r → Ran (Option (PythonMessage r) × World r)
  unfolding sized c_string
  at_index m field_name field (negsuc i) w =
      done (none, raise Exception.index_error (c_string [] field_name) w)
  at_index m field_name field (pos i) w =
      sized m field_name field i w (r.field_size w.heap m.message field)

  unfoldable pub get_repeated_message :
      PythonMessage r → Bytes → ℤ → World r → Ran (Option (PythonMessage r) × World r)
  unfolding missing at_index
  get_repeated_message m field_name index w = elim (r.find_field_by_name m.descriptor field_name) [
    | none ↦ done (none, missing field_name w)
    | some field ↦ at_index m field_name field index w
  ]

  unfoldable pub get_enum_value : PythonMessage r → Bytes → ℤ
  get_enum_value m enum_value = elim (r.find_enum_value_by_name m.descriptor enum_value) [
    | none ↦ negsuc 0
    | some value ↦ r.enum_number value
  ]
