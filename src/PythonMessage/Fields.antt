-- ===== src/PythonMessage/Fields.antt =====
-- python/PythonMessage.cpp: the fields as attributes.
pub mod Narrowing
pub mod RoundTrip
use lib_arcus.Prelude.{Option, some, none, Bytes, ℤ, [], true, false, if◌then◌else◌}
use lib_arcus.Reflection.{
  FieldType, CppType, Ran, fatal, undefined, done, Floats, Reflection, Raised, Python,
}
use lib_arcus.Connection.Receive.{c_string}
use lib_arcus.PythonMessage.{PythonMessage, World, map_ran, later, missing, could_not_handle}
use lib_arcus.Integers.{to_int32, to_uint32}

module _ {Float Double : Type 0} (floats : Floats Float Double) (r : Reflection Float Double)
    (py : Python Double) where
  -- The switch of `__getattr__` on the type of the field.
  unfoldable pub get_field :
      PythonMessage r → r.Field → FieldType → World r → Ran (Option py.Object × World r)
  unfolding could_not_handle
  get_field m f FieldType.type_float w =
      map_ran (r.get CppType.cpp_float w.heap m.message f)
        (λ v. (some (py.float_from_double (floats.widen v)), w))
  get_field m f FieldType.type_double w =
      map_ran (r.get CppType.cpp_double w.heap m.message f)
        (λ v. (some (py.float_from_double v), w))
  get_field m f FieldType.type_int32 w =
      map_ran (r.get CppType.cpp_int32 w.heap m.message f) (λ v. (some (py.long_from_long v), w))
  get_field m f FieldType.type_fixed32 w =
      map_ran (r.get CppType.cpp_int32 w.heap m.message f) (λ v. (some (py.long_from_long v), w))
  get_field m f FieldType.type_sint32 w =
      map_ran (r.get CppType.cpp_int32 w.heap m.message f) (λ v. (some (py.long_from_long v), w))
  get_field m f FieldType.type_sfixed32 w =
      map_ran (r.get CppType.cpp_int32 w.heap m.message f) (λ v. (some (py.long_from_long v), w))
  get_field m f FieldType.type_int64 w =
      map_ran (r.get CppType.cpp_int64 w.heap m.message f)
        (λ v. (some (py.long_from_long_long v), w))
  get_field m f FieldType.type_fixed64 w =
      map_ran (r.get CppType.cpp_int64 w.heap m.message f)
        (λ v. (some (py.long_from_long_long v), w))
  get_field m f FieldType.type_sint64 w =
      map_ran (r.get CppType.cpp_int64 w.heap m.message f)
        (λ v. (some (py.long_from_long_long v), w))
  get_field m f FieldType.type_sfixed64 w =
      map_ran (r.get CppType.cpp_int64 w.heap m.message f)
        (λ v. (some (py.long_from_long_long v), w))
  get_field m f FieldType.type_uint32 w =
      map_ran (r.get CppType.cpp_uint32 w.heap m.message f)
        (λ v. (some (py.long_from_unsigned_long v), w))
  get_field m f FieldType.type_uint64 w =
      map_ran (r.get CppType.cpp_uint64 w.heap m.message f)
        (λ v. (some (py.long_from_unsigned_long_long v), w))
  get_field m f FieldType.type_bool w =
      map_ran (r.get CppType.cpp_bool w.heap m.message f)
        (λ v. (some (if v then py.py_true else py.py_false), w))
  get_field m f FieldType.type_bytes w =
      map_ran (r.get CppType.cpp_string w.heap m.message f)
        (λ v. (some (py.bytes_from_string_and_size v), w))
  get_field m f FieldType.type_string w =
      map_ran (r.get CppType.cpp_string w.heap m.message f) (λ v.
        (let (made, e) = py.unicode_from_string (c_string [] v) in
          (made, record w { raised = later e w.raised })))
  get_field m f FieldType.type_enum w =
      map_ran (r.get CppType.cpp_enum w.heap m.message f) (λ v. (some (py.long_from_long v), w))
  get_field m f FieldType.type_group w = done (none, could_not_handle r w)
  get_field m f FieldType.type_message w = done (none, could_not_handle r w)

  unfoldable pub get_attr : PythonMessage r → Bytes → World r → Ran (Option py.Object × World r)
  unfolding get_field missing
  get_attr m field_name w = elim (r.find_field_by_name m.descriptor field_name) [
    | none ↦ done (none, missing r field_name w)
    | some field ↦ get_field m field (r.field_type field) w
  ]

  -- The world after a value was converted and stored.
  abbrev pub stored : World r → Option Raised → r.Heap → World r
  stored w e h = record { heap = h; raised = later e w.raised }

  -- A number in a field of 32 bits, or of 64.
  unfoldable pub set_int32 : PythonMessage r → r.Field → py.Object → World r → Ran (World r)
  unfolding to_int32
  set_int32 m f value w =
      let (n, e) = py.long_as_long value in
      map_ran (r.set CppType.cpp_int32 w.heap m.message f (to_int32 n)) (stored w e)

  unfoldable pub set_int64 : PythonMessage r → r.Field → py.Object → World r → Ran (World r)
  set_int64 m f value w =
      let (n, e) = py.long_as_long_long value in
      map_ran (r.set CppType.cpp_int64 w.heap m.message f n) (stored w e)

  -- A `char*` as a `std::string`: the null pointer is no string.
  store_text : PythonMessage r → r.Field → World r → Option Bytes → Option Raised → Ran (World r)
  unfolding c_string
  store_text m f w none e = undefined
  store_text m f w (some bs) e =
      map_ran (r.set CppType.cpp_string w.heap m.message f (c_string [] bs)) (stored w e)

  unfoldable pub set_string : PythonMessage r → r.Field → py.Object → World r → Ran (World r)
  unfolding store_text
  set_string m f value w = let (text, e) = py.unicode_as_utf8 value in store_text m f w text e

  -- Of the failure of `PyObject_GetBuffer` the code takes no notice.
  store_buffer : PythonMessage r → r.Field → World r → Option Bytes → Ran (World r)
  store_buffer m f w none = undefined
  store_buffer m f w (some bs) =
      map_ran (r.set CppType.cpp_string w.heap m.message f bs) (stored w none)

  -- The enumerator that a `char*` names.
  store_enumerator :
      PythonMessage r → r.Field → World r → Option Bytes → Option Raised → Ran (World r)
  unfolding c_string
  store_enumerator m f w none e = undefined
  store_enumerator m f w (some bs) e =
      map_ran
        (r.set_enum w.heap m.message f (r.find_enum_value_by_name m.descriptor (c_string [] bs)))
        (stored w e)

  unfoldable pub set_enum : PythonMessage r → r.Field → py.Object → World r → Ran (World r)
  unfolding store_enumerator to_int32
  set_enum m f value w =
      if py.unicode_check value
      then (let (text, e) = py.unicode_as_utf8 value in store_enumerator m f w text e)
      else (let (n, e) = py.long_as_long value in
          map_ran (r.set CppType.cpp_enum w.heap m.message f (to_int32 n)) (stored w e))

  -- The switch of `__setattr__`.
  unfoldable pub set_field :
      PythonMessage r → r.Field → FieldType → py.Object → World r → Ran (World r)
  unfolding could_not_handle to_uint32 set_int32 set_int64 set_string set_enum store_buffer
  set_field m f FieldType.type_float value w =
      let (d, e) = py.float_as_double value in
      map_ran (r.set CppType.cpp_float w.heap m.message f (floats.narrow d)) (stored w e)
  set_field m f FieldType.type_double value w =
      let (d, e) = py.float_as_double value in
      map_ran (r.set CppType.cpp_double w.heap m.message f d) (stored w e)
  set_field m f FieldType.type_int32 value w = set_int32 m f value w
  set_field m f FieldType.type_sfixed32 value w = set_int32 m f value w
  set_field m f FieldType.type_fixed32 value w = set_int32 m f value w
  set_field m f FieldType.type_sint32 value w = set_int32 m f value w
  set_field m f FieldType.type_int64 value w = set_int64 m f value w
  set_field m f FieldType.type_fixed64 value w = set_int64 m f value w
  set_field m f FieldType.type_sint64 value w = set_int64 m f value w
  set_field m f FieldType.type_sfixed64 value w = set_int64 m f value w
  set_field m f FieldType.type_uint32 value w =
      let (n, e) = py.long_as_unsigned_long value in
      map_ran (r.set CppType.cpp_uint32 w.heap m.message f (to_uint32 n)) (stored w e)
  set_field m f FieldType.type_uint64 value w =
      let (n, e) = py.long_as_unsigned_long_long value in
      map_ran (r.set CppType.cpp_uint64 w.heap m.message f n) (stored w e)
  set_field m f FieldType.type_bool value w =
      map_ran
        (r.set CppType.cpp_bool w.heap m.message f
          (if py.is_same value py.py_true then true else false))
        (stored w none)
  set_field m f FieldType.type_bytes value w = store_buffer m f w (py.get_buffer value)
  set_field m f FieldType.type_string value w = set_string m f value w
  set_field m f FieldType.type_enum value w = set_enum m f value w
  set_field m f FieldType.type_group value w = done (could_not_handle r w)
  set_field m f FieldType.type_message value w = done (could_not_handle r w)

  unfoldable pub set_attr : PythonMessage r → Bytes → py.Object → World r → Ran (World r)
  unfolding set_field missing
  set_attr m field_name value w = elim (r.find_field_by_name m.descriptor field_name) [
    | none ↦ done (missing r field_name w)
    | some field ↦ set_field m field (r.field_type field) value w
  ]
