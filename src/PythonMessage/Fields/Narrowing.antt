-- ===== src/PythonMessage/Fields/Narrowing.antt =====
-- Numbers that a field has no room for, and enumerators by their name.
use lib_arcus.Prelude.{◌≡◌, refl, ◌∙◌, true, false, Option, some, none, Bytes, ℤ, []}
use lib_arcus.Reflection.{
  FieldType, CppType, done, Floats, Reflection, IsReflection, Raised, Python, cpp_type_of,
}
use lib_arcus.Connection.Receive.{c_string}
use lib_arcus.PythonMessage.{PythonMessage, World, map_ran, later, from_message, get_enum_value}
use lib_arcus.Integers.{to_int32, IsInt32, pattern32, to_int32-IsInt32, pattern32-to_int32}
use lib_arcus.PythonMessage.Fields.{
  get_attr, get_field, set_attr, set_field, set_int32, set_enum, stored,
}
use lib_arcus.PythonMessage.Fields.RoundTrip.{IsSigned32, int32, sint32, sfixed32}

module _ {Float Double : Type 0} (floats : Floats Float Double) (r : Reflection Float Double)
    (py : Python Double) where
  get_attr-found :
      (p : r.Pointer) (name : Bytes) (f : r.Field) (t : FieldType) (w : World r)
      → r.find_field_by_name (r.descriptor p) name ≡ some f
      → r.field_type f ≡ t
      → get_attr floats r py (from_message r p) name w
        ≡ get_field floats r py (from_message r p) f t w
  unfolding get_attr from_message
  get_attr-found p name f t w found ty = rw (found, get_attr, ty) refl

  set_attr-found :
      (p : r.Pointer) (name : Bytes) (f : r.Field) (t : FieldType) (o : py.Object) (w : World r)
      → r.find_field_by_name (r.descriptor p) name ≡ some f
      → r.field_type f ≡ t
      → set_attr floats r py (from_message r p) name o w
        ≡ set_field floats r py (from_message r p) f t o w
  unfolding set_attr from_message
  set_attr-found p name f t o w found ty = rw (found, set_attr, ty) refl

  -- The accessors that a signed type of 32 bits leads to.
  set_field-signed :
      {t : FieldType} (m : PythonMessage r) (f : r.Field) (o : py.Object) (w : World r)
      → IsSigned32 t
      → set_field floats r py m f t o w ≡ set_int32 floats r py m f o w
  unfolding set_field
  set_field-signed m f o w int32 = refl
  set_field-signed m f o w sint32 = refl
  set_field-signed m f o w sfixed32 = refl

  get_field-signed :
      {t : FieldType} (m : PythonMessage r) (f : r.Field) (w : World r)
      → IsSigned32 t
      → get_field floats r py m f t w
        ≡ map_ran
            (r.get CppType.cpp_int32 w.heap m.message f)
            (λ v. (some (py.long_from_long v), w))
  unfolding get_field
  get_field-signed m f w int32 = refl
  get_field-signed m f w sint32 = refl
  get_field-signed m f w sfixed32 = refl

  cpp_type_of-signed : {t : FieldType} → IsSigned32 t → cpp_type_of t ≡ CppType.cpp_int32
  cpp_type_of-signed int32 = refl
  cpp_type_of-signed sint32 = refl
  cpp_type_of-signed sfixed32 = refl

  -- Let a field of a signed type of 32 bits that is not repeated be found in a message that is there,
  -- and let `PyLong_AsLong` give z and, where it fails, an error. Then `__setattr__` returns, with the
  -- indicator set only by that error, and has stored a number even so: `__getattr__` returns the number
  -- in the range of an `int` that is congruent to z modulo 2 ^ 32.
  pub set_attr-pattern32 :
      IsReflection r
      → (p : r.Pointer) (name : Bytes) (f : r.Field) (o : py.Object) (z : ℤ) (e : Option Raised)
        (w : World r)
      → r.is_live w.heap p ≡ true
      → r.find_field_by_name (r.descriptor p) name ≡ some f
      → r.is_repeated f ≡ false
      → IsSigned32 (r.field_type f)
      → py.long_as_long o ≡ (z, e)
      → (n : ℤ) × (w' : World r) × IsInt32 n
        × (pattern32 n ≡ pattern32 z)
        × (set_attr floats r py (from_message r p) name o w ≡ done w')
        × (w'.raised ≡ later e w.raised)
        × (get_attr floats r py (from_message r p) name w' ≡ done (some (py.long_from_long n), w'))
  unfolding set_int32 from_message
  set_attr-pattern32 laws p name f o z e w live found single signed conv =
      let (h', put, got) =
        laws.set_get CppType.cpp_int32 w.heap p name f (to_int32 z) live found single
          (cpp_type_of-signed signed) refl in
      let m = from_message r p in
      let w' = stored floats r py w e h' in
      let stores : set_int32 floats r py m f o w ≡ done w' = rw (conv, put) refl in
      let reads = get_field-signed m f w' signed in
      (
        to_int32 z,
        w',
        to_int32-IsInt32 z,
        pattern32-to_int32 z,
        set_attr-found p name f _ o w found refl ∙ set_field-signed m f o w signed ∙ stores,
        refl,
        get_attr-found p name f _ w' found refl ∙ reads ∙ rw got refl,
      )

  -- Let a field of an enumeration that is not repeated be found in a message that is there, and let
  -- the object be a text that names one of the field's enumerators among those of the message. Then
  -- `__setattr__` returns and sets no error, and `__getattr__` returns the number that `getEnumValue`
  -- gives for that name.
  pub set_attr-get_enum_value :
      IsReflection r
      → (p : r.Pointer) (name : Bytes) (f : r.Field) (o : py.Object) (bs : Bytes) (v : r.EnumValue)
        (w : World r)
      → r.is_live w.heap p ≡ true
      → r.find_field_by_name (r.descriptor p) name ≡ some f
      → r.is_repeated f ≡ false
      → r.field_type f ≡ FieldType.type_enum
      → py.unicode_check o ≡ true
      → py.unicode_as_utf8 o ≡ (some bs, none)
      → r.find_enum_value_by_name (r.descriptor p) (c_string [] bs) ≡ some v
      → r.has_enum_value f v ≡ true
      → (w' : World r) × (set_attr floats r py (from_message r p) name o w ≡ done w')
        × (w'.raised ≡ w.raised)
        × (get_attr floats r py (from_message r p) name w'
            ≡ done (
              some (py.long_from_long (get_enum_value r (from_message r p) (c_string [] bs))),
              w',
            ))
  unfolding set_field set_enum get_field get_enum_value from_message
  set_attr-get_enum_value laws p name f o bs v w live found single ty str conv named has =
      let (h', put, got) = laws.set_enum_get w.heap p name f v live found single ty has in
      let w' = stored floats r py w none h' in
      let number : get_enum_value r (from_message r p) (c_string [] bs) ≡ r.enum_number v =
        rw (named, get_enum_value) refl in
      (
        w',
        set_attr-found p name f _ o w found ty ∙ rw (str, conv, set_enum, named, put) refl,
        refl,
        get_attr-found p name f _ w' found ty ∙ rw (number, got) refl,
      )
