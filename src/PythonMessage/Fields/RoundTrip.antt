-- ===== src/PythonMessage/Fields/RoundTrip.antt =====
-- What an attribute reads after it was set.
use lib_arcus.Prelude.{
  ℕ, ◌≡◌, ◌<◌, ◌^◌, ◌%◌, refl, ap, inl, inr, Bool-cases, true, false, Option, some, none, Bytes, [],
  ◌∷◌, ℤ, if◌then◌else◌, ◌==◌, arith,
}
use lib_arcus.Reflection.{
  FieldType, CppType, CppValue, Ran, done, Floats, Reflection, IsReflection, Python, cpp_type_of,
  is_scalar,
}
use lib_arcus.Connection.Receive.{c_string}
use lib_arcus.PythonMessage.{World, map_ran, from_message}
use lib_arcus.Integers.{to_uint32, IsInt32, to_int32-id}
use lib_arcus.PythonMessage.Fields.{
  get_attr, get_field, set_attr, set_field, set_int32, set_int64, set_string, stored,
}

-- The types of signed integers.
pub data IsSigned32 : FieldType → Type 0 where
  int32 : IsSigned32 FieldType.type_int32
  sint32 : IsSigned32 FieldType.type_sint32
  sfixed32 : IsSigned32 FieldType.type_sfixed32

pub data IsSigned64 : FieldType → Type 0 where
  int64 : IsSigned64 FieldType.type_int64
  sint64 : IsSigned64 FieldType.type_sint64
  sfixed64 : IsSigned64 FieldType.type_sfixed64

-- The object that a field of a type gives back after it was set to an object.
pub data ReadsBack {Float Double : Type 0} (floats : Floats Float Double) (py : Python Double)
    : FieldType → py.Object → py.Object → Type 0 where
  as_int32 :
      {t : FieldType} {o : py.Object} {z : ℤ}
      → IsSigned32 t
      → py.long_as_long o ≡ (z, none)
      → IsInt32 z
      → ReadsBack floats py t o (py.long_from_long z)
  as_int64 :
      {t : FieldType} {o : py.Object} {z : ℤ}
      → IsSigned64 t
      → py.long_as_long_long o ≡ (z, none)
      → ReadsBack floats py t o (py.long_from_long_long z)
  as_uint32 :
      {o : py.Object} {n : ℕ}
      → py.long_as_unsigned_long o ≡ (n, none)
      → n < 2 ^ 32
      → ReadsBack floats py FieldType.type_uint32 o (py.long_from_unsigned_long n)
  as_uint64 :
      {o : py.Object} {n : ℕ}
      → py.long_as_unsigned_long_long o ≡ (n, none)
      → ReadsBack floats py FieldType.type_uint64 o (py.long_from_unsigned_long_long n)
  as_double :
      {o : py.Object} {d : Double}
      → py.float_as_double o ≡ (d, none)
      → ReadsBack floats py FieldType.type_double o (py.float_from_double d)
  as_float :
      {o : py.Object} {d : Double}
      → py.float_as_double o ≡ (d, none)
      → ReadsBack floats py FieldType.type_float o
          (py.float_from_double (floats.widen (floats.narrow d)))
  as_true :
      {o : py.Object}
      → py.is_same o py.py_true ≡ true
      → ReadsBack floats py FieldType.type_bool o py.py_true
  -- Whatever is not the object `True`, `1` and a text too.
  as_false :
      {o : py.Object}
      → py.is_same o py.py_true ≡ false
      → ReadsBack floats py FieldType.type_bool o py.py_false
  as_bytes :
      {o : py.Object} {bs : Bytes}
      → py.get_buffer o ≡ some bs
      → ReadsBack floats py FieldType.type_bytes o (py.bytes_from_string_and_size bs)
  -- A text, up to its first null character.
  as_string :
      {o o' : py.Object} {bs : Bytes}
      → py.unicode_as_utf8 o ≡ (some bs, none)
      → py.unicode_from_string (c_string [] bs) ≡ (some o', none)
      → ReadsBack floats py FieldType.type_string o o'

c_string-c_string : (bs : Bytes) → c_string [] (c_string [] bs) ≡ c_string [] bs
unfolding c_string
c_string-c_string [] = refl
c_string-c_string (b ∷ bs) = elim (Bool-cases (b == 0)) [
  | inl null ↦ rw null refl
  | inr char ↦ rw (char, char) (ap (◌∷◌ b) (c_string-c_string bs))
]

module _ {Float Double : Type 0} (floats : Floats Float Double) (r : Reflection Float Double)
    (py : Python Double) (laws : IsReflection r) where
  module _ (p : r.Pointer) (name : Bytes) (f : r.Field) (w : World r)
      (live : r.is_live w.heap p ≡ true)
      (found : r.find_field_by_name (r.descriptor p) name ≡ some f)
      (single : r.is_repeated f ≡ false) where
    -- An assignment, and the reading of what it wrote.
    abbrev Reads :
        (World r → Ran (World r))
        → (World r → Ran (Option py.Object × World r))
        → py.Object
        → Type 0
    Reads set get o =
        (w' : World r) × (set w ≡ done w') × (get w' ≡ done (some o, w')) × (w'.raised ≡ w.raised)

    -- A value is put and got by the accessors of one C++ type.
    through :
        (c : CppType) (v : CppValue Float Double c) (make : CppValue Float Double c → py.Object)
        → cpp_type_of (r.field_type f) ≡ c
        → is_scalar c ≡ true
        → Reads
            (λ w. map_ran (r.set c w.heap p f v) (stored floats r py w none))
            (λ w. map_ran (r.get c w.heap p f) (λ v. (some (make v), w)))
            (make v)
    through c v make ty scalar =
        let (h', put, got) = laws.set_get c w.heap p name f v live found single ty scalar in
        (record w { heap = h' }, rw put refl, rw got refl, refl)

    int32-Reads :
        (o : py.Object) (z : ℤ)
        → cpp_type_of (r.field_type f) ≡ CppType.cpp_int32
        → py.long_as_long o ≡ (z, none)
        → IsInt32 z
        → Reads
            (set_int32 floats r py (from_message r p) f o)
            (λ w.
              map_ran (r.get CppType.cpp_int32 w.heap p f) (λ v. (some (py.long_from_long v), w)))
            (py.long_from_long z)
    unfolding set_int32 from_message
    int32-Reads o z ty conv fits =
        rw (conv, to_int32-id z fits) (through CppType.cpp_int32 z py.long_from_long ty refl)

    int64-Reads :
        (o : py.Object) (z : ℤ)
        → cpp_type_of (r.field_type f) ≡ CppType.cpp_int64
        → py.long_as_long_long o ≡ (z, none)
        → Reads
            (set_int64 floats r py (from_message r p) f o)
            (λ w.
              map_ran
                (r.get CppType.cpp_int64 w.heap p f)
                (λ v. (some (py.long_from_long_long v), w)))
            (py.long_from_long_long z)
    unfolding set_int64 from_message
    int64-Reads o z ty conv = rw conv (through CppType.cpp_int64 z py.long_from_long_long ty refl)

    string-Reads :
        (o o' : py.Object) (bs : Bytes)
        → r.field_type f ≡ FieldType.type_string
        → py.unicode_as_utf8 o ≡ (some bs, none)
        → py.unicode_from_string (c_string [] bs) ≡ (some o', none)
        → Reads
            (set_string floats r py (from_message r p) f o)
            (get_field floats r py (from_message r p) f FieldType.type_string)
            o'
    unfolding set_string get_field from_message
    string-Reads o o' bs ty conv made =
        let (h', put, got) =
          laws.set_get CppType.cpp_string w.heap p name f (c_string [] bs) live found single
            (ap cpp_type_of ty) refl in
        (
          record w { heap = h' },
          rw (conv, put) refl,
          rw (got, c_string-c_string bs, made) refl,
          refl,
        )

    abbrev ReadsField : FieldType → py.Object → py.Object → Type 0
    ReadsField t o o' =
        Reads (set_field floats r py (from_message r p) f t o)
          (get_field floats r py (from_message r p) f t) o'

    reads :
        {t : FieldType} {o o' : py.Object}
        → r.field_type f ≡ t
        → ReadsBack floats py t o o'
        → ReadsField t o o'
    unfolding set_field get_field from_message to_uint32
    reads ty (as_int32 int32 conv fits) = int32-Reads _ _ (ap cpp_type_of ty) conv fits
    reads ty (as_int32 sint32 conv fits) = int32-Reads _ _ (ap cpp_type_of ty) conv fits
    reads ty (as_int32 sfixed32 conv fits) = int32-Reads _ _ (ap cpp_type_of ty) conv fits
    reads ty (as_int64 int64 conv) = int64-Reads _ _ (ap cpp_type_of ty) conv
    reads ty (as_int64 sint64 conv) = int64-Reads _ _ (ap cpp_type_of ty) conv
    reads ty (as_int64 sfixed64 conv) = int64-Reads _ _ (ap cpp_type_of ty) conv
    reads ty (as_uint32 {n = n} conv fits) =
        let same : n % 2 ^ 32 ≡ n = ground (arith, fits) in
        rw (conv, same)
          (through CppType.cpp_uint32 n py.long_from_unsigned_long (ap cpp_type_of ty) refl)
    reads ty (as_uint64 conv) =
        rw conv
          (through CppType.cpp_uint64 _ py.long_from_unsigned_long_long (ap cpp_type_of ty) refl)
    reads ty (as_double conv) =
        rw conv (through CppType.cpp_double _ py.float_from_double (ap cpp_type_of ty) refl)
    reads ty (as_float conv) = rw conv (
        through CppType.cpp_float _ (λ v. py.float_from_double (floats.widen v)) (ap cpp_type_of ty)
          refl)
    reads ty (as_true same) = rw same (
        through CppType.cpp_bool true (λ v. if v then py.py_true else py.py_false)
          (ap cpp_type_of ty) refl)
    reads ty (as_false other) = rw other (
        through CppType.cpp_bool false (λ v. if v then py.py_true else py.py_false)
          (ap cpp_type_of ty) refl)
    reads ty (as_bytes conv) =
        rw conv
          (through CppType.cpp_string _ py.bytes_from_string_and_size (ap cpp_type_of ty) refl)
    reads ty (as_string conv made) = string-Reads _ _ _ ty conv made

    -- Let a field that is not repeated be found in a message that is there, and let the object be one
    -- that the field can give back: an `int` in the range of the field's type, a text, bytes, a float,
    -- or any object for a field of type bool. Then `__setattr__` returns, sets no error, and
    -- `__getattr__` returns the object that `ReadsBack` names: the same number; the same bytes; the
    -- text up to its first null character; the double that the field can hold; and of a bool, whether
    -- the object was `True` itself.
    pub set_attr-get_attr :
        (o o' : py.Object)
        → ReadsBack floats py (r.field_type f) o o'
        → (w' : World r) × (set_attr floats r py (from_message r p) name o w ≡ done w')
          × (get_attr floats r py (from_message r p) name w' ≡ done (some o', w'))
          × (w'.raised ≡ w.raised)
    unfolding set_attr get_attr from_message
    set_attr-get_attr o o' back =
        let (w', put, got, same) = reads refl back in
        (w', rw (found, set_attr) put, rw (found, get_attr) got, same)
