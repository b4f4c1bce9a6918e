-- ===== src/Reflection.antt =====
-- What python/PythonMessage.cpp calls and does not implement: the reflection interface of Protocol
-- Buffers, the Python C API, and the conversions between `float` and `double`.
use lib_arcus.Prelude.{ℕ, ◌≡◌, ◌≢◌, ◌<◌, ◌≤◌, Bool, true, false, Option, some, Bytes, ℤ}

-- google::protobuf::FieldDescriptor::Type
pub data FieldType : Type 0 where
  type_double type_float type_int64 type_uint64 type_int32 type_fixed64 type_fixed32 : FieldType
  type_bool type_string type_group type_message type_bytes type_uint32 type_enum : FieldType
  type_sfixed32 type_sfixed64 type_sint32 type_sint64 : FieldType

-- google::protobuf::FieldDescriptor::CppType
pub data CppType : Type 0 where
  cpp_int32 cpp_int64 cpp_uint32 cpp_uint64 cpp_double cpp_float cpp_bool cpp_enum : CppType
  cpp_string cpp_message : CppType

-- The values that the accessors of a C++ type take and give. An enumerator is its number; no
-- accessor of this family reads a message.
abbrev pub CppValue : (Float Double : Type 0) → CppType → Type 0
CppValue Float Double CppType.cpp_int32 = ℤ
CppValue Float Double CppType.cpp_int64 = ℤ
CppValue Float Double CppType.cpp_uint32 = ℕ
CppValue Float Double CppType.cpp_uint64 = ℕ
CppValue Float Double CppType.cpp_double = Double
CppValue Float Double CppType.cpp_float = Float
CppValue Float Double CppType.cpp_bool = Bool
CppValue Float Double CppType.cpp_enum = ℤ
CppValue Float Double CppType.cpp_string = Bytes
CppValue Float Double CppType.cpp_message = ℕ

-- The outcome of a call: the library's check ends the process, the behaviour is undefined, or the
-- call returns.
pub data Ran {ℓ} (A : Type ℓ) : Type ℓ where
  fatal undefined : Ran A
  done : A → Ran A

pub record Floats (Float Double : Type 0) : Type 0 where
  pub widen : Float → Double
  pub narrow : Double → Float

-- The memory with all messages, addresses of messages, and descriptors.
pub record Reflection (Float Double : Type 0) : Type 1 where
  pub Heap : Type 0
  pub Pointer : Type 0
  pub Descriptor : Type 0
  pub Field : Type 0
  pub EnumValue : Type 0
  pub descriptor : Pointer → Descriptor
  pub type_name : Pointer → Bytes
  pub is_live : Heap → Pointer → Bool
  pub find_field_by_name : Descriptor → Bytes → Option Field
  pub find_enum_value_by_name : Descriptor → Bytes → Option EnumValue
  pub field_type : Field → FieldType
  pub is_repeated : Field → Bool
  pub enum_number : EnumValue → ℤ
  -- Whether the enumerator is one of the field's enumeration.
  pub has_enum_value : Field → EnumValue → Bool
  -- `GetInt32`, `GetFloat`, ..., by the C++ type in the name, and `GetEnumValue`
  pub get : (c : CppType) → Heap → Pointer → Field → Ran (CppValue Float Double c)
  pub set : (c : CppType) → Heap → Pointer → Field → CppValue Float Double c → Ran Heap
  -- `SetEnum`; `none` is the null pointer.
  pub set_enum : Heap → Pointer → Field → Option EnumValue → Ran Heap
  pub add_message : Heap → Pointer → Field → Ran (Pointer × Heap)
  pub field_size : Heap → Pointer → Field → Ran ℕ
  pub mutable_message : Heap → Pointer → Field → Ran (Pointer × Heap)
  pub mutable_repeated_message : Heap → Pointer → Field → ℕ → Ran Pointer

pub data Exception : Type 0 where
  attribute_error index_error value_error type_error overflow_error unicode_error : Exception

-- The error indicator of the interpreter, where it is set.
pub record Raised : Type 0 where
  pub exception : Exception
  pub message : Bytes

-- Python's objects. A conversion gives the error that it sets, with the value that it returns then.
pub record Python (Double : Type 0) : Type 1 where
  pub Object : Type 0
  pub py_true : Object
  pub py_false : Object
  -- `==` of the addresses.
  pub is_same : Object → Object → Bool
  pub float_from_double : Double → Object
  pub float_as_double : Object → Double × Option Raised
  pub long_from_long : ℤ → Object
  pub long_from_long_long : ℤ → Object
  pub long_from_unsigned_long : ℕ → Object
  pub long_from_unsigned_long_long : ℕ → Object
  pub long_as_long : Object → ℤ × Option Raised
  pub long_as_long_long : Object → ℤ × Option Raised
  pub long_as_unsigned_long : Object → ℕ × Option Raised
  pub long_as_unsigned_long_long : Object → ℕ × Option Raised
  pub bytes_from_string_and_size : Bytes → Object
  pub unicode_from_string : Bytes → Option Object × Option Raised
  pub unicode_check : Object → Bool
  -- The bytes of the text, without the null byte behind them; `none` is the null pointer.
  pub unicode_as_utf8 : Object → Option Bytes × Option Raised
  -- `PyObject_GetBuffer`; `none` where it fails, and leaves the `Py_buffer` as it was.
  pub get_buffer : Object → Option Bytes

-- FieldDescriptor::kTypeToCppTypeMap
abbrev pub cpp_type_of : FieldType → CppType
cpp_type_of FieldType.type_double = CppType.cpp_double
cpp_type_of FieldType.type_float = CppType.cpp_float
cpp_type_of FieldType.type_int64 = CppType.cpp_int64
cpp_type_of FieldType.type_uint64 = CppType.cpp_uint64
cpp_type_of FieldType.type_int32 = CppType.cpp_int32
cpp_type_of FieldType.type_fixed64 = CppType.cpp_uint64
cpp_type_of FieldType.type_fixed32 = CppType.cpp_uint32
cpp_type_of FieldType.type_bool = CppType.cpp_bool
cpp_type_of FieldType.type_string = CppType.cpp_string
cpp_type_of FieldType.type_group = CppType.cpp_message
cpp_type_of FieldType.type_message = CppType.cpp_message
cpp_type_of FieldType.type_bytes = CppType.cpp_string
cpp_type_of FieldType.type_uint32 = CppType.cpp_uint32
cpp_type_of FieldType.type_enum = CppType.cpp_enum
cpp_type_of FieldType.type_sfixed32 = CppType.cpp_int32
cpp_type_of FieldType.type_sfixed64 = CppType.cpp_int64
cpp_type_of FieldType.type_sint32 = CppType.cpp_int32
cpp_type_of FieldType.type_sint64 = CppType.cpp_int64

abbrev pub is_scalar : CppType → Bool
is_scalar CppType.cpp_enum = false
is_scalar CppType.cpp_message = false
is_scalar _ = true

-- What Protocol Buffers documents of these calls, for messages that are there.
pub record IsReflection {Float Double : Type 0} (r : Reflection Float Double) : Type 0 where
  -- An accessor of another C++ type than the field's ends the process.
  pub get_mismatch :
      (c : CppType) (h : r.Heap) (p : r.Pointer) (f : r.Field)
      → cpp_type_of (r.field_type f) ≢ c
      → r.get c h p f ≡ fatal
  pub set_mismatch :
      (c : CppType) (h : r.Heap) (p : r.Pointer) (f : r.Field) (v : CppValue Float Double c)
      → cpp_type_of (r.field_type f) ≢ c
      → r.set c h p f v ≡ fatal
  -- A value that was set in a field of the message is there. An enumeration may refuse a number.
  pub set_get :
      (c : CppType) (h : r.Heap) (p : r.Pointer) (name : Bytes) (f : r.Field)
      (v : CppValue Float Double c)
      → r.is_live h p ≡ true
      → r.find_field_by_name (r.descriptor p) name ≡ some f
      → r.is_repeated f ≡ false
      → cpp_type_of (r.field_type f) ≡ c
      → is_scalar c ≡ true
      → (h' : r.Heap) × (r.set c h p f v ≡ done h') × (r.get c h' p f ≡ done v)
  pub set_enum_get :
      (h : r.Heap) (p : r.Pointer) (name : Bytes) (f : r.Field) (e : r.EnumValue)
      → r.is_live h p ≡ true
      → r.find_field_by_name (r.descriptor p) name ≡ some f
      → r.is_repeated f ≡ false
      → r.field_type f ≡ FieldType.type_enum
      → r.has_enum_value f e ≡ true
      → (h' : r.Heap) × (r.set_enum h p f (some e) ≡ done h')
        × (r.get CppType.cpp_enum h' p f ≡ done (r.enum_number e))
  -- An element of a repeated message field can be had at an index below the size, and at no other.
  pub element_inside :
      (h : r.Heap) (p : r.Pointer) (name : Bytes) (f : r.Field) (n i : ℕ)
      → r.is_live h p ≡ true
      → r.find_field_by_name (r.descriptor p) name ≡ some f
      → r.is_repeated f ≡ true
      → r.field_type f ≡ FieldType.type_message
      → r.field_size h p f ≡ done n
      → i < n
      → (q : r.Pointer) × (r.mutable_repeated_message h p f i ≡ done q)
  pub element_outside :
      (h : r.Heap) (p : r.Pointer) (name : Bytes) (f : r.Field) (n i : ℕ)
      → r.is_live h p ≡ true
      → r.find_field_by_name (r.descriptor p) name ≡ some f
      → r.is_repeated f ≡ true
      → r.field_type f ≡ FieldType.type_message
      → r.field_size h p f ≡ done n
      → n ≤ i
      → r.mutable_repeated_message h p f i ≡ undefined
