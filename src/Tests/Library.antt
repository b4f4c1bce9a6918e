-- ===== src/Tests/Library.antt =====
-- A small library of messages: one value and one list, whatever the field.
use lib_arcus.Prelude.{
  ℕ, suc, ltb, ◌≡◌, refl, ap, ◌∙◌, sym, ◌==◌, ==-refl, eq_of_beq, Bool, true, false, Option, some,
  none, Bytes, text, [], ◌∷◌, ℤ, pos, if◌then◌else◌, arith,
}
use lib_arcus.Reflection.{
  FieldType, CppType, CppValue, fatal, undefined, done, Reflection, IsReflection, cpp_type_of,
}

abbrev code : CppType → ℕ
code CppType.cpp_int32 = 0
code CppType.cpp_int64 = 1
code CppType.cpp_uint32 = 2
code CppType.cpp_uint64 = 3
code CppType.cpp_double = 4
code CppType.cpp_float = 5
code CppType.cpp_bool = 6
code CppType.cpp_enum = 7
code CppType.cpp_string = 8
code CppType.cpp_message = 9

abbrev decode : ℕ → CppType
decode n =
    if n == 0
    then CppType.cpp_int32
    else if n == 1
    then CppType.cpp_int64
    else if n == 2
    then CppType.cpp_uint32
    else if n == 3
    then CppType.cpp_uint64
    else if n == 4
    then CppType.cpp_double
    else if n == 5
    then CppType.cpp_float
    else if n == 6
    then CppType.cpp_bool
    else if n == 7
    then CppType.cpp_enum
    else if n == 8
    then CppType.cpp_string
    else CppType.cpp_message

decode-code : (c : CppType) → decode (code c) ≡ c
decode-code CppType.cpp_int32 = refl
decode-code CppType.cpp_int64 = refl
decode-code CppType.cpp_uint32 = refl
decode-code CppType.cpp_uint64 = refl
decode-code CppType.cpp_double = refl
decode-code CppType.cpp_float = refl
decode-code CppType.cpp_bool = refl
decode-code CppType.cpp_enum = refl
decode-code CppType.cpp_string = refl
decode-code CppType.cpp_message = refl

abbrev same : CppType → CppType → Bool
same c d = code c == code d

eq_of_same : (c d : CppType) → same c d ≡ true → c ≡ d
eq_of_same c d h = sym (decode-code c) ∙ ap decode (eq_of_beq (code c) (code d) h) ∙ decode-code d

pub data Value : Type 0 where
  integer : ℤ → Value
  natural : ℕ → Value
  flag : Bool → Value
  bytes : Bytes → Value

abbrev pack : (c : CppType) → CppValue ℕ ℕ c → Value
pack CppType.cpp_int32 v = integer v
pack CppType.cpp_int64 v = integer v
pack CppType.cpp_uint32 v = natural v
pack CppType.cpp_uint64 v = natural v
pack CppType.cpp_double v = natural v
pack CppType.cpp_float v = natural v
pack CppType.cpp_bool v = flag v
pack CppType.cpp_enum v = integer v
pack CppType.cpp_string v = bytes v
pack CppType.cpp_message v = natural v

abbrev to_integer : Value → ℤ
to_integer (integer z) = z
to_integer _ = pos 0

abbrev to_natural : Value → ℕ
to_natural (natural n) = n
to_natural _ = 0

abbrev to_flag : Value → Bool
to_flag (flag b) = b
to_flag _ = false

abbrev to_bytes : Value → Bytes
to_bytes (bytes bs) = bs
to_bytes _ = []

abbrev unpack : (c : CppType) → Value → CppValue ℕ ℕ c
unpack CppType.cpp_int32 v = to_integer v
unpack CppType.cpp_int64 v = to_integer v
unpack CppType.cpp_uint32 v = to_natural v
unpack CppType.cpp_uint64 v = to_natural v
unpack CppType.cpp_double v = to_natural v
unpack CppType.cpp_float v = to_natural v
unpack CppType.cpp_bool v = to_flag v
unpack CppType.cpp_enum v = to_integer v
unpack CppType.cpp_string v = to_bytes v
unpack CppType.cpp_message v = to_natural v

unpack-pack : (c : CppType) (v : CppValue ℕ ℕ c) → unpack c (pack c v) ≡ v
unpack-pack CppType.cpp_int32 v = refl
unpack-pack CppType.cpp_int64 v = refl
unpack-pack CppType.cpp_uint32 v = refl
unpack-pack CppType.cpp_uint64 v = refl
unpack-pack CppType.cpp_double v = refl
unpack-pack CppType.cpp_float v = refl
unpack-pack CppType.cpp_bool v = refl
unpack-pack CppType.cpp_enum v = refl
unpack-pack CppType.cpp_string v = refl
unpack-pack CppType.cpp_message v = refl

-- One value and one list of messages, whatever the field and the message.
pub record Memory : Type 0 where
  pub value : Value
  pub size : ℕ

pub record Field : Type 0 where
  pub type : FieldType
  pub repeated : Bool

-- The fields count, mask, items and tone.
abbrev fields : Bytes → Option Field
fields [] = none
fields (b ∷ bs) =
    if b == 99
    then some (record { type = FieldType.type_int32; repeated = false })
    else if b == 109
    then some (record { type = FieldType.type_fixed32; repeated = false })
    else if b == 105
    then some (record { type = FieldType.type_message; repeated = true })
    else if b == 116
    then some (record { type = FieldType.type_enum; repeated = false })
    else none

abbrev pub messages : Reflection ℕ ℕ
messages = record {
  Heap = Memory;
  Pointer = ℕ;
  Descriptor = ℕ;
  Field = Field;
  EnumValue = ℤ;
  descriptor = λ p. 0;
  type_name = λ p. text "Sample";
  is_live = λ h p. true;
  find_field_by_name = λ d name. fields name;
  find_enum_value_by_name = λ d name. some (pos 2);
  field_type = λ f. f.type;
  is_repeated = λ f. f.repeated;
  enum_number = λ e. e;
  has_enum_value = λ f e. true;
  get = λ c h p f. if same (cpp_type_of f.type) c then done (unpack c h.value) else fatal;
  set = λ c h p f v.
      if same (cpp_type_of f.type) c then done (record h { value = pack c v }) else fatal;
  set_enum =
      λ h p f e. elim e [ none ↦ undefined | some z ↦ done (record h { value = integer z }) ];
  add_message = λ h p f. done (h.size, record h { size = suc h.size });
  field_size = λ h p f. if f.repeated then done h.size else fatal;
  mutable_message = λ h p f. done (0, h);
  mutable_repeated_message = λ h p f i. if ltb i h.size then done i else undefined;
}

sized : (b : Bool) (k n : ℕ) → (if b then done k else fatal) ≡ done n → k ≡ n
sized true k n h = ground (arith, h)
sized false k n h = absurd (ground (arith, h))

pub messages-IsReflection : IsReflection messages
messages-IsReflection = record {
  get_mismatch = λ c h p f other. ground (arith, eq_of_same (cpp_type_of f.type) c, other);
  set_mismatch = λ c h p f v other. ground (arith, eq_of_same (cpp_type_of f.type) c, other);
  set_get = λ c h p name f v live found single ty scalar. (
    record h { value = pack c v },
    rw (ty, ==-refl (code c)) refl,
    rw (ty, ==-refl (code c), unpack-pack c v) refl,
  );
  set_enum_get =
      λ h p name f e live found single ty has. (record h { value = integer e }, refl, rw ty refl);
  element_inside = λ h p name f n i live found list ty size below.
      (let eq = sized f.repeated h.size n size in
        let passed : ltb i h.size ≡ true = ground (arith, eq, below) in (i, rw passed refl));
  element_outside = λ h p name f n i live found list ty size above.
      (let eq = sized f.repeated h.size n size in
        let stopped : ltb i h.size ≡ false = ground (arith, eq, above) in rw stopped refl);
}
