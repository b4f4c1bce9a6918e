-- ===== src/Tests/Python.antt =====
-- Attributes set and read with a small library of messages and a small interpreter.
use lib_arcus.Prelude.{
  ℕ, ◌≡◌, refl, ◌<◌, ◌+◌, ◌^◌, ◌⊎◌, inl, true, false, some, none, text, [], ℤ, pos, negsuc, arith,
}
use lib_arcus.Reflection.{FieldType, fatal, undefined, done, Exception}
use lib_arcus.Connection.Receive.{c_string}
use lib_arcus.PythonMessage.{World, raise, from_message, get_repeated_message, get_enum_value}
use lib_arcus.Integers.{IsInt32, pattern32}
use lib_arcus.PythonMessage.Fields.{get_attr, set_attr}
use lib_arcus.PythonMessage.Fields.RoundTrip.{as_int32, int32, set_attr-get_attr}
use lib_arcus.PythonMessage.Fields.Narrowing.{set_attr-pattern32, set_attr-get_enum_value}
use lib_arcus.PythonMessage.Missing.{fixed-fatal}
use lib_arcus.PythonMessage.Nested.{get_repeated_message-index}
use lib_arcus.Tests.Library.{messages, messages-IsReflection}
use lib_arcus.Tests.Interpreter.{python, floats, sample, world, int, string}

set_attr-get_attr_example :
    (w : World messages) × (set_attr floats messages python sample
        (text "count")
        (int (negsuc 6))
        world
      ≡ done w)
    × (get_attr floats messages python sample (text "count") w ≡ done (some (int (negsuc 6)), w))
    × (w.raised ≡ none)
unfolding text
set_attr-get_attr_example =
    set_attr-get_attr floats messages python messages-IsReflection 0 (text "count")
      (record { type = FieldType.type_int32; repeated = false }) world refl refl refl
      (int (negsuc 6)) (int (negsuc 6)) (as_int32 int32 refl (ground arith))

-- 2 ^ 32 + 5 does not fit, and no error is set.
set_attr-pattern32_example :
    (n : ℤ) × (w : World messages) × IsInt32 n
    × (pattern32 n ≡ pattern32 (pos (2 ^ 32 + 5)))
    × (set_attr floats messages python sample (text "count") (int (pos (2 ^ 32 + 5))) world
        ≡ done w)
    × (w.raised ≡ none)
    × (get_attr floats messages python sample (text "count") w ≡ done (some (int n), w))
unfolding text
set_attr-pattern32_example =
    set_attr-pattern32 floats messages python messages-IsReflection 0 (text "count")
      (record { type = FieldType.type_int32; repeated = false }) (int (pos (2 ^ 32 + 5)))
      (pos (2 ^ 32 + 5)) none world refl refl refl int32 refl

set_attr-get_enum_value_example :
    (w : World messages) × (set_attr floats messages python sample
        (text "tone")
        (string (text "LOUD"))
        world
      ≡ done w)
    × (w.raised ≡ none)
    × (get_attr floats messages python sample (text "tone") w
        ≡ done (some (int (get_enum_value messages sample (c_string [] (text "LOUD")))), w))
unfolding text
set_attr-get_enum_value_example =
    set_attr-get_enum_value floats messages python messages-IsReflection 0 (text "tone")
      (record { type = FieldType.type_enum; repeated = false }) (string (text "LOUD")) (text "LOUD")
      (pos 2) world refl refl refl refl refl refl refl refl

fixed-fatal_example :
    (get_attr floats messages python sample (text "mask") world ≡ fatal)
    × (set_attr floats messages python sample (text "mask") (int (pos 1)) world ≡ fatal)
unfolding from_message text
fixed-fatal_example =
    fixed-fatal floats messages python messages-IsReflection sample (text "mask")
      (record { type = FieldType.type_fixed32; repeated = false }) (int (pos 1)) world refl
      (inl refl)

-- The index is the size.
get_repeated_message-index_example :
    ((i : ℕ) × (q : ℕ) × (pos 2 ≡ pos i)
      × (i < 2)
      × (messages.mutable_repeated_message world.heap 0
            (record { type = FieldType.type_message; repeated = true })
            i
          ≡ done q)
      × (get_repeated_message messages sample (text "items") (pos 2) world
          ≡ done (some (from_message messages q), world)))
    ⊎ ((pos 2 ≡ pos 2)
        × (get_repeated_message messages sample (text "items") (pos 2) world ≡ undefined))
    ⊎ (((i : ℕ) → pos 2 ≡ pos i → 2 < i)
        × (get_repeated_message messages sample (text "items") (pos 2) world
            ≡ done (none, raise messages Exception.index_error (c_string [] (text "items")) world)))
unfolding text
get_repeated_message-index_example =
    get_repeated_message-index messages messages-IsReflection 0 (text "items")
      (record { type = FieldType.type_message; repeated = true }) 2 world (pos 2) refl refl refl
      refl refl
