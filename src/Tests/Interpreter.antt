-- ===== src/Tests/Interpreter.antt =====
-- A small interpreter, and a message in it.
use lib_arcus.Prelude.{
  ℕ, ◌^◌, ◌-◌, Bool, true, false, Option, some, none, Bytes, text, ℤ, pos, negsuc,
}
use lib_arcus.Reflection.{Floats, Exception, Raised, Python}
use lib_arcus.PythonMessage.{PythonMessage, World, from_message}
use lib_arcus.Tests.Library.{messages, natural}

pub data Thing : Type 0 where
  int : ℤ → Thing
  truth : Bool → Thing
  string : Bytes → Thing
  buffer : Bytes → Thing
  real : ℕ → Thing

abbrev wrong_type : Option Raised
wrong_type = some (record { exception = Exception.type_error; message = text "wrong type" })

abbrev int_or_fail : Thing → ℤ × Option Raised
int_or_fail (int z) = (z, none)
int_or_fail _ = (negsuc 0, wrong_type)

abbrev natural_or_fail : Thing → ℕ × Option Raised
natural_or_fail (int (pos n)) = (n, none)
natural_or_fail _ = (2 ^ 64 - 1, wrong_type)

abbrev real_or_fail : Thing → ℕ × Option Raised
real_or_fail (real d) = (d, none)
real_or_fail _ = (0, wrong_type)

abbrev is_true : Thing → Bool
is_true (truth true) = true
is_true _ = false

abbrev is_string : Thing → Bool
is_string (string bs) = true
is_string _ = false

abbrev utf8_or_fail : Thing → Option Bytes × Option Raised
utf8_or_fail (string bs) = (some bs, none)
utf8_or_fail _ = (none, wrong_type)

abbrev contents : Thing → Option Bytes
contents (buffer bs) = some bs
contents _ = none

abbrev pub python : Python ℕ
python = record {
  Object = Thing;
  py_true = truth true;
  py_false = truth false;
  is_same = λ a b. is_true a;
  float_from_double = real;
  float_as_double = real_or_fail;
  long_from_long = int;
  long_from_long_long = int;
  long_from_unsigned_long = λ n. int (pos n);
  long_from_unsigned_long_long = λ n. int (pos n);
  long_as_long = int_or_fail;
  long_as_long_long = int_or_fail;
  long_as_unsigned_long = natural_or_fail;
  long_as_unsigned_long_long = natural_or_fail;
  bytes_from_string_and_size = buffer;
  unicode_from_string = λ bs. (some (string bs), none);
  unicode_check = is_string;
  unicode_as_utf8 = utf8_or_fail;
  get_buffer = contents;
}

abbrev pub floats : Floats ℕ ℕ
floats = record { widen = λ f. f; narrow = λ d. d }

abbrev pub sample : PythonMessage messages
sample = from_message messages 0

abbrev pub world : World messages
world = record { heap = record { value = natural 0; size = 2 }; raised = none }
