-- ===== src/Error.antt =====
-- src/Error.cpp: the error value that the socket keeps and hands to its listeners.
pub mod Decimal
use lib_arcus.Prelude.{
  ◌++◌, ℕ, zero, Bool, true, false, not, ◌||◌, [], ◌∷◌, Bytes, text, ◌==◌, if◌then◌else◌, ℤ, pos,
  negsuc, is_zero,
}
use lib_arcus.Types.{ErrorCode, error_number}
use Decimal.{to_string, decimal}

pub record Error : Type 0 where
  pub error_code : ErrorCode
  pub error_message : Bytes
  pub fatal_error : Bool
  pub native_error_code : ℤ

-- Error().
unfoldable pub no_error : Error
no_error = record {
  error_code = ErrorCode.unknown_error;
  error_message = [];
  fatal_error = false;
  native_error_code = pos 0;
}

-- Error(error_code, error_message).
unfoldable pub make_error : ErrorCode → Bytes → Error
make_error code message = record {
  error_code = code;
  error_message = message;
  fatal_error = false;
  native_error_code = pos 0;
}

unfoldable pub set_fatal_error : Bool → Error → Error
set_fatal_error fatal e = record e { fatal_error = fatal }

unfoldable pub set_native_error_code : ℤ → Error → Error
set_native_error_code c e = record e { native_error_code = c }

abbrev is_empty : Bytes → Bool
is_empty [] = true
is_empty (_ ∷ _) = false

unfoldable pub is_valid : Error → Bool
is_valid e = not (error_number e.error_code == 0) || not (is_empty e.error_message)

-- Error::toString().
unfoldable pub error_string : Error → Bytes
error_string e =
    (if e.fatal_error then text "Arcus Fatal Error (" else text "Arcus Error (")
    ++ decimal (error_number e.error_code)
    ++ (if not (is_zero e.native_error_code)
        then text ", native " ++ to_string e.native_error_code
        else [])
    ++ text "): "
    ++ e.error_message
