-- ===== src/MessageTypeStore.antt =====
-- src/MessageTypeStore.cpp: the message types that a socket knows, by the hash of their names.
pub mod Laws
pub mod Registry
pub mod Table
use lib_arcus.Prelude.{
  ◌+◌, ◌++◌, ℕ, zero, suc, Bool, true, false, Option, none, some, List, [], ◌∷◌, Bytes, text, ltb,
  if◌then◌else◌,
}
use lib_arcus.Environment.{Os, Log, ImportError, Protobuf}
use lib_arcus.Error.Decimal.{decimal}
use lib_arcus.Hash.{hash}
use Table.{UnorderedMap, find, insert}

-- class ErrorCollector: the text collected so far, and the number of errors in it.
pub record ErrorCollector : Type 0 where
  pub stream : Bytes
  pub error_count : ℕ

unfoldable pub empty_collector : ErrorCollector
empty_collector = record { stream = []; error_count = 0 }

unfoldable pub add_error : ErrorCollector → ImportError → ErrorCollector
add_error c e = record {
  stream =
      c.stream
      ++ text "["
      ++ e.file_name
      ++ text " ("
      ++ decimal e.line
      ++ text ","
      ++ decimal e.column
      ++ text ")] "
      ++ e.message
      ++ text "\n";
  error_count = c.error_count + 1;
}

unfoldable pub add_errors : ErrorCollector → List ImportError → ErrorCollector
unfolding add_error
add_errors c [] = c
add_errors c (e ∷ es) = add_errors (add_error c e) es

-- The source tree and the importer are made together with the collector, and kept with it.
pub record MessageTypeStore (M : Type 0) : Type 0 where
  pub message_types : UnorderedMap M
  pub message_type_mapping : UnorderedMap ℕ
  pub error_collector : Option ErrorCollector
  pub message_factory : Bool

unfoldable pub empty_store : {M : Type 0} → MessageTypeStore M
empty_store = record {
  message_types = [];
  message_type_mapping = [];
  error_collector = none;
  message_factory = false;
}

abbrev is_some {ℓ} : {A : Type ℓ} → Option A → Bool
is_some none = false
is_some (some _) = true

-- The collector that `registerAllMessageTypes` works with, made where there is none yet.
unfoldable pub collector : Option ErrorCollector → ErrorCollector
unfolding empty_collector
collector none = empty_collector
collector (some c) = c

module _ {M : Type 0} (os : Os) (pb : Protobuf M) where
  unfoldable pub has_type : ℕ → MessageTypeStore M → Bool
  has_type type_id s = is_some (find type_id s.message_types)

  unfoldable pub has_type_name : Bytes → MessageTypeStore M → Bool
  unfolding has_type
  has_type_name type_name s = has_type (hash os.char_is_signed type_name) s

  -- `none` is the null pointer.
  unfoldable pub create_message : ℕ → MessageTypeStore M → Option M
  create_message type_id s = elim (find type_id s.message_types) [
    | none ↦ none
    | some prototype ↦ some (pb.new_instance prototype)
  ]

  unfoldable pub create_message_name : Bytes → MessageTypeStore M → Option M
  unfolding create_message
  create_message_name type_name s = create_message (hash os.char_is_signed type_name) s

  unfoldable pub get_message_type_id : M → ℕ
  get_message_type_id message = hash os.char_is_signed (pb.type_name message)

  -- The entry that both ways of registration make.
  unfoldable pub add_type : M → MessageTypeStore M → MessageTypeStore M
  add_type message_type s =
      let type_id = hash os.char_is_signed (pb.type_name message_type) in
      record s {
        message_types = insert type_id message_type s.message_types;
        message_type_mapping = insert (pb.descriptor message_type) type_id s.message_type_mapping;
      }

  unfoldable pub register_message_type : M → MessageTypeStore M → Bool × MessageTypeStore M
  unfolding has_type add_type
  register_message_type message_type s =
      let type_id = hash os.char_is_signed (pb.type_name message_type) in
      if has_type type_id s then (false, s) else (true, add_type message_type s)

  unfoldable pub add_types : List M → MessageTypeStore M → MessageTypeStore M
  unfolding add_type
  add_types [] s = s
  add_types (m ∷ ms) s = add_types ms (add_type m s)

  unfoldable pub register_all_message_types :
      Log → Bytes → MessageTypeStore M → Bool × MessageTypeStore M
  unfolding add_types add_errors
  register_all_message_types h file_name s =
      let imported = pb.import_file h file_name in
      let c = add_errors (collector s.error_collector) imported.errors in
      let s' = record s { error_collector = some c } in
      if ltb 0 c.error_count
      then (false, s')
      else (true, add_types imported.message_types (record s' { message_factory = true }))

-- `none` where the collector is a null pointer.
unfoldable pub get_error_messages : {M : Type 0} → MessageTypeStore M → Option Bytes
get_error_messages s = elim s.error_collector [ none ↦ none | some c ↦ some c.stream ]
