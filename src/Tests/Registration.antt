-- ===== src/Tests/Registration.antt =====
-- Registration and hashes of names.
use lib_arcus.Prelude.{
  ℕ, ◌≡◌, refl, true, false, not, some, none, [], ◌∷◌, Bytes, text, if◌then◌else◌, ◌&&◌, ◌==◌,
}
use lib_arcus.Environment.{Protobuf}
use lib_arcus.Hash.{hash}
use lib_arcus.MessageTypeStore.{
  empty_store, collector, add_errors, add_error, has_type, create_message, get_message_type_id,
  register_message_type, register_all_message_types,
}
use lib_arcus.MessageTypeStore.Laws.{register_message_type_cases, register_all_message_types_sticky}
use lib_arcus.MessageTypeStore.Registry.{
  by_hand, from_file, registers_all, promises_all, latest, registers_all-create_message,
}
use lib_arcus.Tests.Demo.{demo_os, demo_pb}

-- The value that the compiled function has.
hash_a : hash true (b'a' ∷ []) ≡ 0xe40c292c
unfolding hash
hash_a = refl

abbrev demo_id : ℕ
demo_id = get_message_type_id (demo_os []) demo_pb []

register_message_type_cases_example :
    let (done, t) = register_message_type (demo_os []) demo_pb [] empty_store in
    (done ≡ not (has_type (demo_os []) demo_pb demo_id empty_store))
    × (create_message (demo_os []) demo_pb 5 t ≡ (
        if done && (demo_id == 5)
        then some (demo_pb.new_instance [])
        else create_message (demo_os []) demo_pb 5 empty_store))
    × (if done then Unit {0} else (t ≡ empty_store))
register_message_type_cases_example =
    register_message_type_cases (demo_os []) demo_pb [] empty_store 5

-- An import that reports an error.
abbrev refusing : Protobuf Bytes
unfolding text
refusing = record demo_pb {
  import_file = λ h f. record {
    errors = record { file_name = f; line = 1; column = 2; message = text "bad" } ∷ [];
    message_types = [];
  };
}

register_all_message_types_sticky_example :
    let t = (register_all_message_types (demo_os []) refusing [] [] empty_store).1 in
    let (done, u) = register_all_message_types (demo_os []) refusing [] (b'f' ∷ []) t in
    (done ≡ false) × (u.message_types ≡ [])
unfolding empty_store register_all_message_types refusing collector add_errors add_error
register_all_message_types_sticky_example =
    register_all_message_types_sticky (demo_os []) refusing [] [] [] (b'f' ∷ []) empty_store refl

-- A type is registered by hand, again, and from a file that has errors.
registers_all-create_message_example :
    let calls = by_hand [] ∷ by_hand [] ∷ from_file [] [] ∷ [] in
    let (results, s) = registers_all (demo_os []) refusing calls empty_store in
    let (promised, r) =
      promises_all (demo_os []) refusing calls (record { prototypes = []; failed = false }) in
    (results ≡ promised)
    × (create_message (demo_os []) refusing demo_id s
        ≡ (elim (latest (demo_os []) refusing demo_id r.prototypes) [
          | none ↦ none
          | some prototype ↦ some (refusing.new_instance prototype)
        ]))
registers_all-create_message_example =
    registers_all-create_message (demo_os []) refusing
      (by_hand [] ∷ by_hand [] ∷ from_file [] [] ∷ []) demo_id
