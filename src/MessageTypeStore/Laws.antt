-- ===== src/MessageTypeStore/Laws.antt =====
-- What registration does to the tables.
use lib_arcus.Prelude.{
  ℕ, ◌≤◌, ◌<◌, ◌≡◌, refl, ◌∙◌, true, false, not, ◌&&◌, ◌||◌, some, List, [], ◌∷◌, ◌==◌, Bytes,
  if◌then◌else◌, ltb, arith, Bool-cases, inl, inr,
}
use lib_arcus.Environment.{Os, Log, Protobuf, ImportError}
use lib_arcus.MessageTypeStore.{
  MessageTypeStore, ErrorCollector, collector, add_error, add_errors, has_type, create_message,
  get_message_type_id, add_type, register_message_type, register_all_message_types,
}
use lib_arcus.MessageTypeStore.Table.{find-insert}

module _ {M : Type 0} (os : Os) (pb : Protobuf M) where
  abbrev id_of : M → ℕ
  id_of = get_message_type_id os pb

  create_message-add_type :
      (m : M) (s : MessageTypeStore M) (j : ℕ)
      → create_message os pb j (add_type os pb m s)
        ≡ (if id_of m == j then some (pb.new_instance m) else create_message os pb j s)
  unfolding create_message add_type get_message_type_id
  create_message-add_type m s j = elim (Bool-cases (id_of m == j)) [
    | inl same ↦ rw (find-insert j (id_of m) m s.message_types, same, create_message)
    | inr other ↦ rw (find-insert j (id_of m) m s.message_types, other, create_message)
  ]

  has_type-add_type :
      (m : M) (s : MessageTypeStore M) (j : ℕ)
      → has_type os pb j (add_type os pb m s) ≡ ((id_of m == j) || has_type os pb j s)
  unfolding has_type add_type get_message_type_id
  has_type-add_type m s j = rw (find-insert j (id_of m) m s.message_types) (ground arith)

  -- `registerMessageType` succeeds just where the type's id is not taken; then messages of the type
  -- can be created, and those of all other types as before. Where it fails nothing changes.
  pub register_message_type_cases :
      (m : M) (s : MessageTypeStore M) (j : ℕ)
      → let (done, t) = register_message_type os pb m s in
        (done ≡ not (has_type os pb (id_of m) s))
        × (create_message os pb j t ≡ (
            if done && (id_of m == j) then some (pb.new_instance m) else create_message os pb j s))
        × (if done then Unit {0} else (t ≡ s))
  unfolding register_message_type get_message_type_id
  register_message_type_cases m s j = elim (Bool-cases (has_type os pb (id_of m) s)) [
    | inl taken ↦ rw taken (refl, refl, refl)
    | inr free ↦ rw free (refl, create_message-add_type m s j, tt)
  ]

  add_errors-count :
      (c : ErrorCollector) (es : List ImportError) → c.error_count ≤ (add_errors c es).error_count
  unfolding add_errors add_error
  add_errors-count c [] = omega arith
  add_errors-count c (e ∷ es) = omega (arith, add_errors-count (add_error c e) es)

  -- A store whose collector has counted an error.
  abbrev HasFailed : MessageTypeStore M → Type 0
  HasFailed s = 0 < (collector s.error_collector).error_count

  register_all_message_types-refuses :
      (h : Log) (file : Bytes) (s : MessageTypeStore M)
      → HasFailed s
      → let (done, t) = register_all_message_types os pb h file s in
        (done ≡ false) × (t.message_types ≡ s.message_types)
  unfolding register_all_message_types
  register_all_message_types-refuses h file s failed =
      let c = collector s.error_collector in
      let es = (pb.import_file h file).errors in
      let counted : ltb 0 (add_errors c es).error_count ≡ true =
        ground (arith, add_errors-count c es) in
      rw counted (refl, refl)

  register_all_message_types-fails :
      (h : Log) (file : Bytes) (s : MessageTypeStore M)
      → let (done, t) = register_all_message_types os pb h file s in
        done ≡ false → HasFailed t × (t.message_types ≡ s.message_types)
  unfolding register_all_message_types collector
  register_all_message_types-fails h file s =
      let c = add_errors (collector s.error_collector) (pb.import_file h file).errors in
      elim (Bool-cases (ltb 0 c.error_count)) [
        | inl failed ↦
            let some_error : 0 < c.error_count = ground arith in rw failed (λ e. (some_error, refl))
        | inr clean ↦ rw clean (λ e. absurd cc)
      ]

  -- Once `registerAllMessageTypes` has failed, it fails for every file from then on, and no message
  -- type is added by either call.
  pub register_all_message_types_sticky :
      (h h' : Log) (file file' : Bytes) (s : MessageTypeStore M)
      → (register_all_message_types os pb h file s).0 ≡ false
      → let t = (register_all_message_types os pb h file s).1 in
        let (done, u) = register_all_message_types os pb h' file' t in
        (done ≡ false) × (u.message_types ≡ s.message_types)
  register_all_message_types_sticky h h' file file' s failed =
      let (has_failed, same) = register_all_message_types-fails h file s failed in
      let (again, same') = register_all_message_types-refuses h' file' _ has_failed in
      (again, same' ∙ same)
