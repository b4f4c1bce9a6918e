-- ===== src/MessageTypeStore/Registry.antt =====
-- What src/MessageTypeStore.cpp promises, as an abstract registry.
use lib_arcus.Prelude.{
  ℕ, ◌≡◌, refl, sym, ap, ◌∙◌, Bool, true, false, not, ◌||◌, Option, some, none, List, [], ◌∷◌, ◌==◌,
  Bytes, if◌then◌else◌, ltb, arith, Bool-cases, inl, inr,
}
use lib_arcus.Environment.{Os, Log, Protobuf, ImportError}
use lib_arcus.MessageTypeStore.{
  MessageTypeStore, ErrorCollector, collector, add_error, add_errors, has_type, create_message,
  empty_collector, get_message_type_id, add_type, add_types, register_message_type,
  register_all_message_types, empty_store,
}
use lib_arcus.MessageTypeStore.Table.{find, find-insert}

-- The two ways of registration.
pub data Registration (M : Type 0) : Type 0 where
  by_hand : M → Registration M
  from_file : Log → Bytes → Registration M

-- The prototypes, the latest first, and whether a file had errors.
pub record Registry (M : Type 0) : Type 0 where
  pub prototypes : List M
  pub failed : Bool

abbrev is_empty : List ImportError → Bool
is_empty [] = true
is_empty (_ ∷ _) = false

or-false : (a b : Bool) → (a || b) ≡ false → a ≡ false
or-false a b e = ground arith

module _ {M : Type 0} (os : Os) (pb : Protobuf M) where
  -- The store's answers to a sequence of registrations.
  registers : Registration M → MessageTypeStore M → Bool × MessageTypeStore M
  registers (by_hand m) s = register_message_type os pb m s
  registers (from_file h file) s = register_all_message_types os pb h file s

  pub registers_all : List (Registration M) → MessageTypeStore M → List Bool × MessageTypeStore M
  unfolding registers
  registers_all [] s = ([], s)
  registers_all (c ∷ cs) s =
      let (done, t) = registers c s in let (results, u) = registers_all cs t in (done ∷ results, u)

  abbrev id_of : M → ℕ
  id_of = get_message_type_id os pb

  -- The latest prototype of a type.
  pub latest : ℕ → List M → Option M
  latest type_id [] = none
  latest type_id (m ∷ ms) = if id_of m == type_id then some m else latest type_id ms

  abbrev is_known : ℕ → List M → Bool
  is_known type_id ms = elim (latest type_id ms) [ none ↦ false | some _ ↦ true ]

  upon : List M → List M → List M
  upon [] l = l
  upon (m ∷ ms) l = upon ms (m ∷ l)

  -- By hand a type is registered once. A file without errors replaces what its types were before, and
  -- after a file with errors no file is taken any more.
  promises : Registration M → Registry M → Bool × Registry M
  unfolding latest upon
  promises (by_hand m) r =
      if is_known (id_of m) r.prototypes
      then (false, r)
      else (true, record r { prototypes = m ∷ r.prototypes })
  promises (from_file h file) r =
      let imported = pb.import_file h file in
      if r.failed || not (is_empty imported.errors)
      then (false, record r { failed = true })
      else (true, record r { prototypes = upon imported.message_types r.prototypes })

  pub promises_all : List (Registration M) → Registry M → List Bool × Registry M
  unfolding promises
  promises_all [] r = ([], r)
  promises_all (c ∷ cs) r =
      let (done, q) = promises c r in let (results, p) = promises_all cs q in (done ∷ results, p)

  record Implements (r : Registry M) (s : MessageTypeStore M) : Type 0 where
    finds : (type_id : ℕ) → find type_id s.message_types ≡ latest type_id r.prototypes
    fails : ltb 0 (collector s.error_collector).error_count ≡ r.failed

  add_type-finds :
      (m : M) (s : MessageTypeStore M) (l : List M)
      → ((j : ℕ) → find j s.message_types ≡ latest j l)
      → (j : ℕ) → find j (add_type os pb m s).message_types ≡ latest j (m ∷ l)
  unfolding add_type latest get_message_type_id
  add_type-finds m s l h j = ground (arith, find-insert j (id_of m) m s.message_types, h j)

  add_types-finds :
      (ms : List M) (s : MessageTypeStore M) (l : List M)
      → ((j : ℕ) → find j s.message_types ≡ latest j l)
      → (j : ℕ) → find j (add_types os pb ms s).message_types ≡ latest j (upon ms l)
  unfolding add_types upon
  add_types-finds [] s l h j = h j
  add_types-finds (m ∷ ms) s l h j =
      add_types-finds ms (add_type os pb m s) (m ∷ l) (add_type-finds m s l h) j

  add_types-collector :
      (ms : List M) (s : MessageTypeStore M)
      → (add_types os pb ms s).error_collector ≡ s.error_collector
  unfolding add_types add_type
  add_types-collector [] s = refl
  add_types-collector (m ∷ ms) s = add_types-collector ms (add_type os pb m s)

  add_errors-fails :
      (c : ErrorCollector) (es : List ImportError)
      → ltb 0 (add_errors c es).error_count ≡ (ltb 0 c.error_count || not (is_empty es))
  unfolding add_errors add_error
  add_errors-fails c [] = ground arith
  add_errors-fails c (e ∷ es) = ground (arith, add_errors-fails (add_error c e) es)

  abbrev Keeps : Registration M → Registry M → MessageTypeStore M → Type 0
  Keeps c r s =
      ((registers c s).0 ≡ (promises c r).0) × Implements (promises c r).1 (registers c s).1

  by_hand-Keeps :
      (m : M) (r : Registry M) (s : MessageTypeStore M) → Implements r s → Keeps (by_hand m) r s
  unfolding registers promises register_message_type has_type get_message_type_id
  by_hand-Keeps m r s h =
      let known : has_type os pb (id_of m) s ≡ is_known (id_of m) r.prototypes =
        ground (arith, h.finds (id_of m)) in
      elim (Bool-cases (is_known (id_of m) r.prototypes)) [
        | inl taken ↦ rw (known, taken) (refl, h)
        | inr free ↦
            rw (known, free)
              (refl, record { finds = add_type-finds m s r.prototypes h.finds; fails = h.fails })
      ]

  from_file-Keeps :
      (at_log : Log) (file : Bytes) (r : Registry M) (s : MessageTypeStore M)
      → Implements r s
      → Keeps (from_file at_log file) r s
  unfolding registers promises register_all_message_types collector
  from_file-Keeps at_log file r s h =
      let imported = pb.import_file at_log file in
      let c = add_errors (collector s.error_collector) imported.errors in
      let failing : ltb 0 c.error_count ≡ (r.failed || not (is_empty imported.errors)) =
        add_errors-fails (collector s.error_collector) imported.errors
        ∙ ap (λ b. b || not (is_empty imported.errors)) h.fails in
      let s' = record s { error_collector = some c; message_factory = true } in
      elim (Bool-cases (r.failed || not (is_empty imported.errors))) [
        | inl failed ↦
            rw (failing, failed) (refl, record { finds = h.finds; fails = failing ∙ failed })
        | inr clean ↦
            rw (failing, clean)
              (
                refl,
                record {
                  finds = add_types-finds imported.message_types s' r.prototypes h.finds;
                  fails =
                      ap (λ o. ltb 0 (collector o).error_count)
                        (add_types-collector imported.message_types s')
                      ∙ failing
                      ∙ clean
                      ∙ sym (or-false r.failed _ clean);
                },
              )
      ]

  registers-Keeps :
      (c : Registration M) (r : Registry M) (s : MessageTypeStore M) → Implements r s → Keeps c r s
  registers-Keeps (by_hand m) r s h = by_hand-Keeps m r s h
  registers-Keeps (from_file at_log file) r s h = from_file-Keeps at_log file r s h

  registers_all-Implements :
      (cs : List (Registration M)) (r : Registry M) (s : MessageTypeStore M)
      → Implements r s
      → ((registers_all cs s).0 ≡ (promises_all cs r).0)
        × Implements (promises_all cs r).1 (registers_all cs s).1
  unfolding registers_all promises_all
  registers_all-Implements [] r s h = (refl, h)
  registers_all-Implements (c ∷ cs) r s h =
      let (same, h') = registers-Keeps c r s h in
      let (same', h'') = registers_all-Implements cs (promises c r).1 (registers c s).1 h' in
      (rw (same, same') refl, h'')

  abbrev empty : Registry M
  empty = record { prototypes = []; failed = false }

  -- A store that was made empty answers any sequence of registrations, by hand and from files, as a
  -- registry does that keeps a list of prototypes: by hand a type is registered if its id is not known yet;
  -- a file is taken if it and every file before it had no errors, and its types replace those of the same
  -- ids. And then a message that it creates for an id is an instance of the latest prototype
  -- with this id, or none where there is none.
  pub registers_all-create_message :
      (cs : List (Registration M)) (type_id : ℕ)
      → let (results, s) = registers_all cs empty_store in
        let (promised, r) = promises_all cs empty in
        (results ≡ promised)
        × (create_message os pb type_id s ≡ (elim (latest type_id r.prototypes) [
          | none ↦ none
          | some prototype ↦ some (pb.new_instance prototype)
        ]))
  unfolding empty_store latest empty_collector collector create_message find
  registers_all-create_message cs type_id =
      let (same, h) =
        registers_all-Implements cs empty empty_store
          (record { finds = λ j. refl; fails = refl }) in
      (same, rw (create_message, h.finds type_id) refl)
