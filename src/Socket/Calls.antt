-- ===== src/Socket/Calls.antt =====
-- What the methods of src/Socket.cpp that import types and remove listeners do to the connection.
use lib_arcus.Prelude.{
  ℕ, ◌≡◌, refl, ◌⊎◌, inl, inr, Bool-cases, Option-cases, some, Bytes, text, arith, List, [], ◌∷◌,
}
use lib_arcus.Types.{SocketState, ErrorCode}
use lib_arcus.Environment.{Os, Event, Protobuf}
use lib_arcus.PlatformSocket.{happens}
use lib_arcus.MessageTypeStore.{MessageTypeStore}
use lib_arcus.MessageTypeStore
use lib_arcus.Connection.{Connection, error}
use lib_arcus.Socket.{not_initial, remove_listener, register_all_message_types, messages_of}
use lib_arcus.Socket.Listeners.{erase_first}

module _ {M : Type 0} where
  -- The states, the thread and the receive queue are the same.
  abbrev pub Kept : Connection M → Connection M → Type 0
  Kept s t =
      (t.state ≡ s.state)
      × (t.next_state ≡ s.next_state)
      × (t.thread ≡ s.thread)
      × (t.receive_queue ≡ s.receive_queue)

  pub error-Kept : (code : ErrorCode) (why : Bytes) (s : Connection M) → Kept s (error code why s)
  unfolding error
  error-Kept code why s = (refl, refl, refl, refl)

  pub remove_listener-cases :
      (l : ℕ) (s t : Connection M)
      → remove_listener l s ≡ some t
      → (t ≡ error ErrorCode.invalid_state_error (text "Socket is not in initial state") s)
        ⊎ ((rest : List ℕ) × (t ≡ record s { listeners = rest }))
  unfolding remove_listener
  remove_listener-cases l s t e = elim (Bool-cases (not_initial s)) [
    | inl up ↦ inl (ground (arith, e, up))
    | inr fresh ↦ elim (Option-cases (erase_first l s.listeners)) [
      | inl gone ↦ absurd (ground (arith, e, fresh, gone))
      | inr (rest, there) ↦ inr (rest, ground (arith, e, fresh, there))
    ]
  ]

  pub remove_listener-Kept : (l : ℕ) (s t : Connection M) → remove_listener l s ≡ some t → Kept s t
  remove_listener-Kept l s t e = elim (remove_listener-cases l s t e) [
    | inl failed ↦ rw failed (error-Kept _ _ s)
    | inr (rest, gone) ↦ rw gone (refl, refl, refl, refl)
  ]

  module _ (os : Os) (pb : Protobuf M) where
    -- The connection with the file imported into a store.
    abbrev pub imported : Bytes → MessageTypeStore M → Connection M → Connection M
    imported file_name store s = record s {
      message_types = store;
      platform_socket = happens (Event.import_file file_name) s.platform_socket;
    }

    pub register_all-cases :
        (file_name : Bytes) (s : Connection M)
        → let t = (register_all_message_types os pb file_name s).1 in
          let code = ErrorCode.message_registration_failed_error in
          ((why : Bytes) × (t ≡ error code why s))
          ⊎ ((s.state ≡ SocketState.initial)
              × (store : MessageTypeStore M) × ((t ≡ imported file_name store s)
                  ⊎ ((why : Bytes) × (t ≡ error code why (imported file_name store s)))))
    unfolding register_all_message_types
    register_all-cases [] s = inl (_, refl)
    register_all-cases (b ∷ bs) s = elim (Bool-cases (not_initial s)) [
      | inl up ↦ inl (text "Socket is not in initial state", simp up refl)
      | inr fresh ↦
          let (done, store) =
            MessageTypeStore.register_all_message_types os pb s.platform_socket.log (b ∷ bs)
              s.message_types in
          inr (
            ground (arith, fresh),
            store,
            elim (Bool-cases done) [
              | inl well ↦ inl (simp (fresh, well) refl)
              | inr failed ↦ inr (
                messages_of os pb (MessageTypeStore.get_error_messages store),
                simp (fresh, failed) refl,
              )
            ],
          )
    ]

    pub register_all-Kept :
        (file_name : Bytes) (s : Connection M)
        → Kept s (register_all_message_types os pb file_name s).1
    register_all-Kept file_name s = elim (register_all-cases file_name s) [
      | inl (why, failed) ↦ rw failed (error-Kept _ why s)
      | inr (fresh, store, inl well) ↦ rw well (refl, refl, refl, refl)
      | inr (fresh, store, inr (why, failed)) ↦
          rw failed (error-Kept _ why (imported file_name store s))
    ]
