-- ===== src/System/Outgoing.antt =====
-- What a socket sends, however its threads interleave.
use lib_arcus.Prelude.{
  ℕ, ◌≡◌, refl, sym, ap, ◌∙◌, ◌⊎◌, inl, inr, true, false, some, List, [], ◌∷◌, ◌++◌, append_assoc,
  append-nil, arith, text, Bytes,
}
use lib_arcus.Types.{SocketState, ErrorCode}
use lib_arcus.Environment.{Os, Protobuf, ShutdownDirection}
use lib_arcus.PlatformSocket.{PlatformSocket}
use lib_arcus.Link.{SendsAll, sent}
use lib_arcus.Connection.{Connection, new_connection}
use lib_arcus.Connection.Receive.Delivery.{log_of}
use lib_arcus.Connection.Receive.Quiet.{Quiet, error-Quiet}
use lib_arcus.Connection.Worker.Farewell.{sent-shutdown, sent-close}
use lib_arcus.Connection.Worker.Moves.{move}
use lib_arcus.Connection.Worker.Moves.Outputs.{
  Output, outputs, messages_in, outputs-append, messages_in-append,
}
use lib_arcus.Connection.Worker.Moves.Writes.{move-Writes}
use lib_arcus.Socket.{
  Taken, taken, waiting, nothing, is_down, reset, clear_error, close_joined, notify_waiting, abort,
}
use lib_arcus.Socket
use lib_arcus.Socket.Calls.{imported, remove_listener-cases, register_all-cases}
use lib_arcus.System.{
  System, Step, works, starts, asks, hands, hands_null, tests, sleeps, stirs, resumes, closes,
  requests, aborts, joins, resets, resets_early, clears, registers, imports, listens, unlistens,
  launches, Reach, made, later, worked, with_conn, takes, decides,
}

-- What was sent since the log was that of `p` are whole packets, and until the other side asks to
-- close, the messages in them and those in the queue are the ones that were handed over.
pub record IsAccounted {M : Type 0} (os : Os) (pb : Protobuf M) (p : PlatformSocket) (y : System M)
    : Type 0 where
  pub wrote : List (Output M)
  pub bytes : sent (log_of y.conn) ≡ sent p.log ++ outputs os pb wrote
  pub kept : (y.conn.received_close ≡ true) ⊎ (messages_in wrote ++ y.conn.send_queue ≡ y.handed)

module _ {M : Type 0} (os : Os) (pb : Protobuf M) where
  abort-Quiet : (s : Connection M) → Quiet s (abort os s)
  unfolding abort
  abort-Quiet s = (
    sent-close os _ ∙ sent-shutdown os s.platform_socket ShutdownDirection.shutdown_both,
    refl,
    inr refl,
  )

  launches-Quiet :
      (wanted : SocketState) (address : Bytes) (port : ℕ) (y : System M)
      → Quiet y.conn (launches os pb wanted address port y).conn
  unfolding launches
  launches-Quiet wanted address port y =
      let q =
        error-Quiet ErrorCode.invalid_state_error (text "Socket is not in initial state") y.conn in
      ground (arith, q)

  launches-handed :
      (wanted : SocketState) (address : Bytes) (port : ℕ) (y : System M)
      → (launches os pb wanted address port y).handed ≡ y.handed
  unfolding launches
  launches-handed wanted address port y = ground arith

  import-Quiet :
      (file_name : Bytes) (s : Connection M)
      → Quiet s (Socket.register_all_message_types os pb file_name s).1
  import-Quiet file_name s = elim (register_all-cases os pb file_name s) [
    | inl (why, failed) ↦ rw failed (error-Quiet _ why s)
    | inr (fresh, store, inl well) ↦ rw well (append-nil _, refl, inr refl)
    | inr (fresh, store, inr (why, failed)) ↦ rw failed (
        let q =
          error-Quiet ErrorCode.message_registration_failed_error why
            (imported os pb file_name store s) in
        (q.0 ∙ append-nil _, q.1, q.2))
  ]

  unlisten-Quiet : (l : ℕ) (s t : Connection M) → Socket.remove_listener l s ≡ some t → Quiet s t
  unlisten-Quiet l s t e = elim (remove_listener-cases l s t e) [
    | inl failed ↦ rw failed (error-Quiet _ _ s)
    | inr (rest, gone) ↦ rw gone (refl, refl, inr refl)
  ]

  notify-Quiet : (s : Connection M) → Quiet s (notify_waiting s)
  unfolding notify_waiting
  notify-Quiet s = (append-nil _, refl, inr refl)

  reset-Quiet : (s : Connection M) → Quiet s (reset s)
  unfolding reset clear_error
  reset-Quiet s =
      let q =
        error-Quiet ErrorCode.invalid_state_error (text "Socket is not in closed or error state")
          s in
      ground (arith, q)

  wake-Quiet : (y : System M) → Quiet y.conn (takes os pb y (Socket.wake y.conn)).conn
  unfolding Socket.wake
  wake-Quiet y = ground arith

  take-Quiet : (y : System M) → Quiet y.conn (takes os pb y (Socket.take_next_message y.conn)).conn
  unfolding Socket.take_next_message
  take-Quiet y = ground arith

  decides-Quiet : (y : System M) → Quiet y.conn (decides os pb y).conn
  unfolding decides notify_waiting
  decides-Quiet y =
      let q =
        error-Quiet ErrorCode.invalid_state_error (text "Cannot close a socket in initial state")
          y.conn in
      let n = append-nil (sent (log_of y.conn)) in ground (arith, q, n)

  take-handed : (y : System M) → (takes os pb y (Socket.take_next_message y.conn)).handed ≡ y.handed
  unfolding Socket.take_next_message
  take-handed y = ground arith

  wake-handed : (y : System M) → (takes os pb y (Socket.wake y.conn)).handed ≡ y.handed
  unfolding Socket.wake
  wake-handed y = ground arith

  decides-handed : (y : System M) → (decides os pb y).handed ≡ y.handed
  unfolding decides
  decides-handed y = ground arith

  register-Quiet : (m : M) (s : Connection M) → Quiet s (Socket.register_message_type os pb m s).1
  unfolding Socket.register_message_type
  register-Quiet m s =
      let q = error-Quiet ErrorCode.invalid_state_error (text "Socket is not in initial state") s in
      ground (arith, q)

  listen-Quiet : (l : ℕ) (s : Connection M) → Quiet s (Socket.add_listener l s)
  unfolding Socket.add_listener
  listen-Quiet l s =
      let q = error-Quiet ErrorCode.invalid_state_error (text "Socket is not in initial state") s in
      ground (arith, q)

  module _ (sends : SendsAll os) (p : PlatformSocket) where
    abbrev Holds : System M → Type 0
    Holds y = IsAccounted os pb p y

    -- A step that sends nothing and is not given a message.
    Quiet-Holds : (y z : System M) → Quiet y.conn z.conn → z.handed ≡ y.handed → Holds y → Holds z
    Quiet-Holds y z q same h = record {
      wrote = h.wrote;
      bytes = q.0 ∙ h.bytes;
      kept = ground (arith, q, h.kept);
    }

    works-Holds : (y : System M) → Holds y → Holds (worked os pb y (move os pb y.pc y.conn))
    works-Holds y h =
        let w = move-Writes os pb sends y.pc y.conn in
        record {
          wrote = h.wrote ++ w.wrote;
          bytes =
              w.bytes
              ∙ ap (λ bs. bs ++ outputs os pb w.wrote) h.bytes
              ∙ append_assoc (sent p.log) (outputs os pb h.wrote) (outputs os pb w.wrote)
              ∙ ap (◌++◌ (sent p.log)) (sym (outputs-append os pb h.wrote w.wrote));
          kept = elim w.kept [
            | inl asked ↦ inl asked
            | inr (same, eq) ↦ elim h.kept [
              | inl asked ↦ inl (same ∙ asked)
              | inr eq' ↦ inr (rw (messages_in-append, append_assoc, eq) eq')
            ]
          ];
        }

    hands-Holds :
        (m : M) (y : System M)
        → Holds y
        → Holds (record (with_conn os pb y (Socket.send_message (some m) y.conn)) {
          handed = y.handed ++ m ∷ [];
        })
    unfolding Socket.send_message
    hands-Holds m y h = record {
      wrote = h.wrote;
      bytes = h.bytes;
      kept = elim h.kept [
        | inl asked ↦ inl asked
        | inr eq ↦ inr (
            sym (append_assoc (messages_in h.wrote) y.conn.send_queue (m ∷ []))
            ∙ ap (λ ms. ms ++ m ∷ []) eq)
      ];
    }

    Step-Holds : {y z : System M} → Step os pb y z → Holds y → Holds z
    unfolding Socket.send_message clear_error close_joined
    Step-Holds {y} works h = works-Holds y h
    Step-Holds {y} (starts {wanted} address port way free) h =
        Quiet-Holds y _ (launches-Quiet wanted address port y)
          (launches-handed wanted address port y) h
    Step-Holds {y} (asks e) h = Quiet-Holds y _ (refl, refl, inr refl) refl h
    Step-Holds {y} (hands m) h = hands-Holds m y h
    Step-Holds {y} hands_null h = Quiet-Holds y _ (error-Quiet _ _ y.conn) refl h
    Step-Holds {y} (tests free) h = Quiet-Holds y _ (take-Quiet y) (take-handed y) h
    Step-Holds {y} (sleeps e) h = Quiet-Holds y _ (refl, refl, inr refl) refl h
    Step-Holds {y} (stirs e) h = Quiet-Holds y _ (refl, refl, inr refl) refl h
    Step-Holds {y} (resumes e) h = Quiet-Holds y _ (wake-Quiet y) (wake-handed y) h
    Step-Holds {y} (closes e) h = Quiet-Holds y _ (decides-Quiet y) (decides-handed y) h
    Step-Holds {y} (requests e) h = Quiet-Holds y _ (refl, refl, inr refl) refl h
    Step-Holds {y} (aborts e) h = Quiet-Holds y _ (abort-Quiet y.conn) refl h
    Step-Holds {y} (joins e gone) h =
        Quiet-Holds y _ (notify-Quiet (record y.conn { thread = false })) refl h
    Step-Holds {y} (resets e gone) h = Quiet-Holds y _ (reset-Quiet y.conn) refl h
    Step-Holds {y} (resets_early up) h = Quiet-Holds y _ (reset-Quiet y.conn) refl h
    Step-Holds {y} clears h = Quiet-Holds y _ (refl, refl, inr refl) refl h
    Step-Holds {y} (registers m) h = Quiet-Holds y _ (register-Quiet m y.conn) refl h
    Step-Holds {y} (imports file_name) h = Quiet-Holds y _ (import-Quiet file_name y.conn) refl h
    Step-Holds {y} (listens l) h = Quiet-Holds y _ (listen-Quiet l y.conn) refl h
    Step-Holds {y} (unlistens l {t} e) h = Quiet-Holds y _ (unlisten-Quiet l y.conn t e) refl h

    Reach-Holds : {y : System M} → Reach os pb p y → Holds y
    unfolding new_connection outputs messages_in
    Reach-Holds made = record { wrote = []; bytes = sym (append-nil (sent p.log)); kept = inr refl }
    Reach-Holds (later before step) = Step-Holds step (Reach-Holds before)

    -- Let the system put what it is given on the wire, and take any state that a socket and its
    -- threads can reach from a socket that was just made. If the other side has not asked to close,
    -- then what was sent since is a sequence of whole packets: keep-alives, good-byes and messages;
    -- and the messages in them, followed by those that still wait in the send queue, are the messages
    -- that `sendMessage` was given, in that order.
    pub Reach-sent :
        {y : System M}
        → Reach os pb p y
        → y.conn.received_close ≡ false
        → (ws : List (Output M)) × (sent (log_of y.conn) ≡ sent p.log ++ outputs os pb ws)
          × (messages_in ws ++ y.conn.send_queue ≡ y.handed)
    Reach-sent r unasked =
        let h = Reach-Holds r in (h.wrote, h.bytes, ground (arith, h.kept, unasked))
