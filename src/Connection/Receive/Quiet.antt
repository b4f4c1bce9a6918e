-- ===== src/Connection/Receive/Quiet.antt =====
-- Receiving sends nothing, and leaves the send queue.
use lib_arcus.Prelude.{
  pos, ℕ, ◌≡◌, refl, ◌∙◌, ◌⊎◌, inl, inr, true, Bytes, append-nil, arith, text, false, none,
  Option-cases, Bool-cases, take,
}
use lib_arcus.Types.{ErrorCode}
use lib_arcus.Integers.{to_int32}
use lib_arcus.Environment.{Os, Event, Protobuf}
use lib_arcus.Link.{sent}
use lib_arcus.PlatformSocket.{PlatformSocket}
use lib_arcus.PlatformSocket
use lib_arcus.PlatformSocket.Io.{flush-eq}
use lib_arcus.WireMessage.{WireMessage, get_remaining_size, allocate_data}
use lib_arcus.MessageTypeStore.{has_type, create_message}
use lib_arcus.Connection.{Connection, error, fatal_error, read_u32, tell_all}
use lib_arcus.Connection.Worker.Farewell.{sent-tell, sent-close, sent-error, sent-read_u32}
use lib_arcus.Connection.Receive.{
  receive_next_message, handle_message, receive_header, receive_size, receive_type, receive_data,
  dispatch, allocate, check_header, parse_failure, enqueue, reject, bytes_of, message_size_maximum,
}
use lib_arcus.Connection.Receive.Delivery.{log_of}
use lib_arcus.Connection.Receive.Ensures.{Ensures, Ensures-and_then, Ensures-outcome}

-- From the one connection to the other nothing was sent, the send queue is the same, and it may have
-- been learnt that the other side asks to close.
abbrev pub Quiet : {M : Type 0} → Connection M → Connection M → Type 0
Quiet s t =
    (sent (log_of t) ≡ sent (log_of s))
    × (t.send_queue ≡ s.send_queue)
    × ((t.received_close ≡ true) ⊎ (t.received_close ≡ s.received_close))

module _ {M : Type 0} where
  pub Quiet-trans : (s t u : Connection M) → Quiet s t → Quiet t u → Quiet s u
  Quiet-trans s t u a b = ground (arith, a, b)

  pub error-Quiet :
      (code : ErrorCode) (message : Bytes) (s : Connection M) → Quiet s (error code message s)
  unfolding error
  error-Quiet code message s = (sent-error code message s, refl, inr refl)

  pub fatal_error-Quiet :
      (os : Os) (code : ErrorCode) (message : Bytes) (s : Connection M)
      → Quiet s (fatal_error os code message s)
  unfolding fatal_error tell_all
  fatal_error-Quiet os code message s =
      (sent-tell _ s.listeners _ (λ l. refl) ∙ sent-close os s.platform_socket, refl, inr refl)

  pub read_u32-Quiet : (os : Os) (word : ℕ) (s : Connection M) → Quiet s (read_u32 os word s).2
  unfolding read_u32
  read_u32-Quiet os word s = (sent-read_u32 os word s, refl, inr refl)

  enqueue-Quiet : (m : M) (s : Connection M) → Quiet s (enqueue m s)
  unfolding enqueue tell_all
  enqueue-Quiet m s = (
    append-nil _ ∙ sent-tell Event.message_received s.listeners s.platform_socket (λ l. refl),
    refl,
    inr refl,
  )

module _ {M : Type 0} (os : Os) (s : Connection M) where
  abbrev P : Connection M → Type 0
  P t = Quiet s t

  abbrev Q : WireMessage → Connection M → Type 0
  Q m t = Quiet s t

  sent-read_bytes :
      (n : ℕ) (p : PlatformSocket) → sent (PlatformSocket.read_bytes os n p).2.log ≡ sent p.log
  unfolding PlatformSocket.read_bytes
  sent-read_bytes n p = ground (arith, append-nil (sent p.log))

  reject-Quiet : (message : Bytes) (t : Connection M) → P t → Ensures P Q (reject os message t)
  unfolding reject
  reject-Quiet message t q =
      rw flush-eq (
        Quiet-trans s t (error ErrorCode.receive_failed_error message t) q
          (error-Quiet _ message t))

  check_header-Quiet :
      (header : ℕ) (m : WireMessage) (t : Connection M)
      → P t
      → Ensures P Q (check_header os header m t)
  unfolding check_header
  check_header-Quiet header m t q = ground (
    arith,
    reject-Quiet (text "Header mismatch") t q,
    reject-Quiet (text "Protocol version mismatch") t q,
  )

  receive_header-Quiet :
      (m : WireMessage) (t : Connection M) → P t → Ensures P Q (receive_header os m t)
  unfolding receive_header
  receive_header-Quiet m t q =
      let (_, header, u) = read_u32 os 0 t in
      let read = Quiet-trans s t u q (read_u32-Quiet os 0 t) in
      ground (arith, check_header-Quiet header m u read)

  receive_size-Quiet :
      (m : WireMessage) (t : Connection M) → P t → Ensures P Q (receive_size os m t)
  unfolding receive_size
  receive_size-Quiet m t q =
      let u = (read_u32 os 0 t).2 in
      let read = Quiet-trans s t u q (read_u32-Quiet os 0 t) in
      ground (arith, read, reject-Quiet (text "Size invalid") u read)

  allocate-Quiet :
      (type : ℕ) (m : WireMessage) (t : Connection M) → P t → Ensures P Q (allocate os type m t)
  unfolding allocate allocate_data
  allocate-Quiet type m t q =
      let u = record t {
        platform_socket = PlatformSocket.happens (Event.allocate m.size) t.platform_socket;
      } in
      let made : Quiet t u = (append-nil (sent (log_of t)), refl, inr refl) in
      let all = Quiet-trans s t u q made in
      elim (Option-cases (os.fresh_memory (log_of t) m.size)) [
        | inl out ↦
            let v = record u { current_message = none } in
            let code = ErrorCode.receive_failed_error in
            let message = text "Out of memory" in
            rw (out, allocate)
              (Quiet-trans s u (fatal_error os code message v) all
                (fatal_error-Quiet os code message v))
        | inr (bs, fresh) ↦ rw (fresh, allocate) all
      ]

  receive_type-Quiet :
      (m : WireMessage) (t : Connection M) → P t → Ensures P Q (receive_type os m t)
  unfolding receive_type
  receive_type-Quiet m t q =
      let (_, type, u) = read_u32 os 0 t in
      let read = Quiet-trans s t u q (read_u32-Quiet os 0 t) in
      let failed = text "Receiving type failed" in
      let e = error ErrorCode.receive_failed_error failed u in
      ground (
        arith,
        read,
        allocate-Quiet type m u read,
        allocate-Quiet type (record m { valid = false }) e
            (Quiet-trans s u e read (error-Quiet _ failed u)),
      )

  receive_data-Quiet :
      (m : WireMessage) (t : Connection M) → P t → Ensures P Q (receive_data os m t)
  unfolding receive_data
  receive_data-Quiet m t q =
      let (_, _, p) = PlatformSocket.read_bytes os (get_remaining_size m) t.platform_socket in
      let u = record t { platform_socket = p } in
      let read : Quiet t u =
        (sent-read_bytes (get_remaining_size m) t.platform_socket, refl, inr refl) in
      let all = Quiet-trans s t u q read in
      let failed = text "Could not receive data for message" in
      let broken =
        Quiet-trans s u (error ErrorCode.receive_failed_error failed u) all
          (error-Quiet _ failed u) in
      ground (arith, all, broken)

module _ {M : Type 0} (os : Os) (pb : Protobuf M) where
  handle_message-Quiet : (m : WireMessage) (s : Connection M) → Quiet s (handle_message os pb m s)
  unfolding handle_message parse_failure
  handle_message-Quiet m s =
      let unknown =
        error-Quiet ErrorCode.unknown_message_type_error (text "Unknown message type") s in
      elim (Bool-cases (has_type os pb m.type s.message_types)) [
        | inr other ↦ rw other unknown
        | inl known ↦ elim (Option-cases (create_message os pb m.type s.message_types)) [
          | inl null ↦ rw (known, null) (refl, refl, inr refl)
          | inr (message, made) ↦
              elim (Option-cases (
                pb.parse message (take m.size (bytes_of m.buffer)) (to_int32 (pos m.size))
                  message_size_maximum)) [
                    | inl bad ↦ rw (known, made, bad) (error-Quiet _ _ s)
                    | inr (parsed, good) ↦ rw (known, made, good) (enqueue-Quiet parsed s)
                  ]
        ]
      ]

  dispatch-Quiet :
      (s : Connection M) (m : WireMessage) (t : Connection M)
      → Quiet s t
      → Ensures (Quiet s) (λ m. Quiet s) (dispatch os pb m t)
  unfolding dispatch
  dispatch-Quiet s m t q =
      ground (arith, q, Quiet-trans s t (handle_message os pb m t) q (handle_message-Quiet m t))

  -- `receiveNextMessage` sends nothing, and leaves the send queue as it was.
  pub receive_next_message-Quiet : (s : Connection M) → Quiet s (receive_next_message os pb s)
  unfolding receive_next_message
  receive_next_message-Quiet s =
      let A = P os s in
      let B = Q os s in
      Ensures-outcome A _ (
        Ensures-and_then A B _ _ _ (receive_header-Quiet os s _ s (refl, refl, inr refl)) λ m t q.
          Ensures-and_then A B _ _ _ (receive_size-Quiet os s m t q) λ m t q.
            Ensures-and_then A B _ _ _ (receive_type-Quiet os s m t q) λ m t q.
              Ensures-and_then A B _ _ _ (receive_data-Quiet os s m t q) (dispatch-Quiet s))
