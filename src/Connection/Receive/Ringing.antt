-- ===== src/Connection/Receive/Ringing.antt =====
-- Who waits for a message is told when one is put into the receive queue.
use lib_arcus.Prelude.{
  pos, ℕ, ◌<◌, ◌≡◌, refl, ◌∙◌, ◌⊎◌, ◌++◌, inl, inr, false, [], ◌∷◌, Bytes, arith, text, List,
  Option-cases, Bool-cases, take,
}
use lib_arcus.Types.{ErrorCode}
use lib_arcus.Integers.{to_int32}
use lib_arcus.Environment.{Os, Log, Event, Protobuf}
use lib_arcus.Link.{signals}
use lib_arcus.PlatformSocket.{PlatformSocket}
use lib_arcus.PlatformSocket
use lib_arcus.WireMessage.{WireMessage, get_remaining_size, allocate_data}
use lib_arcus.MessageTypeStore.{has_type, create_message}
use lib_arcus.Connection.{Connection, error, fatal_error, read_u32, tell}
use lib_arcus.Connection.Receive.{
  receive_next_message, handle_message, receive_header, receive_size, receive_type, receive_data,
  dispatch, allocate, check_header, parse_failure, enqueue, reject, bytes_of, message_size_maximum,
}
use lib_arcus.Connection.Receive.Delivery.{log_of}
use lib_arcus.Connection.Receive.Ensures.{Ensures, Ensures-and_then, Ensures-outcome}

-- Neither a signal nor a message.
abbrev pub Still : {M : Type 0} → Connection M → Connection M → Type 0
Still s t = (signals (log_of t) ≡ signals (log_of s)) × (t.receive_queue ≡ s.receive_queue)

-- The queue is as it was, or there is one message more at its end, and a signal was given.
abbrev pub Rings : {M : Type 0} → Connection M → Connection M → Type 0
Rings {M} s t =
    (t.receive_queue ≡ s.receive_queue)
    ⊎ ((m : M) × (t.receive_queue ≡ s.receive_queue ++ m ∷ [])
        × (signals (log_of s) < signals (log_of t)))

signals-tell :
    (callback : ℕ → Event) (ls : List ℕ) (p : PlatformSocket)
    → ((l : ℕ) (h : Log) → signals (callback l ∷ h) ≡ signals h)
    → signals (tell callback ls p).log ≡ signals p.log
unfolding tell
signals-tell callback [] p h = refl
signals-tell callback (l ∷ ls) p h =
    signals-tell callback ls (PlatformSocket.happens (callback l) p) h ∙ h l p.log

module _ {M : Type 0} where
  error-Still :
      (code : ErrorCode) (message : Bytes) (s : Connection M) → Still s (error code message s)
  unfolding error
  error-Still code message s = (signals-tell _ s.listeners s.platform_socket (λ l h. refl), refl)

  read_u32-Still : (os : Os) (word : ℕ) (s : Connection M) → Still s (read_u32 os word s).2
  unfolding read_u32
  read_u32-Still os word s = (ground arith, refl)

  enqueue-Rings : (m : M) (s : Connection M) → Rings s (enqueue m s)
  unfolding enqueue
  enqueue-Rings m s =
      let told = signals-tell Event.message_received s.listeners s.platform_socket (λ l h. refl) in
      inr (m, refl, omega (arith, told))

module _ {M : Type 0} (os : Os) (s : Connection M) where
  abbrev P : Connection M → Type 0
  P t = Rings s t

  abbrev Q : WireMessage → Connection M → Type 0
  Q m t = Still s t

  signals-read_bytes :
      (n : ℕ) (p : PlatformSocket)
      → signals (PlatformSocket.read_bytes os n p).2.log ≡ signals p.log
  unfolding PlatformSocket.read_bytes
  signals-read_bytes n p = ground arith

  reject-Rings :
      (message : Bytes) (t : Connection M) → Still s t → Ensures P Q (reject os message t)
  unfolding reject error
  reject-Rings message t q = inl (q.1)

  check_header-Rings :
      (header : ℕ) (m : WireMessage) (t : Connection M)
      → Still s t
      → Ensures P Q (check_header os header m t)
  unfolding check_header
  check_header-Rings header m t q = ground (
    arith,
    reject-Rings (text "Header mismatch") t q,
    reject-Rings (text "Protocol version mismatch") t q,
  )

  receive_header-Rings :
      (m : WireMessage) (t : Connection M) → Still s t → Ensures P Q (receive_header os m t)
  unfolding receive_header
  receive_header-Rings m t q =
      let (_, header, u) = read_u32 os 0 t in
      let (a, b) = read_u32-Still os 0 t in
      ground (arith, check_header-Rings header m u (a ∙ q.0, b ∙ q.1))

  receive_size-Rings :
      (m : WireMessage) (t : Connection M) → Still s t → Ensures P Q (receive_size os m t)
  unfolding receive_size
  receive_size-Rings m t q =
      let u = (read_u32 os 0 t).2 in
      let (a, b) = read_u32-Still os 0 t in
      let read : Still s u = (a ∙ q.0, b ∙ q.1) in
      ground (arith, read, reject-Rings (text "Size invalid") u read)

  allocate-Rings :
      (type : ℕ) (m : WireMessage) (t : Connection M)
      → Still s t
      → Ensures P Q (allocate os type m t)
  unfolding allocate allocate_data fatal_error
  allocate-Rings type m t q = elim (Option-cases (os.fresh_memory (log_of t) m.size)) [
    | inl out ↦ rw (out, allocate) (inl (q.1))
    | inr (bs, fresh) ↦ rw (fresh, allocate) (q)
  ]

  receive_type-Rings :
      (m : WireMessage) (t : Connection M) → Still s t → Ensures P Q (receive_type os m t)
  unfolding receive_type
  receive_type-Rings m t q =
      let (_, type, u) = read_u32 os 0 t in
      let (a, b) = read_u32-Still os 0 t in
      let read : Still s u = (a ∙ q.0, b ∙ q.1) in
      let failed = text "Receiving type failed" in
      let e = error ErrorCode.receive_failed_error failed u in
      let (c, d) = error-Still ErrorCode.receive_failed_error failed u in
      ground (
        arith,
        read,
        allocate-Rings type m u read,
        allocate-Rings type (record m { valid = false }) e (c ∙ read.0, d ∙ read.1),
      )

  receive_data-Rings :
      (m : WireMessage) (t : Connection M) → Still s t → Ensures P Q (receive_data os m t)
  unfolding receive_data error
  receive_data-Rings m t q =
      let read = signals-read_bytes (get_remaining_size m) t.platform_socket in
      ground (arith, q, read)

module _ {M : Type 0} (os : Os) (pb : Protobuf M) where
  handle_message-Rings : (m : WireMessage) (s : Connection M) → Rings s (handle_message os pb m s)
  unfolding handle_message parse_failure error
  handle_message-Rings m s = elim (Bool-cases (has_type os pb m.type s.message_types)) [
    | inr other ↦ rw other (inl refl)
    | inl known ↦ elim (Option-cases (create_message os pb m.type s.message_types)) [
      | inl null ↦ rw (known, null) (inl refl)
      | inr (message, made) ↦
          elim (Option-cases (
            pb.parse message (take m.size (bytes_of m.buffer)) (to_int32 (pos m.size))
              message_size_maximum)) [
                | inl bad ↦ rw (known, made, bad) (inl refl)
                | inr (parsed, good) ↦ rw (known, made, good) (enqueue-Rings parsed s)
              ]
    ]
  ]

  dispatch-Rings :
      (s : Connection M) (m : WireMessage) (t : Connection M)
      → Still s t
      → Ensures (Rings s) (λ m. Rings s) (dispatch os pb m t)
  unfolding dispatch
  dispatch-Rings s m t q = ground (arith, q, handle_message-Rings m t)

  -- `receiveNextMessage` leaves the receive queue, or puts one message at its end and signals the
  -- condition variable.
  pub receive_next_message-Rings : (s : Connection M) → Rings s (receive_next_message os pb s)
  unfolding receive_next_message
  receive_next_message-Rings s =
      let A = P os s in
      let B = Q os s in
      Ensures-outcome A _ (
        Ensures-and_then A B _ _ _ (receive_header-Rings os s _ s (refl, refl)) λ m t q.
          Ensures-and_then A B _ _ _ (receive_size-Rings os s m t q) λ m t q.
            Ensures-and_then A B _ _ _ (receive_type-Rings os s m t q) λ m t q.
              Ensures-and_then A B _ _ _ (receive_data-Rings os s m t q) (dispatch-Rings s))
