-- ===== src/Connection/Receive/Delivery.antt =====
-- What `receiveNextMessage` makes of a stream that holds whole messages.
use lib_arcus.Prelude.{
  ℕ, ◌≡◌, refl, ap, ◌∙◌, ◌++◌, true, none, some, [], ◌∷◌, Bytes, length, take, drop, length-append,
  take-length-append, drop-length-append, append-nil, drop-length, ◌+◌, ◌-◌, ◌<◌, ◌^◌, ◌%◌, arith,
  pos,
}
use lib_arcus.ByteOrder.{htonl, length-htonl, ntohl-htonl}
use lib_arcus.Integers.{to_int32-id}
use lib_arcus.Environment.{Os, Log, Event, Protobuf, IsPosix, got}
use lib_arcus.PlatformSocket
use lib_arcus.Link.{Delivers}
use lib_arcus.WireMessage.{WireMessage, MessageState, new_wire_message, store_at}
use lib_arcus.Connection.Send.{wire_header}
use lib_arcus.Connection.{Connection, with_log, read_u32}
use lib_arcus.Connection.Receive.{
  receive_next_message, handle_message, receive_header, receive_size, receive_type, receive_data,
  go, check_header, allocate, dispatch, message_at_hand,
}

module _ {M : Type 0} where
  -- After a read of `n` bytes that succeeded.
  abbrev pub after_recv : ℕ → Connection M → Connection M
  after_recv n s = record s {
    platform_socket = record s.platform_socket {
      errno = 0;
      log = Event.recv s.platform_socket.socket_id n ∷ s.platform_socket.log;
    };
  }

  abbrev pub log_of : Connection M → Log
  log_of s = s.platform_socket.log

  -- No message is half received.
  abbrev pub IsIdle : Connection M → Type 0
  IsIdle s = message_at_hand s.current_message ≡ new_wire_message

  module _ (os : Os) (pending : Log → Bytes) (delivers : Delivers os pending) where
    pub pending-after_recv :
        (s : Connection M) (bs rest : Bytes)
        → pending (log_of s) ≡ bs ++ rest
        → pending (log_of (after_recv (length bs) s)) ≡ rest
    pending-after_recv s bs rest e =
        delivers.removes (log_of s) s.platform_socket.socket_id (length bs)
          (rw (e, length-append) (omega arith))
        ∙ ap (drop (length bs)) e
        ∙ drop-length-append (length bs) bs rest refl

    receive-pending :
        (s : Connection M) (bs rest : Bytes)
        → pending (log_of s) ≡ bs ++ rest
        → os.receive (log_of s) s.platform_socket.socket_id (length bs) ≡ got bs
    receive-pending s bs rest e =
        delivers.gives (log_of s) s.platform_socket.socket_id (length bs)
          (rw (e, length-append) (omega arith))
        ∙ ap got (ap (take (length bs)) e ∙ take-length-append (length bs) bs rest refl)

    pub read_u32-word :
        (w output : ℕ) (s : Connection M) (rest : Bytes)
        → w < 2 ^ 32
        → pending (log_of s) ≡ htonl w ++ rest
        → read_u32 os output s ≡ (pos 4, w, after_recv 4 s)
    unfolding read_u32
    read_u32-word w output s rest h e =
        let word : os.receive (log_of s) s.platform_socket.socket_id 4 ≡ got (htonl w) =
          rw length-htonl at (receive-pending s (htonl w) rest e) in
        simp (word, length-htonl, ntohl-htonl w h)

    read_bytes-data :
        (bs rest : Bytes) (s : Connection M)
        → IsPosix os
        → pending (log_of s) ≡ bs ++ rest
        → PlatformSocket.read_bytes os (length bs) s.platform_socket
          ≡ (pos (length bs), bs, (after_recv (length bs) s).platform_socket)
    unfolding PlatformSocket.read_bytes
    read_bytes-data [] rest s posix e =
        simp (receive-pending s [] rest e) (ground (arith, posix.eagain_ne_zero))
    read_bytes-data (b ∷ bs) rest s posix e = simp (receive-pending s (b ∷ bs) rest e)

-- The buffer holds exactly what was stored in it.
store_at-all : (bs buffer : Bytes) → length buffer ≡ length bs → store_at 0 bs buffer ≡ bs
unfolding store_at
store_at-all bs buffer e =
    let all : 0 + length bs ≡ length buffer = omega arith in
    rw (all, drop-length buffer, append-nil)

-- The message after each part of its frame is read.
abbrev sized : ℕ → WireMessage
unfolding new_wire_message
sized n = record new_wire_message { state = MessageState.type; size = n }

abbrev typed : ℕ → ℕ → Bytes → WireMessage
unfolding new_wire_message
typed n type buffer = record new_wire_message {
  state = MessageState.data_;
  size = n;
  type = type;
  buffer = some buffer;
}

abbrev pub complete : ℕ → Bytes → WireMessage
complete type bs = record {
  state = MessageState.dispatch;
  size = length bs;
  received_size = length bs;
  valid = true;
  type = type;
  buffer = some bs;
}

module _ {M : Type 0} (os : Os) (pending : Log → Bytes) (delivers : Delivers os pending) where
  receive_header-go :
      (s : Connection M) (rest : Bytes)
      → pending (log_of s) ≡ htonl wire_header ++ rest
      → receive_header os new_wire_message s
        ≡ go (record new_wire_message { state = MessageState.size }) (after_recv 4 s)
  unfolding receive_header check_header new_wire_message
  receive_header-go s rest e =
      rw (read_u32-word os pending delivers wire_header 0 s rest (omega arith) e)

  receive_size-go :
      (n : ℕ) (s : Connection M) (rest : Bytes)
      → n < 2 ^ 32
      → pending (log_of s) ≡ htonl n ++ rest
      → receive_size os (record new_wire_message { state = MessageState.size }) s
        ≡ go (sized n) (after_recv 4 s)
  unfolding receive_size new_wire_message
  receive_size-go n s rest h e = rw (read_u32-word os pending delivers n 0 s rest h e)

  abbrev pub after_allocate : ℕ → Connection M → Connection M
  after_allocate n s = with_log (Event.allocate n ∷ log_of s) s

  allocate-go :
      (type : ℕ) (m : WireMessage) (buffer : Bytes) (s : Connection M)
      → os.fresh_memory (log_of s) m.size ≡ some buffer
      → allocate os type m s
        ≡ go
            (record m { type = type; state = MessageState.data_; buffer = some buffer })
            (after_allocate m.size s)
  unfolding allocate
  allocate-go type m buffer s mem = rw (mem, allocate)

  receive_type-go :
      (n type : ℕ) (buffer : Bytes) (s : Connection M) (rest : Bytes)
      → type < 2 ^ 32
      → pending (log_of s) ≡ htonl type ++ rest
      → os.fresh_memory (log_of (after_recv 4 s)) n ≡ some buffer
      → receive_type os (sized n) s ≡ go (typed n type buffer) (after_allocate n (after_recv 4 s))
  unfolding receive_type new_wire_message
  receive_type-go n type buffer s rest h e mem = rw (
    read_u32-word os pending delivers type 0 s rest h e,
    allocate-go type (sized n) buffer (after_recv 4 s) mem,
  )

  receive_data-go :
      (type : ℕ) (bs buffer : Bytes) (s : Connection M) (rest : Bytes)
      → IsPosix os
      → length bs < 2 ^ 31
      → length buffer ≡ length bs
      → pending (log_of s) ≡ bs ++ rest
      → receive_data os (typed (length bs) type buffer) s
        ≡ go (complete type bs) (after_recv (length bs) s)
  unfolding receive_data new_wire_message
  receive_data-go type bs buffer s rest posix h l e =
      let n : (length bs + 2 ^ 32 - 0) % 2 ^ 32 ≡ length bs = omega arith in
      let int = to_int32-id (pos (length bs)) h in
      let n' : (0 + length bs) % 2 ^ 32 ≡ length bs = omega arith in
      simp
        (
          n,
          read_bytes-data os pending delivers bs rest s posix e,
          int,
          store_at-all bs buffer l,
          n',
        )
        (ground arith)

-- After the four reads of a frame with `n` bytes of data.
abbrev pub frame_read :
    {M : Type 0} (os : Os) (pending : Log → Bytes)
    → Delivers os pending
    → ℕ
    → Connection M
    → Connection M
frame_read os pending delivers n s =
    after_recv n
      (after_allocate os pending delivers n (after_recv 4 (after_recv 4 (after_recv 4 s))))

module _ {M : Type 0} (os : Os) (pb : Protobuf M) (pending : Log → Bytes)
    (delivers : Delivers os pending) (posix : IsPosix os) where
  -- A frame that has arrived whole is read in one call, and its message handled.
  pub receive-frame :
      (type : ℕ) (bs rest buffer : Bytes) (s : Connection M)
      → type < 2 ^ 32
      → length bs < 2 ^ 31
      → IsIdle s
      → pending (log_of s)
        ≡ htonl wire_header ++ (htonl (length bs) ++ (htonl type ++ (bs ++ rest)))
      → os.fresh_memory (log_of (after_recv 4 (after_recv 4 (after_recv 4 s)))) (length bs)
        ≡ some buffer
      → let t = frame_read os pending delivers (length bs) s in
        (receive_next_message os pb s
          ≡ record (handle_message os pb (complete type bs) t) { current_message = none })
        × (pending (log_of t) ≡ rest)
  unfolding receive_next_message dispatch message_at_hand
  receive-frame type bs rest buffer s ht hb idle e mem =
      let s1 = after_recv 4 s in
      let s2 = after_recv 4 s1 in
      let s3 = after_recv 4 s2 in
      let s4 = after_allocate os pending delivers (length bs) s3 in
      let e1 =
        rw length-htonl at (pending-after_recv os pending delivers s (htonl wire_header) _ e) in
      let e2 =
        rw length-htonl at (pending-after_recv os pending delivers s1 (htonl (length bs)) _ e1) in
      let e3 = rw length-htonl at (pending-after_recv os pending delivers s2 (htonl type) _ e2) in
      let e4 = delivers.spares (log_of s3) (Event.allocate (length bs)) refl ∙ e3 in
      let l = posix.fresh_length (log_of s3) (length bs) buffer mem in
      (
        rw (
          idle,
          receive_header-go os pending delivers s _ e,
          receive_size-go os pending delivers (length bs) s1 _ (omega (arith, hb)) e1,
          receive_type-go os pending delivers (length bs) type buffer s2 _ ht e2 mem,
          receive_data-go os pending delivers type bs buffer s4 _ posix hb l e4,
        ),
        pending-after_recv os pending delivers s4 bs rest e4,
      )
