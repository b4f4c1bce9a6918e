-- ===== src/Connection/Receive/Queue.antt =====
-- How a message reaches the receive queue.
use lib_arcus.Prelude.{
  pos, ℕ, ◌≡◌, refl, ap, ◌∙◌, ◌++◌, false, none, some, List, [], ◌∷◌, Bytes, length, append_assoc,
  take, arith, ◌<◌, ◌^◌, ◌%◌,
}
use lib_arcus.ByteOrder.{htonl}
use lib_arcus.Integers.{to_int32, to_int32-id}
use lib_arcus.Environment.{Os, Log, Event, Protobuf, IsPosix}
use lib_arcus.PlatformSocket.{PlatformSocket}
use lib_arcus.MessageTypeStore.{MessageTypeStore, has_type, create_message, get_message_type_id}
use lib_arcus.MessageTypeStore.Table.{find}
use lib_arcus.Hash.Bounds.{hash-lt}
use lib_arcus.Link.{frame, is_recv, Delivers, Serializes}
use lib_arcus.WireMessage.{WireMessage}
use lib_arcus.Connection.Send.{wire_header}
use lib_arcus.Connection.{Connection, tell}
use lib_arcus.Connection.Receive.{
  receive_next_message, handle_message, enqueue, message_size_maximum, bytes_of,
}
use lib_arcus.Connection.Receive.Delivery.{receive-frame, log_of, IsIdle, complete, frame_read}

-- The type of `m` is registered, and its prototype parses the bytes of `m` as `m'`.
pub record Understands {M : Type 0} (os : Os) (pb : Protobuf M) (types : MessageTypeStore M)
    (m m' : M) : Type 0 where
  pub prototype : M
  pub known : find (get_message_type_id os pb m) types.message_types ≡ some prototype
  pub parses :
      pb.parse
        (pb.new_instance prototype)
        (pb.serialize m)
        (pos (length (pb.serialize m)))
        message_size_maximum
      ≡ some m'

pub record Stream (os : Os) (pending : Log → Bytes) : Type 0 where
  pub posix : IsPosix os
  pub delivers : Delivers os pending
  pub memory : (h : Log) (n : ℕ) → (bs : Bytes) × (os.fresh_memory h n ≡ some bs)

module _ {os : Os} {pending : Log → Bytes} (delivers : Delivers os pending) where
  pub pending-tell :
      (callback : ℕ → Event) (ls : List ℕ) (p : PlatformSocket)
      → ((l : ℕ) → is_recv (callback l) ≡ false)
      → pending (tell callback ls p).log ≡ pending p.log
  unfolding tell
  pending-tell callback [] p h = refl
  pending-tell callback (l ∷ ls) p h =
      pending-tell callback ls _ h ∙ delivers.spares p.log (callback l) (h l)

  pending-enqueue :
      {M : Type 0} (m : M) (s : Connection M) → pending (log_of (enqueue m s)) ≡ pending (log_of s)
  unfolding enqueue
  pending-enqueue m s =
      delivers.spares _ Event.notify_all refl
      ∙ pending-tell Event.message_received s.listeners s.platform_socket (λ l. refl)

take-length : (bs : Bytes) → take (length bs) bs ≡ bs
take-length [] = refl
take-length (b ∷ bs) = ap (◌∷◌ b) (take-length bs)

module _ {M : Type 0} (os : Os) (pb : Protobuf M) where
  pub handle_message-enqueue :
      (m : WireMessage) (s : Connection M) (prototype parsed : M)
      → find m.type s.message_types.message_types ≡ some prototype
      → pb.parse
          (pb.new_instance prototype)
          (take m.size (bytes_of m.buffer))
          (to_int32 (pos m.size))
          message_size_maximum
        ≡ some parsed
      → handle_message os pb m s ≡ enqueue parsed s
  unfolding handle_message has_type create_message
  handle_message-enqueue m s prototype parsed known parses = rw (known, has_type) (rw parses)

  pub get_message_type_id-lt : (m : M) → get_message_type_id os pb m < 2 ^ 32
  unfolding get_message_type_id
  get_message_type_id-lt m = hash-lt os.char_is_signed (pb.type_name m)

  pub receive-message :
      {pending : Log → Bytes}
      → Stream os pending
      → (s : Connection M) (m m' : M) (rest : Bytes) → Serializes pb m
      → Understands os pb s.message_types m m'
      → IsIdle s
      → pending (log_of s) ≡ frame os pb m ++ rest
      → let t = receive_next_message os pb s in
        (t.receive_queue ≡ s.receive_queue ++ m' ∷ [])
        × (pending (log_of t) ≡ rest)
        × (t.current_message ≡ none)
        × (t.message_types ≡ s.message_types)
        × (t.next_state ≡ s.next_state)
        × (t.last_error ≡ s.last_error)
  unfolding frame enqueue
  receive-message {pending} stream s m m' rest ser under idle arrived =
      let size : pb.byte_size m % 2 ^ 32 ≡ length (pb.serialize m) =
        omega (arith, ser.size_eq, ser.size_lt) in
      let whole : pending (log_of s)
          ≡ htonl wire_header
            ++ (htonl (length (pb.serialize m))
                ++ (htonl (get_message_type_id os pb m) ++ (pb.serialize m ++ rest))) =
        rw (arrived, size) (simp append_assoc) in
      let (buffer, mem) = stream.memory _ (length (pb.serialize m)) in
      let (read, left) =
        receive-frame os pb pending stream.delivers stream.posix (get_message_type_id os pb m)
          (pb.serialize m) rest buffer s (get_message_type_id-lt m)
          (omega (arith, ser.size_eq, ser.size_lt)) idle whole mem in
      let u = frame_read os pending stream.delivers (length (pb.serialize m)) s in
      let int =
        to_int32-id (pos (length (pb.serialize m))) (omega (arith, ser.size_eq, ser.size_lt)) in
      let queued =
        handle_message-enqueue (complete (get_message_type_id os pb m) (pb.serialize m)) u
          under.prototype m' under.known (rw (take-length, int) under.parses) in
      rw (read, queued) (refl, pending-enqueue stream.delivers m' u ∙ left, refl, refl, refl, refl)
