-- ===== src/Session/Packets.antt =====
-- Streams in which keep-alives stand between the messages.
use lib_arcus.Prelude.{
  ◌≡◌, refl, ap, ◌∙◌, ◌++◌, List, [], ◌∷◌, Bytes, length, append_assoc, append-nil,
}
use lib_arcus.ByteOrder.{htonl}
use lib_arcus.Environment.{Os, Log, Protobuf}
use lib_arcus.Link.{frame}
use lib_arcus.Connection.{Connection}
use lib_arcus.Connection.Receive.{receive_next_message, message_at_hand}
use lib_arcus.Connection.Receive.Delivery.{log_of, IsIdle}
use lib_arcus.Connection.Receive.Control.{receive-keep_alive}
use lib_arcus.Connection.Receive.Queue.{Stream, receive-message}
use lib_arcus.Session.{receive_times, Agrees}

-- What a connected worker writes: the frames of messages, and the word 0.
pub data Packet (M : Type 0) : Type 0 where
  keep_alive : Packet M
  message : M → Packet M

unfoldable pub packets : {M : Type 0} → Os → Protobuf M → List (Packet M) → Bytes
packets os pb [] = []
packets os pb (keep_alive ∷ ps) = htonl 0 ++ packets os pb ps
packets os pb (message m ∷ ps) = frame os pb m ++ packets os pb ps

unfoldable pub messages_in : {M : Type 0} → List (Packet M) → List M
messages_in [] = []
messages_in (keep_alive ∷ ps) = messages_in ps
messages_in (message m ∷ ps) = m ∷ messages_in ps

module _ {M : Type 0} (os : Os) (pb : Protobuf M) {pending : Log → Bytes}
    (stream : Stream os pending) where
  -- A stream that begins with messages and keep-alives in any order fills the receive queue with the
  -- messages, in their order, one call to a packet; next state and error stay, the rest of the
  -- stream is left, and no message is begun.
  pub receive-packets :
      (ps : List (Packet M)) (ms : List M) (s : Connection M) (rest : Bytes)
      → Agrees os pb s.message_types (messages_in ps) ms
      → IsIdle s
      → pending (log_of s) ≡ packets os pb ps ++ rest
      → let t = receive_times os pb (length ps) s in
        (t.receive_queue ≡ s.receive_queue ++ ms)
        × (pending (log_of t) ≡ rest)
        × IsIdle t
        × (t.next_state ≡ s.next_state)
        × (t.last_error ≡ s.last_error)
  unfolding receive_times packets messages_in message_at_hand
  receive-packets [] [] s rest agree idle e = (rw append-nil, e, idle, refl, refl)
  receive-packets [] (_ ∷ _) s rest agree idle e = absurd agree
  receive-packets (keep_alive ∷ ps) ms s rest agree idle e =
      let (same, left) =
        receive-keep_alive os pb pending stream.delivers s idle (packets os pb ps ++ rest)
          (rw (← append_assoc) e) in
      rw (same, receive_times) (receive-packets ps ms _ rest agree refl left)
  receive-packets (message m ∷ ps) [] s rest agree idle e = absurd agree
  receive-packets (message m ∷ ps) (m' ∷ ms) s rest (ser, under, agree) idle e =
      let t = receive_next_message os pb s in
      let (queue, left, idle', types, next, last) =
        receive-message os pb stream s m m' (packets os pb ps ++ rest) ser under idle
          (rw (← append_assoc) e) in
      let (queue', left', idle'', next', last') =
        receive-packets ps ms t rest (rw types agree) (ap message_at_hand idle') left in
      (rw (queue', queue, append_assoc), left', idle'', next' ∙ next, last' ∙ last)
