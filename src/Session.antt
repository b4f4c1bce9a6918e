-- ===== src/Session.antt =====
-- Two sockets, one of which sends what the other receives.
pub mod Application
pub mod Conversation
pub mod Goodbye
pub mod Packets
pub mod Tracking
use lib_arcus.Prelude.{
  ℕ, zero, suc, ◌≡◌, refl, sym, ap, ◌∙◌, ◌++◌, none, List, [], ◌∷◌, Bytes, length, append_assoc,
  append-nil, drop, drop-length-append,
}
use lib_arcus.Environment.{Os, Log, Protobuf}
use lib_arcus.MessageTypeStore.{MessageTypeStore, get_message_type_id}
use lib_arcus.Hash.Ascii.{hash-ascii}
use lib_arcus.Link.{frame, frames, sent, SendsAll, Serializes}
use lib_arcus.Connection.{Connection}
use lib_arcus.Connection.Send.Wire.{sent-send_messages}
use lib_arcus.Connection.Worker.{send_messages}
use lib_arcus.Connection.Receive.{receive_next_message, message_at_hand}
use lib_arcus.Connection.Receive.Delivery.{log_of, IsIdle}
use lib_arcus.Connection.Receive.Queue.{Understands, Stream, receive-message}

-- The receiver's worker calls `receiveNextMessage` once in each round.
unfoldable pub receive_times : {M : Type 0} → Os → Protobuf M → ℕ → Connection M → Connection M
receive_times os pb zero s = s
receive_times os pb (suc n) s = receive_times os pb n (receive_next_message os pb s)

-- `ms` can be sent, and a socket that knows the types `types` reads them as `ms'`.
abbrev pub Agrees :
    {M : Type 0} (os : Os) (pb : Protobuf M) (types : MessageTypeStore M) (ms ms' : List M) → Type 0
Agrees os pb types [] [] = Unit {0}
Agrees os pb types [] (_ ∷ _) = ⊥
Agrees os pb types (_ ∷ _) [] = ⊥
Agrees os pb types (m ∷ ms) (m' ∷ ms') =
    Serializes pb m × Understands os pb types m m' × Agrees os pb types ms ms'

module _ {M : Type 0} (os : Os) (pb : Protobuf M) {pending : Log → Bytes}
    (stream : Stream os pending) where
  -- A stream that begins with the frames of several messages fills the receive queue with these
  -- messages in their order, one call to a message; the rest of the stream is left, and no message
  -- is begun.
  pub receive-frames :
      (ms ms' : List M) (s : Connection M) (rest : Bytes)
      → Agrees os pb s.message_types ms ms'
      → IsIdle s
      → pending (log_of s) ≡ frames os pb ms ++ rest
      → let t = receive_times os pb (length ms) s in
        (t.receive_queue ≡ s.receive_queue ++ ms')
        × (pending (log_of t) ≡ rest)
        × IsIdle t
        × (t.next_state ≡ s.next_state)
        × (t.last_error ≡ s.last_error)
  unfolding receive_times frames message_at_hand
  receive-frames [] [] s rest agree idle e = (rw append-nil, e, idle, refl, refl)
  receive-frames [] (_ ∷ _) s rest agree idle e = absurd agree
  receive-frames (_ ∷ _) [] s rest agree idle e = absurd agree
  receive-frames (m ∷ ms) (m' ∷ ms') s rest (ser, under, agree) idle e =
      let t = receive_next_message os pb s in
      let (queue, left, idle', types, next, last) =
        receive-message os pb stream s m m' (frames os pb ms ++ rest) ser under idle
          (rw (← append_assoc) e) in
      let (queue', left', idle'', next', last') =
        receive-frames ms ms' t rest (rw types agree) (ap message_at_hand idle') left in
      (rw (queue', queue, append_assoc), left', idle'', next' ∙ next, last' ∙ last)

-- Both sides give a message the same frame.
pub frames-eq :
    {M : Type 0} (os os' : Os) (pb : Protobuf M) (types : MessageTypeStore M) (ms ms' : List M)
    → Agrees os' pb types ms ms'
    → frames os pb ms ≡ frames os' pb ms
unfolding frames frame get_message_type_id
frames-eq os os' pb types [] [] agree = refl
frames-eq os os' pb types [] (_ ∷ _) agree = absurd agree
frames-eq os os' pb types (_ ∷ _) [] agree = absurd agree
frames-eq os os' pb types (m ∷ ms) (m' ∷ ms') (ser, under, agree) = rw (
  hash-ascii os.char_is_signed os'.char_is_signed (pb.type_name m) ser.name_ascii,
  frames-eq os os' pb types ms ms' agree,
)

-- Where every `send` of the sender takes all its bytes, and what is pending at the receiver is just
-- what the sender has sent since its log was `s`: once the receiver has been called as often as
-- messages were sent, its receive queue holds these messages behind what it held, in their order,
-- the stream is used up, and the receiver has no message half read.
pub send_messages-receive :
    {M : Type 0} (os os' : Os) (pb : Protobuf M) {pending : Log → Bytes}
    → SendsAll os
    → Stream os' pending
    → (ms ms' : List M) (s r : Connection M) → Agrees os' pb r.message_types ms ms'
    → IsIdle r
    → sent (log_of (send_messages os pb ms s)) ≡ sent (log_of s) ++ pending (log_of r)
    → let t = receive_times os' pb (length ms) r in
      (t.receive_queue ≡ r.receive_queue ++ ms') × (pending (log_of t) ≡ []) × IsIdle t
send_messages-receive os os' pb {pending} sends stream ms ms' s r agree idle arrived =
    let n = length (sent (log_of s)) in
    let (bytes, _) = sent-send_messages os pb sends ms s in
    let same : frames os pb ms ≡ pending (log_of r) =
      sym (drop-length-append n _ _ refl)
      ∙ ap (drop n) (sym bytes ∙ arrived)
      ∙ drop-length-append n _ _ refl in
    let (queue, left, idle', _, _) =
      receive-frames os' pb stream ms ms' r [] agree idle
        (sym same ∙ frames-eq os os' pb r.message_types ms ms' agree ∙ sym (append-nil _)) in
    (queue, left, idle')
