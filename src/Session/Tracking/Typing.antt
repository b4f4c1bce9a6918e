-- ===== src/Session/Tracking/Typing.antt =====
-- `receiveNextMessage` of src/Socket_p.h at the type of a message and the buffer for its data.
use lib_arcus.Prelude.{
  ℕ, ◌%◌, ◌^◌, ◌≡◌, refl, sym, ap, ◌∙◌, ◌++◌, inl, inr, true, false, some, List, [], ◌∷◌, Bytes,
  length, append_assoc, append-nil, arith, ◌<◌,
}
use mathlib.Core.List.{append_cancel_left}
use lib_arcus.ByteOrder.{htonl, ntohl, ntohl-htonl}
use lib_arcus.Environment.{Os, Event, Protobuf}
use lib_arcus.MessageTypeStore.{get_message_type_id}
use lib_arcus.WireMessage.{WireMessage, MessageState, new_wire_message, allocate_data}
use lib_arcus.Connection.{Connection, read_u32}
use lib_arcus.Connection.Send.{wire_header}
use lib_arcus.Connection.Receive.{receive_type, allocate, in_state}
use lib_arcus.Connection.Receive.Arrivals.{Steady, arrived, read_u32_steady}
use lib_arcus.PlatformSocket.{happens}
use lib_arcus.Connection.Receive.Queue.{get_message_type_id-lt}
use lib_arcus.Connection.Receive.Ensures.{Ensures}
use lib_arcus.Connection.Receive.Chunks.{Holds}
use lib_arcus.Connection.Receive.Delivery.{log_of}
use lib_arcus.Connection.Worker.Moves.Outputs.{Output, outputs, messages_in}
use lib_arcus.Session.Tracking.{
  idle, sizing, typing, filling, Track, InStep, Follows, outputs-message, words_of,
}
use lib_arcus.Session.Tracking.Advance.{word-first, next-bytes, further, waiting, kept}
use lib_arcus.Session.Tracking.Words.{idle_elsewhere, Agrees-head, Agrees-here}

module _ {M : Type 0} (os : Os) (pb : Protobuf M) (total : Bytes) (pre all : List M)
    (steady : Steady os) (follows : Follows os pb total) where
  abbrev T : WireMessage → Connection M → Type 0
  T m s = Track os pb total pre all m s

  abbrev P : Connection M → Type 0
  P s = InStep os pb total pre all s

  -- The third word of a frame.
  third_word :
      (x : M) (r rest : List (Output M)) (part bs tail : Bytes)
      → length bs ≡ 4
      → rest ≡ Output.message x ∷ r
      → part ≡ htonl wire_header ++ htonl (pb.byte_size x % 2 ^ 32)
      → part ++ (bs ++ tail) ≡ outputs os pb rest
      → bs ≡ htonl (get_message_type_id os pb x)
  third_word x r rest part bs tail four here read e =
      let size = htonl (pb.byte_size x % 2 ^ 32) in
      let e' =
        sym (append_assoc (htonl wire_header) size (bs ++ tail))
        ∙ ap (λ p. p ++ (bs ++ tail)) (sym read)
        ∙ e
        ∙ ap (outputs os pb) here
        ∙ outputs-message os pb x r in
      word-first bs tail _ (get_message_type_id os pb x) four
        (append_cancel_left size _ _ (append_cancel_left (htonl wire_header) _ _ e'))

  -- The buffer that was made is empty.
  allocated :
      (m : WireMessage) (buffer : Bytes) (type : ℕ)
      → m.size < 2 ^ 32
      → m.received_size ≡ 0
      → length buffer ≡ m.size
      → Holds (record m { type = type; state = MessageState.data_; buffer = some buffer }) []
  allocated m buffer type small nothing room = record {
    filling = record { size_lt = small; fits = omega (arith, nothing); buffer_size = room };
    count = nothing;
    content = refl;
  }

  allocate-Track :
      (m : WireMessage) (s t : Connection M) (track : T m s) (x : M) (r : List (Output M))
      (bs : Bytes)
      → track.rest ≡ Output.message x ∷ r
      → track.part ≡ htonl wire_header ++ htonl (pb.byte_size x % 2 ^ 32)
      → m.valid ≡ true
      → m.received_size ≡ 0
      → m.size ≡ pb.byte_size x % 2 ^ 32
      → bs ≡ htonl (get_message_type_id os pb x)
      → arrived os (log_of t) ≡ arrived os (log_of s) ++ bs
      → t.receive_queue ≡ s.receive_queue
      → t.message_types ≡ s.message_types
      → Ensures P T (allocate os (get_message_type_id os pb x) m t)
  unfolding allocate allocate_data
  allocate-Track m s t track x r bs here read valid nothing size word more queue types =
      let (buffer, mem) = steady.memory (log_of t) m.size in
      let type = get_message_type_id os pb x in
      let u = record t { platform_socket = happens (Event.allocate m.size) t.platform_socket } in
      let ser =
        Agrees-head os pb s.message_types x (messages_in r) track.ms
          (Agrees-here os pb s.message_types x r track.rest track.ms here track.agrees) in
      let exact : m.size ≡ pb.byte_size x = omega (arith, size, ser.size_lt) in
      let m' : WireMessage = record m {
        type = type;
        state = MessageState.data_;
        buffer = some buffer;
      } in
      let head = htonl wire_header in
      let n = htonl (pb.byte_size x % 2 ^ 32) in
      let all_words : track.part ++ bs ≡ words_of os pb x ++ [] =
        ap (λ p. p ++ bs) read
        ∙ append_assoc head n bs
        ∙ ap (λ b. head ++ (n ++ b)) word
        ∙ sym (append-nil _) in
      rw (mem, allocate)
        (further os pb total pre all m m' s u track bs (append-nil _ ∙ more) queue types (
          filling x r [] here all_words refl valid refl exact (
            allocated m buffer type (omega (arith, size)) nothing
              (steady.posix.fresh_length (log_of t) m.size buffer mem))))

  skip_type :
      (m : WireMessage) (s : Connection M)
      → in_state m.state MessageState.type ≡ false
      → T m s
      → Ensures P T (receive_type os m s)
  unfolding receive_type
  skip_type m s elsewhere track = rw elsewhere track

  at_type :
      (m : WireMessage) (s : Connection M) (track : T m s) (x : M) (r : List (Output M))
      → track.rest ≡ Output.message x ∷ r
      → track.part ≡ htonl wire_header ++ htonl (pb.byte_size x % 2 ^ 32)
      → m ≡ record new_wire_message { state = MessageState.type; size = pb.byte_size x % 2 ^ 32 }
      → Ensures P T (receive_type os m s)
  unfolding receive_type read_u32 new_wire_message
  at_type m s track x r here read m_eq =
      let t = (read_u32 os 0 s).2 in
      let id = get_message_type_id os pb x in
      let at : in_state m.state MessageState.type ≡ true =
        ap (λ (m : WireMessage). in_state m.state MessageState.type) m_eq in
      elim (read_u32_steady os steady 0 s) [
        | inl (result, word, same) ↦
            rw (at, result)
              (kept os pb total pre all m t
                (waiting os pb total pre all m s t same refl refl track))
        | inr (bs, result, word, four, more) ↦
            let (tail, e) = next-bytes os pb total pre all follows m s track t bs more in
            let is_type = third_word x r track.rest track.part bs tail four here read e in
            let value : (read_u32 os 0 s).1 ≡ id =
              word ∙ ap ntohl is_type ∙ ntohl-htonl id (get_message_type_id-lt os pb x) in
            rw (at, result, value)
              (allocate-Track m s t track x r bs here read (ap (λ (m : WireMessage). m.valid) m_eq)
                (ap (λ (m : WireMessage). m.received_size) m_eq)
                (ap (λ (m : WireMessage). m.size) m_eq) is_type more refl refl)
      ]

  pub type-Track : (m : WireMessage) (s : Connection M) → T m s → Ensures P T (receive_type os m s)
  type-Track m s track = elim track.stage [
    | idle new none_read ↦ skip_type m s (idle_elsewhere m MessageState.type new refl) track
    | sizing x r here read m_eq ↦
        skip_type m s (ap (λ (m : WireMessage). in_state m.state MessageState.type) m_eq) track
    | typing x r here read m_eq ↦ at_type m s track x r here read m_eq
    | filling x r p here read state valid type size holds ↦
        skip_type m s (ap (λ st. in_state st MessageState.type) state) track
  ]
