-- ===== src/Session/Tracking/Data.antt =====
-- `receiveNextMessage` of src/Socket_p.h at the data of a message, in a stream that comes in pieces.
use lib_arcus.Prelude.{
  pos, ◌%◌, ◌^◌, ◌≡◌, refl, sym, ap, ◌∙◌, ◌++◌, ◌⊎◌, inl, inr, true, false, List, ◌∷◌, Bytes,
  length, take, append_assoc, arith, length-append, take-length-append, ◌≤◌, ◌+◌, leb, Bool, not,
  if◌then◌else◌, Bool-cases,
}
use mathlib.Core.List.{append_cancel_left}
use lib_arcus.ByteOrder.{htonl}
use lib_arcus.Integers.{to_int32, to_int32-id}
use lib_arcus.Environment.{Os, Protobuf}
use lib_arcus.MessageTypeStore.{get_message_type_id}
use lib_arcus.WireMessage.{WireMessage, MessageState, get_remaining_size, is_complete}
use lib_arcus.Connection.{Connection}
use lib_arcus.Connection.Send.{wire_header}
use lib_arcus.Connection.Receive.{receive_data, take_in, in_state, Flow}
use lib_arcus.Connection.Receive.Arrivals.{Steady, arrived, read_bytes_steady}
use lib_arcus.PlatformSocket.{happens}
use lib_arcus.Connection.Receive.Buffer.{get_remaining_size-IsFilling}
use lib_arcus.Connection.Receive.Ensures.{Ensures}
use lib_arcus.Connection.Receive.Chunks.{Holds, take_in-Holds}
use lib_arcus.Connection.Receive.Delivery.{log_of}
use lib_arcus.Connection.Worker.Moves.Outputs.{Output, outputs, messages_in}
use lib_arcus.Session.Tracking.{
  idle, sizing, typing, filling, Track, Ready, InStep, Follows, outputs-message, words_of,
}
use lib_arcus.PlatformSocket
use lib_arcus.Session.Tracking.Words.{Agrees-here, Agrees-head, idle_elsewhere}
use lib_arcus.Session.Tracking.Advance.{next-bytes, further}

words-append : (a b c d : Bytes) → (a ++ (b ++ c)) ++ d ≡ a ++ (b ++ (c ++ d))
words-append a b c d = simp append_assoc refl

regroup : (a b c d : Bytes) → (a ++ (b ++ c)) ++ d ≡ ((a ++ b) ++ c) ++ d
regroup a b c d = ap (λ e. e ++ d) (sym (append_assoc a b c))

-- Beginnings of the same length are the same.
append-first : (a b c d : Bytes) → length a ≡ length b → a ++ c ≡ b ++ d → a ≡ b
append-first a b c d same e =
    sym (take-length-append (length a) a c refl)
    ∙ ap (take (length a)) e
    ∙ take-length-append (length a) b d same

module _ {M : Type 0} (os : Os) (pb : Protobuf M) (total : Bytes) (pre all : List M)
    (steady : Steady os) (follows : Follows os pb total) where
  abbrev T : WireMessage → Connection M → Type 0
  T m s = Track os pb total pre all m s

  abbrev P : Connection M → Type 0
  P s = InStep os pb total pre all s

  -- Behind the data: the stream goes on, or the message is whole.
  abbrev pub Passed : WireMessage → Connection M → Type 0
  Passed m s = T m s ⊎ Ready os pb total pre all m s

  skip_data :
      (m : WireMessage) (s : Connection M)
      → in_state m.state MessageState.data_ ≡ false
      → T m s
      → Ensures P Passed (receive_data os m s)
  unfolding receive_data
  skip_data m s elsewhere track = rw elsewhere (inl track)

  -- The data of a frame, behind its words.
  data_bytes :
      (x : M) (r rest : List (Output M)) (part p c tail : Bytes)
      → rest ≡ Output.message x ∷ r
      → part ≡ words_of os pb x ++ p
      → part ++ (c ++ tail) ≡ outputs os pb rest
      → (p ++ c) ++ tail ≡ pb.serialize x ++ outputs os pb r
  data_bytes x r rest part p c tail here read e =
      let words = words_of os pb x in
      append_assoc p c tail
      ∙ append_cancel_left words _ _ (
          sym (append_assoc words p (c ++ tail))
          ∙ ap (λ b. b ++ (c ++ tail)) (sym read)
          ∙ e
          ∙ ap (outputs os pb) here
          ∙ outputs-message os pb x r
          ∙ sym (
              words-append (htonl wire_header) (htonl (pb.byte_size x % 2 ^ 32))
                (htonl (get_message_type_id os pb x)) _))

  -- A piece completes its message, or it does not.
  piece :
      (m : WireMessage) (s t : Connection M) (track : T m s) (x : M) (r : List (Output M))
      (p c : Bytes)
      → track.rest ≡ Output.message x ∷ r
      → track.part ≡ words_of os pb x ++ p
      → m.valid ≡ true
      → m.type ≡ get_message_type_id os pb x
      → m.size ≡ pb.byte_size x
      → Holds (take_in (length c) c m) (p ++ c)
      → arrived os (log_of t) ≡ arrived os (log_of s) ++ c
      → t.receive_queue ≡ s.receive_queue
      → t.message_types ≡ s.message_types
      → m.size ≡ length (p ++ c)
      → Ready os pb total pre all
          (record (take_in (length c) c m) { state = MessageState.dispatch })
          t
  unfolding take_in
  piece m s t track x r p c here read valid type size holds more queue types full =
      let agrees = Agrees-here os pb s.message_types x r track.rest track.ms here track.agrees in
      let ser = Agrees-head os pb s.message_types x (messages_in r) track.ms agrees in
      let (tail, e) = next-bytes os pb total pre all follows m s track t c more in
      let e' = data_bytes x r track.rest track.part p c tail here read e in
      let same : p ++ c ≡ pb.serialize x =
        append-first (p ++ c) (pb.serialize x) tail (outputs os pb r)
          (sym full ∙ size ∙ ser.size_eq) e' in
      let rest_is : tail ≡ outputs os pb r =
        append_cancel_left (pb.serialize x) _ _ (ap (λ b. b ++ tail) (sym same) ∙ e') in
      record {
        rest = r;
        ms = track.ms;
        message = x;
        read =
            track.whole
            ∙ ap (◌++◌ track.before) (sym e)
            ∙ sym (words-append track.before track.part c tail)
            ∙ regroup track.before track.part c tail
            ∙ ap (λ b. (b ++ c) ++ tail) (sym track.read)
            ∙ ap (λ b. b ++ tail) (sym more)
            ∙ ap (◌++◌ (arrived os (log_of t))) rest_is;
        agrees = rw types agrees;
        queue = rw queue track.queue;
        state = refl;
        type = type;
        size = size;
        content = rw full holds.content ∙ same;
      }

  unless_invalid :
      (b : Bool) (f g : Flow M)
      → b ≡ true
      → Ensures P Passed g
      → Ensures P Passed (if not b then f else g)
  unless_invalid true f g e h = h
  unless_invalid false f g e h = absurd (ground (arith, e))

  at_data :
      (m : WireMessage) (s : Connection M) (track : T m s) (x : M) (r : List (Output M)) (p : Bytes)
      → track.rest ≡ Output.message x ∷ r
      → track.part ≡ words_of os pb x ++ p
      → m.state ≡ MessageState.data_
      → m.valid ≡ true
      → m.type ≡ get_message_type_id os pb x
      → m.size ≡ pb.byte_size x
      → Holds m p
      → Ensures P Passed (receive_data os m s)
  unfolding receive_data is_complete
  at_data m s track x r p here read state valid type size holds =
      let (result, c, q) = PlatformSocket.read_bytes os (get_remaining_size m) s.platform_socket in
      let (counted, bound, more) =
        read_bytes_steady os steady (get_remaining_size m) s.platform_socket in
      let t = record s { platform_socket = q } in
      let m' = take_in (length c) c m in
      let at : in_state m.state MessageState.data_ ≡ true =
        ap (λ st. in_state st MessageState.data_) state in
      let room : length p + length c ≤ m.size = omega (
        arith,
        get_remaining_size-IsFilling m holds.filling,
        holds.count,
        holds.filling.buffer_size,
        bound,
      ) in
      let agrees = Agrees-here os pb s.message_types x r track.rest track.ms here track.agrees in
      let ser = Agrees-head os pb s.message_types x (messages_in r) track.ms agrees in
      let int : to_int32 result ≡ pos (length c) =
        ap to_int32 counted
        ∙ to_int32-id (pos (length c)) (omega (arith, room, size, ser.size_lt)) in
      let holds' = take_in-Holds m p c holds room in
      elim (Bool-cases (leb m.size m'.received_size)) [
        | inl done ↦
            let full : m.size ≡ length (p ++ c) =
              ground (arith, holds'.count, length-append p c, room) in
            simp (at, int, done)
              (unless_invalid m.valid _ _ valid (
                inr
                  (piece m s t track x r p c here read valid type size holds' more refl refl full)))
        | inr partly ↦
            simp (at, int, partly)
              (inl (
                further os pb total pre all m m' s t track c more refl refl (
                  filling x r (p ++ c) here
                    (ap (λ b. b ++ c) read ∙ append_assoc (words_of os pb x) p c) state valid type
                    size holds')))
      ]

  pub data-Track :
      (m : WireMessage) (s : Connection M) → T m s → Ensures P Passed (receive_data os m s)
  data-Track m s track = elim track.stage [
    | idle new none_read ↦ skip_data m s (idle_elsewhere m MessageState.data_ new refl) track
    | sizing x r here read m_eq ↦
        skip_data m s (ap (λ (m : WireMessage). in_state m.state MessageState.data_) m_eq) track
    | typing x r here read m_eq ↦
        skip_data m s (ap (λ (m : WireMessage). in_state m.state MessageState.data_) m_eq) track
    | filling x r p here read state valid type size holds ↦
        at_data m s track x r p here read state valid type size holds
  ]
