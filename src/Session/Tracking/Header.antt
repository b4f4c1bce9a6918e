-- ===== src/Session/Tracking/Header.antt =====
-- `receiveNextMessage` of src/Socket_p.h at the first word of a packet, in a stream that comes in pieces.
use lib_arcus.Prelude.{
  ◌≡◌, refl, sym, ap, ◌∙◌, ◌++◌, inl, inr, true, false, List, [], ◌∷◌, Bytes, length, arith,
  length-append,
}
use lib_arcus.Types.{SocketState}
use lib_arcus.ByteOrder.{ntohl, ntohl-htonl}
use lib_arcus.Environment.{Os, Protobuf}
use lib_arcus.WireMessage.{WireMessage, MessageState, new_wire_message}
use lib_arcus.Connection.{Connection, read_u32, socket_close}
use lib_arcus.Connection.Send.{wire_header}
use lib_arcus.Connection.Receive.{receive_header, check_header, in_state}
use lib_arcus.Connection.Receive.Arrivals.{Steady, arrived, read_u32_steady}
use lib_arcus.Connection.Receive.Ensures.{Ensures}
use lib_arcus.Connection.Receive.Delivery.{log_of}
use lib_arcus.Connection.Worker.Moves.Outputs.{Output, outputs, messages_in}
use lib_arcus.Session.Tracking.{
  idle, sizing, typing, filling, Track, InStep, Follows, outputs-message,
}
use lib_arcus.Session.Tracking.Advance.{word-first, next-bytes, further, waiting, past, kept}

module _ {M : Type 0} (os : Os) (pb : Protobuf M) (total : Bytes) (pre all : List M)
    (steady : Steady os) (follows : Follows os pb total) where
  abbrev T : WireMessage → Connection M → Type 0
  T m s = Track os pb total pre all m s

  abbrev P : Connection M → Type 0
  P s = InStep os pb total pre all s

  check_header-silence :
      (m : WireMessage) (t : Connection M) → T m t → Ensures P T (check_header os 0 m t)
  unfolding check_header
  check_header-silence m t track = kept os pb total pre all m t track

  check_header-goodbye :
      (m : WireMessage) (t : Connection M) → T m t → Ensures P T (check_header os socket_close m t)
  unfolding check_header
  check_header-goodbye m t track =
      let u = record t { next_state = SocketState.closing; received_close = true } in
      kept os pb total pre all m u (waiting os pb total pre all m t u refl refl refl track)

  check_header-message :
      (m : WireMessage) (t : Connection M)
      → T (record m { state = MessageState.size }) t
      → Ensures P T (check_header os wire_header m t)
  unfolding check_header
  check_header-message m t track = track

  -- The first word of a packet.
  first_word :
      (m : WireMessage) (s t : Connection M) (track : T m s) (bs : Bytes)
      → m ≡ new_wire_message
      → track.part ≡ []
      → length bs ≡ 4
      → arrived os (log_of t) ≡ arrived os (log_of s) ++ bs
      → t.receive_queue ≡ s.receive_queue
      → t.message_types ≡ s.message_types
      → (rest : List (Output M)) (tail : Bytes) → track.rest ≡ rest
      → bs ++ tail ≡ outputs os pb rest
      → Ensures P T (check_header os (ntohl bs) m t)
  unfolding outputs messages_in
  first_word m s t track bs new none_read four more queue types [] tail here e =
      absurd (omega (arith, four, ap length e, length-append bs tail))
  first_word m s t track bs new none_read four more queue types (Output.keep_alive ∷ r) tail here
        e =
      let word = word-first bs tail (outputs os pb r) 0 four e in
      let value : ntohl bs ≡ 0 = ap ntohl word ∙ ntohl-htonl 0 (omega arith) in
      rw value (
        check_header-silence m t (
          past os pb total pre all m s t track Output.keep_alive r bs new none_read here refl
            (ap (λ x. x ++ outputs os pb r) (sym word)) more queue types))
  first_word m s t track bs new none_read four more queue types (Output.goodbye ∷ r) tail here e =
      let word = word-first bs tail (outputs os pb r) socket_close four e in
      let value : ntohl bs ≡ socket_close =
        ap ntohl word ∙ ntohl-htonl socket_close (omega arith) in
      rw value (
        check_header-goodbye m t (
          past os pb total pre all m s t track Output.goodbye r bs new none_read here refl
            (ap (λ x. x ++ outputs os pb r) (sym word)) more queue types))
  first_word m s t track bs new none_read four more queue types (Output.message x ∷ r) tail here e =
      let word = word-first bs tail _ wire_header four (e ∙ outputs-message os pb x r) in
      let value : ntohl bs ≡ wire_header = ap ntohl word ∙ ntohl-htonl wire_header (omega arith) in
      rw value (
        check_header-message m t (
          further os pb total pre all m (record m { state = MessageState.size }) s t track bs more
            queue types
            (sizing x r here (ap (λ p. p ++ bs) none_read ∙ word)
              (ap {A = WireMessage} (λ m. record m { state = MessageState.size }) new))))

  skip_header :
      (m : WireMessage) (s : Connection M) (st : MessageState)
      → m.state ≡ st
      → in_state st MessageState.header ≡ false
      → T m s
      → Ensures P T (receive_header os m s)
  unfolding receive_header
  skip_header m s st e other track =
      let elsewhere : in_state m.state MessageState.header ≡ false =
        ap (λ st. in_state st MessageState.header) e ∙ other in
      rw elsewhere track

  pub header-Track :
      (m : WireMessage) (s : Connection M) → T m s → Ensures P T (receive_header os m s)
  unfolding receive_header read_u32 new_wire_message
  header-Track m s track = elim track.stage [
    | idle new none_read ↦
        let t = (read_u32 os 0 s).2 in
        let at : in_state m.state MessageState.header ≡ true =
          ap (λ (m : WireMessage). in_state m.state MessageState.header) new in
        elim (read_u32_steady os steady 0 s) [
          | inl (result, word, same) ↦
              rw (at, word)
                (check_header-silence m t (waiting os pb total pre all m s t same refl refl track))
          | inr (bs, result, word, four, more) ↦
              let (tail, e) = next-bytes os pb total pre all follows m s track t bs more in
              let e' : bs ++ tail ≡ outputs os pb track.rest =
                ap (λ p. p ++ (bs ++ tail)) (sym none_read) ∙ e in
              rw (at, word)
                (first_word m s t track bs new none_read four more refl refl track.rest tail refl
                  e')
        ]
    | sizing x r here part m_eq ↦
        skip_header m s MessageState.size (ap (λ m. m.state) m_eq) refl track
    | typing x r here part m_eq ↦
        skip_header m s MessageState.type (ap (λ m. m.state) m_eq) refl track
    | filling x r p here part state valid type size holds ↦
        skip_header m s MessageState.data_ state refl track
  ]
