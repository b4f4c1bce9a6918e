-- ===== src/Session/Tracking/Words.antt =====
-- `receiveNextMessage` of src/Socket_p.h at the size of a message, in a stream that comes in pieces.
use lib_arcus.Prelude.{
  ◌%◌, ◌^◌, ◌≡◌, refl, sym, ap, ◌∙◌, ◌++◌, inl, inr, true, false, List, [], ◌∷◌, Bytes, length,
  arith,
}
use mathlib.Core.List.{append_cancel_left}
use mathlib.Core.Path.{subst}
use lib_arcus.ByteOrder.{htonl, ntohl, ntohl-htonl}
use lib_arcus.Environment.{Os, Protobuf}
use lib_arcus.MessageTypeStore.{MessageTypeStore}
use lib_arcus.WireMessage.{WireMessage, MessageState, new_wire_message}
use lib_arcus.Link.{Serializes}
use lib_arcus.Connection.{Connection, read_u32}
use lib_arcus.Connection.Send.{wire_header}
use lib_arcus.Connection.Receive.{receive_size, in_state}
use lib_arcus.Connection.Receive.Arrivals.{Steady, read_u32_steady}
use lib_arcus.Connection.Receive.Ensures.{Ensures}
use lib_arcus.Connection.Worker.Moves.Outputs.{Output, outputs, messages_in}
use lib_arcus.Session.{Agrees}
use lib_arcus.Session.Tracking.{
  idle, sizing, typing, filling, Track, InStep, Follows, outputs-message,
}
use lib_arcus.Session.Tracking.Advance.{word-first, next-bytes, further, waiting, kept}

pub idle_elsewhere :
    (m : WireMessage) (st : MessageState)
    → m ≡ new_wire_message
    → in_state MessageState.header st ≡ false
    → in_state m.state st ≡ false
unfolding new_wire_message
idle_elsewhere m st new other = ap (λ (m : WireMessage). in_state m.state st) new ∙ other

pub Agrees-head :
    {M : Type 0} (os : Os) (pb : Protobuf M) (types : MessageTypeStore M) (x : M) (l ms : List M)
    → Agrees os pb types (x ∷ l) ms
    → Serializes pb x
Agrees-head os pb types x l [] agree = absurd agree
Agrees-head os pb types x l (y ∷ ms) agree = agree.0

pub Agrees-here :
    {M : Type 0} (os : Os) (pb : Protobuf M) (types : MessageTypeStore M) (x : M)
    (r rest : List (Output M)) (ms : List M)
    → rest ≡ Output.message x ∷ r
    → Agrees os pb types (messages_in rest) ms
    → Agrees os pb types (x ∷ messages_in r) ms
unfolding messages_in
Agrees-here os pb types x r rest ms here agree =
    subst (λ l. Agrees os pb types (messages_in l) ms) here agree

module _ {M : Type 0} (os : Os) (pb : Protobuf M) (total : Bytes) (pre all : List M)
    (steady : Steady os) (follows : Follows os pb total) where
  abbrev T : WireMessage → Connection M → Type 0
  T m s = Track os pb total pre all m s

  abbrev P : Connection M → Type 0
  P s = InStep os pb total pre all s

  -- The second word of a frame.
  second_word :
      (x : M) (r rest : List (Output M)) (part bs tail : Bytes)
      → length bs ≡ 4
      → rest ≡ Output.message x ∷ r
      → part ≡ htonl wire_header
      → part ++ (bs ++ tail) ≡ outputs os pb rest
      → bs ≡ htonl (pb.byte_size x % 2 ^ 32)
  second_word x r rest part bs tail four here read e =
      let e' =
        ap (λ p. p ++ (bs ++ tail)) (sym read)
        ∙ e
        ∙ ap (outputs os pb) here
        ∙ outputs-message os pb x r in
      word-first bs tail _ (pb.byte_size x % 2 ^ 32) four
        (append_cancel_left (htonl wire_header) _ _ e')

  skip_size :
      (m : WireMessage) (s : Connection M)
      → in_state m.state MessageState.size ≡ false
      → T m s
      → Ensures P T (receive_size os m s)
  unfolding receive_size
  skip_size m s elsewhere track = rw elsewhere track

  at_size :
      (m : WireMessage) (s : Connection M) (track : T m s) (x : M) (r : List (Output M))
      → track.rest ≡ Output.message x ∷ r
      → track.part ≡ htonl wire_header
      → m ≡ record new_wire_message { state = MessageState.size }
      → Ensures P T (receive_size os m s)
  unfolding receive_size read_u32 new_wire_message
  at_size m s track x r here read m_eq =
      let t = (read_u32 os 0 s).2 in
      let n = pb.byte_size x % 2 ^ 32 in
      let at : in_state m.state MessageState.size ≡ true =
        ap (λ (m : WireMessage). in_state m.state MessageState.size) m_eq in
      elim (read_u32_steady os steady 0 s) [
        | inl (result, word, same) ↦
            rw (at, result)
              (kept os pb total pre all m t
                (waiting os pb total pre all m s t same refl refl track))
        | inr (bs, result, word, four, more) ↦
            let (tail, e) = next-bytes os pb total pre all follows m s track t bs more in
            let is_size = second_word x r track.rest track.part bs tail four here read e in
            let value : (read_u32 os 0 s).1 ≡ n =
              word ∙ ap ntohl is_size ∙ ntohl-htonl n (omega arith) in
            let m' : WireMessage = record m {
              size = (read_u32 os 0 s).1;
              state = MessageState.type;
            } in
            rw (at, result)
              (further os pb total pre all m m' s t track bs more refl refl (
                typing x r here (ap (λ p. p ++ bs) read ∙ ap (◌++◌ (htonl wire_header)) is_size)
                  (λ i. record (m_eq i) { size = value i; state = MessageState.type })))
      ]

  pub size-Track : (m : WireMessage) (s : Connection M) → T m s → Ensures P T (receive_size os m s)
  size-Track m s track = elim track.stage [
    | idle new none_read ↦ skip_size m s (idle_elsewhere m MessageState.size new refl) track
    | sizing x r here read m_eq ↦ at_size m s track x r here read m_eq
    | typing x r here read m_eq ↦
        skip_size m s (ap (λ (m : WireMessage). in_state m.state MessageState.size) m_eq) track
    | filling x r p here read state valid type size holds ↦
        skip_size m s (ap (λ st. in_state st MessageState.size) state) track
  ]
