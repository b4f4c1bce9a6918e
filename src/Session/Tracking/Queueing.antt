-- ===== src/Session/Tracking/Queueing.antt =====
-- `receiveNextMessage` of src/Socket_p.h at the end of a message, and as a whole.
use lib_arcus.Prelude.{
  arith, pos, length, take, ◌≡◌, refl, sym, ap, ◌∙◌, ◌++◌, inl, inr, true, false, some, none, List,
  [], ◌∷◌, Bytes, append_assoc, append-nil,
}
use lib_arcus.Integers.{to_int32, to_int32-id}
use lib_arcus.Environment.{Os, Event, Protobuf}
use lib_arcus.WireMessage.{WireMessage, MessageState}
use lib_arcus.Connection.{Connection}
use lib_arcus.Connection.Receive.{
  message_at_hand, dispatch, receive_next_message, handle_message, enqueue, message_size_maximum,
  in_state, bytes_of,
}
use lib_arcus.Connection.Receive.Arrivals.{Steady, arrived, arrived-tell}
use lib_arcus.Connection.Receive.Queue.{handle_message-enqueue}
use lib_arcus.MessageTypeStore.Table.{find}
use lib_arcus.Connection.Receive.Ensures.{Ensures, Ensures-and_then, Ensures-outcome}
use lib_arcus.Connection.Receive.Delivery.{log_of}
use lib_arcus.Connection.Worker.Moves.Outputs.{Output, messages_in}
use lib_arcus.Session.{Agrees}
use lib_arcus.Session.Tracking.{Stage, idle, sizing, typing, filling, Track, Ready, InStep, Follows}
use lib_arcus.Session.Tracking.Typing.{type-Track}
use lib_arcus.Session.Tracking.Words.{size-Track, idle_elsewhere}
use lib_arcus.Session.Tracking.Header.{header-Track}
use lib_arcus.Session.Tracking.Data.{Passed, data-Track}
use lib_arcus.Session.Tracking.Advance.{waiting}

module _ {M : Type 0} (os : Os) (pb : Protobuf M) (total : Bytes) (pre all : List M)
    (steady : Steady os) (follows : Follows os pb total) where
  abbrev T : WireMessage → Connection M → Type 0
  T m s = Track os pb total pre all m s

  abbrev P : Connection M → Type 0
  P s = InStep os pb total pre all s

  Stage-elsewhere :
      (m : WireMessage) (rest : List (Output M)) (part : Bytes)
      → Stage os pb m rest part
      → in_state m.state MessageState.dispatch ≡ false
  Stage-elsewhere m rest part (idle new none_read) = idle_elsewhere m MessageState.dispatch new refl
  Stage-elsewhere m rest part (sizing x r here read m_eq) =
      ap (λ (m : WireMessage). in_state m.state MessageState.dispatch) m_eq
  Stage-elsewhere m rest part (typing x r here read m_eq) =
      ap (λ (m : WireMessage). in_state m.state MessageState.dispatch) m_eq
  Stage-elsewhere m rest part (filling x r p here read state valid type size holds) =
      ap (λ st. in_state st MessageState.dispatch) state

  arrived-enqueue :
      (m : M) (s : Connection M) → arrived os (log_of (enqueue m s)) ≡ arrived os (log_of s)
  unfolding enqueue
  arrived-enqueue m s =
      append-nil _
      ∙ arrived-tell os Event.message_received s.listeners s.platform_socket (λ l h. refl)

  -- The message at hand is taken out of those that are to come.
  handled :
      (m : WireMessage) (s : Connection M) (ready : Ready os pb total pre all m s) (ms : List M)
      → Agrees os pb s.message_types (ready.message ∷ messages_in ready.rest) ms
      → pre ++ (s.receive_queue ++ ms) ≡ all
      → P (record (handle_message os pb m s) { current_message = none })
  unfolding message_at_hand enqueue
  handled m s ready [] agree eq = absurd agree
  handled m s ready (y ∷ ms) (ser, under, agree) eq =
      let known = ap (λ n. find n s.message_types.message_types) ready.type ∙ under.known in
      let whole : m.size ≡ length (pb.serialize ready.message) = ready.size ∙ ser.size_eq in
      let int : to_int32 (pos m.size) ≡ pos (length (pb.serialize ready.message)) =
        to_int32-id (pos m.size) (omega (arith, ready.size, ser.size_lt)) ∙ ap pos whole in
      let parses : pb.parse (pb.new_instance under.prototype) (take m.size (bytes_of m.buffer))
            (to_int32 (pos m.size)) message_size_maximum
          ≡ some y =
        rw (ready.content, int) under.parses in
      let queued = handle_message-enqueue os pb m s under.prototype y known parses in
      rw queued (record {
        rest = ready.rest;
        ms = ms;
        before = arrived os (log_of s);
        part = [];
        read = arrived-enqueue y s ∙ sym (append-nil _);
        whole = ready.read;
        stage = idle refl refl;
        agrees = agree;
        queue = ap (◌++◌ pre) (append_assoc s.receive_queue (y ∷ []) ms) ∙ eq;
      })

  pub dispatch-Track :
      (m : WireMessage) (s : Connection M)
      → Passed os pb total pre all steady follows m s
      → Ensures P (λ m. P) (dispatch os pb m s)
  unfolding dispatch message_at_hand
  dispatch-Track m s (inl track) =
      let elsewhere = Stage-elsewhere m track.rest track.part track.stage in
      rw elsewhere (
        waiting os pb total pre all m s (record s { current_message = some m }) refl refl refl
          track)
  dispatch-Track m s (inr ready) =
      let here : in_state m.state MessageState.dispatch ≡ true =
        ap (λ st. in_state st MessageState.dispatch) ready.state in
      rw here (handled m s ready ready.ms ready.agrees ready.queue)

  -- `receiveNextMessage` keeps a receiver in step with the stream of packets, however that is cut into
  -- pieces.
  pub receive_next_message-InStep :
      (s : Connection M)
      → InStep os pb total pre all s
      → InStep os pb total pre all (receive_next_message os pb s)
  unfolding receive_next_message
  receive_next_message-InStep s track =
      let Q = Passed os pb total pre all steady follows in
      Ensures-outcome P _ (
        Ensures-and_then P T _ _ _ (header-Track os pb total pre all steady follows _ s track)
          λ m s a.
            Ensures-and_then P T _ _ _ (size-Track os pb total pre all steady follows m s a)
              λ m s a.
                Ensures-and_then P T _ _ _ (type-Track os pb total pre all steady follows m s a)
                  λ m s a.
                    Ensures-and_then P Q _ _ _ (data-Track os pb total pre all steady follows m s a)
                      dispatch-Track)
