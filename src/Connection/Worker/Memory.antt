-- ===== src/Connection/Worker/Memory.antt =====
-- What the worker never forgets: that the other side has asked to close.
use lib_arcus.Prelude.{
  ℕ, zero, suc, ◌≡◌, true, some, List, [], ◌∷◌, inl, inr, Bool-cases, Option-cases, arith,
}
use lib_arcus.Types.{SocketState}
use lib_arcus.Environment.{Os, Protobuf}
use lib_arcus.WireMessage.{WireMessage}
use lib_arcus.Connection.{Connection, error, fatal_error, read_u32, write_u32}
use lib_arcus.Connection.Send.{send_message, check_connection_state}
use lib_arcus.Connection.Receive.{
  receive_next_message, receive_header, check_header, receive_size, receive_type, allocate,
  receive_data, dispatch, handle_message, parse_failure, enqueue,
}
use lib_arcus.Connection.Receive.Ensures.{Ensures, Ensures-and_then, Ensures-outcome}
use lib_arcus.Connection.Worker.{
  perform, perform_in, perform_connecting, perform_opening, perform_listening, perform_connected,
  perform_closing, confirm_close, finish_closing, flush_send_queue, send_messages, commit, run,
  is_over,
}

module _ {M : Type 0} where
  abbrev Asked : Connection M → Type 0
  Asked s = s.received_close ≡ true

  abbrev AskedWith : WireMessage → Connection M → Type 0
  AskedWith m s = Asked s

  module _ (os : Os) (pb : Protobuf M) where
    send_messages-Asked :
        (ms : List M) (s : Connection M) → Asked s → Asked (send_messages os pb ms s)
    unfolding send_messages send_message error
    send_messages-Asked [] s a = a
    send_messages-Asked (m ∷ ms) s a =
        send_messages-Asked ms (send_message os pb m s) (ground arith)

    handle_message-Asked :
        (m : WireMessage) (s : Connection M) → Asked s → Asked (handle_message os pb m s)
    unfolding handle_message error parse_failure enqueue
    handle_message-Asked m s a = ground arith

    receive_header-Asked :
        (m : WireMessage) (s : Connection M)
        → Asked s
        → Ensures Asked AskedWith (receive_header os m s)
    unfolding receive_header check_header read_u32
    receive_header-Asked m s a = ground arith

    receive_size-Asked :
        (m : WireMessage) (s : Connection M)
        → Asked s
        → Ensures Asked AskedWith (receive_size os m s)
    unfolding receive_size read_u32
    receive_size-Asked m s a = ground arith

    receive_type-Asked :
        (m : WireMessage) (s : Connection M)
        → Asked s
        → Ensures Asked AskedWith (receive_type os m s)
    unfolding receive_type read_u32 allocate error fatal_error
    receive_type-Asked m s a = ground arith

    receive_data-Asked :
        (m : WireMessage) (s : Connection M)
        → Asked s
        → Ensures Asked AskedWith (receive_data os m s)
    unfolding receive_data
    receive_data-Asked m s a = ground arith

    dispatch-Asked :
        (m : WireMessage) (s : Connection M)
        → Asked s
        → Ensures Asked (λ m. Asked) (dispatch os pb m s)
    unfolding dispatch
    dispatch-Asked m s a = ground (arith, handle_message-Asked m s a)

    receive_next_message-Asked : (s : Connection M) → Asked s → Asked (receive_next_message os pb s)
    unfolding receive_next_message
    receive_next_message-Asked s a =
        let P = Asked in
        let Q = AskedWith in
        Ensures-outcome P _ (
          Ensures-and_then P Q _ _ _ (receive_header-Asked _ s a) λ m s a.
            Ensures-and_then P Q _ _ _ (receive_size-Asked m s a) λ m s a.
              Ensures-and_then P Q _ _ _ (receive_type-Asked m s a)
                λ m s a. Ensures-and_then P Q _ _ _ (receive_data-Asked m s a) dispatch-Asked)

    check_connection_state-Asked :
        (s : Connection M) → Asked s → Asked (check_connection_state os s)
    unfolding check_connection_state
    check_connection_state-Asked s a = ground arith

    flush_send_queue-Asked : (s : Connection M) → Asked s → Asked (flush_send_queue os pb s)
    unfolding flush_send_queue
    flush_send_queue-Asked s a = send_messages-Asked s.send_queue (record s { send_queue = [] }) a

    perform_connected-Asked : (s : Connection M) → Asked s → Asked (perform_connected os pb s)
    unfolding perform_connected
    perform_connected-Asked s a =
        let t = flush_send_queue os pb s in
        let u = receive_next_message os pb t in
        let read : Asked u = receive_next_message-Asked t (flush_send_queue-Asked s a) in
        let checked = check_connection_state-Asked u read in ground (arith, read, checked)

    perform_in-Asked :
        (st : SocketState) (fuel : ℕ) (s t : Connection M)
        → Asked s
        → perform_in os pb st fuel s ≡ some t
        → Asked t
    unfolding perform_in perform_closing perform_connecting perform_opening perform_listening
        finish_closing confirm_close fatal_error error write_u32
    perform_in-Asked SocketState.connected fuel s t a e =
        ground (arith, perform_connected-Asked s a)
    perform_in-Asked SocketState.initial fuel s t a e = ground arith
    perform_in-Asked SocketState.connecting fuel s t a e = ground arith
    perform_in-Asked SocketState.opening fuel s t a e = ground arith
    perform_in-Asked SocketState.listening fuel s t a e = ground arith
    perform_in-Asked SocketState.closing fuel s t a e = ground arith
    perform_in-Asked SocketState.closed fuel s t a e = ground arith
    perform_in-Asked SocketState.error fuel s t a e = ground arith

    commit-Asked : (s : Connection M) → Asked s → Asked (commit os s)
    unfolding commit
    commit-Asked s a = ground arith

    -- No run of the worker forgets that the other side has asked to close.
    pub run-Asked :
        (rounds fuel : ℕ) (s t : Connection M)
        → s.received_close ≡ true
        → run os pb rounds fuel s ≡ some t
        → t.received_close ≡ true
    unfolding run perform
    run-Asked zero fuel s t a e = cc
    run-Asked (suc rounds) fuel s t a e = elim (Bool-cases (is_over s.state)) [
      | inl over ↦ ground arith
      | inr more ↦ elim (Option-cases (perform os pb fuel s)) [
        | inl out ↦ ground arith
        | inr (u, performed) ↦
            run-Asked rounds fuel (commit os u) t
              (commit-Asked u (perform_in-Asked s.state fuel s u a performed)) (ground arith)
      ]
    ]
