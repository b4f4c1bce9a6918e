-- ===== src/Connection/Worker/Transitions.antt =====
-- Which states the worker goes through.
use lib_arcus.Prelude.{
  ℕ, zero, suc, ◌≡◌, refl, ◌∙◌, ◌⊎◌, inl, inr, some, Option-cases, List, [], ◌∷◌, arith,
}
use lib_arcus.Types.{SocketState}
use lib_arcus.Environment.{Os, Protobuf}
use lib_arcus.Connection.{Connection, error, write_u32, read_u32}
use lib_arcus.Connection.Send.{send_message, check_connection_state}
use lib_arcus.Connection.Receive.{receive_next_message}
use lib_arcus.Connection.Receive.Leads.{receive_next_message-Leads}
use lib_arcus.Connection.Worker.{
  perform_connecting, perform_opening, perform_listening, perform_connected, perform_closing,
  perform, await_close, request_close, confirm_close, finish_closing, send_messages,
  flush_send_queue, perform_in,
}

-- One pass of the `switch`, in a connection whose next state is still its state.
pub data Step : SocketState → SocketState → Type 0 where
  connects : Step SocketState.connecting SocketState.connected
  connect_fails : Step SocketState.connecting SocketState.error
  opens : Step SocketState.opening SocketState.listening
  open_fails : Step SocketState.opening SocketState.error
  accepts : Step SocketState.listening SocketState.connected
  accept_fails : Step SocketState.listening SocketState.error
  stays : Step SocketState.connected SocketState.connected
  closes : Step SocketState.connected SocketState.closing
  breaks : Step SocketState.connected SocketState.error
  ends : Step SocketState.closing SocketState.closed
  waits : Step SocketState.initial SocketState.initial
  stays_closed : Step SocketState.closed SocketState.closed
  stays_error : Step SocketState.error SocketState.error

module _ {M : Type 0} (os : Os) where
  perform_connecting-next :
      (s : Connection M)
      → ((perform_connecting os s).state ≡ s.state)
        × (((perform_connecting os s).next_state ≡ SocketState.connected)
            ⊎ ((perform_connecting os s).next_state ≡ SocketState.error))
  unfolding perform_connecting
  perform_connecting-next s = ground arith

  perform_opening-next :
      (s : Connection M)
      → ((perform_opening os s).state ≡ s.state)
        × (((perform_opening os s).next_state ≡ SocketState.listening)
            ⊎ ((perform_opening os s).next_state ≡ SocketState.error))
  unfolding perform_opening
  perform_opening-next s = ground arith

  perform_listening-next :
      (s : Connection M)
      → ((perform_listening os s).state ≡ s.state)
        × (((perform_listening os s).next_state ≡ SocketState.connected)
            ⊎ ((perform_listening os s).next_state ≡ SocketState.error))
  unfolding perform_listening
  perform_listening-next s = ground arith

  pub check_connection_state-next :
      (s : Connection M)
      → ((check_connection_state os s).state ≡ s.state)
        × (((check_connection_state os s).next_state ≡ s.next_state)
            ⊎ ((check_connection_state os s).next_state ≡ SocketState.closing))
  unfolding check_connection_state
  check_connection_state-next s = ground arith

module _ {M : Type 0} (os : Os) (pb : Protobuf M) where
  send_message-next :
      (m : M) (s : Connection M)
      → ((send_message os pb m s).state ≡ s.state)
        × ((send_message os pb m s).next_state ≡ s.next_state)
  unfolding send_message
  send_message-next m s = ground arith

  send_messages-next :
      (ms : List M) (s : Connection M)
      → ((send_messages os pb ms s).state ≡ s.state)
        × ((send_messages os pb ms s).next_state ≡ s.next_state)
  unfolding send_messages
  send_messages-next [] s = (refl, refl)
  send_messages-next (m ∷ ms) s =
      let (a, b) = send_messages-next ms (send_message os pb m s) in
      let (c, d) = send_message-next m s in (a ∙ c, b ∙ d)

  perform_connected-Leads :
      (s : Connection M)
      → ((perform_connected os pb s).state ≡ s.state)
        × (((perform_connected os pb s).next_state ≡ s.next_state)
            ⊎ (((perform_connected os pb s).next_state ≡ SocketState.closing)
                ⊎ ((perform_connected os pb s).next_state ≡ SocketState.error)))
  unfolding perform_connected flush_send_queue
  perform_connected-Leads s =
      let t = flush_send_queue os pb s in
      let sent = send_messages-next s.send_queue (record s { send_queue = [] }) in
      ground (
        arith,
        sent,
        receive_next_message-Leads os pb t,
        check_connection_state-next os (receive_next_message os pb t),
      )

  await_close-state :
      (fuel word : ℕ) (s t : Connection M) → await_close os fuel word s ≡ some t → t.state ≡ s.state
  unfolding await_close read_u32
  await_close-state zero word s t e = cc
  await_close-state (suc f) word s t e =
      ground (arith, await_close-state f (read_u32 os word s).1 (read_u32 os word s).2 t)

  request_close-state : (s : Connection M) → (request_close os s).state ≡ s.state
  unfolding request_close error write_u32
  request_close-state s = refl

  confirm_close-state : (s : Connection M) → (confirm_close os s).state ≡ s.state
  unfolding confirm_close error write_u32
  confirm_close-state s = refl

  pub finish_closing-state :
      (s : Connection M)
      → ((finish_closing os s).state ≡ s.state)
        × ((finish_closing os s).next_state ≡ SocketState.closed)
  unfolding finish_closing error write_u32
  finish_closing-state s = (refl, refl)

  pub flush_send_queue-next :
      (s : Connection M)
      → ((flush_send_queue os pb s).state ≡ s.state)
        × ((flush_send_queue os pb s).next_state ≡ s.next_state)
  unfolding flush_send_queue
  flush_send_queue-next s = send_messages-next s.send_queue (record s { send_queue = [] })

  perform_closing-closed :
      (fuel : ℕ) (s t : Connection M)
      → perform_closing os pb fuel s ≡ some t
      → (t.state ≡ s.state) × (t.next_state ≡ SocketState.closed)
  unfolding perform_closing
  perform_closing-closed fuel s t e =
      let asked = request_close os (flush_send_queue os pb s) in
      elim (Option-cases (await_close os fuel 0 asked)) [
        | inl out ↦ ground (arith, confirm_close-state s, finish_closing-state (confirm_close os s))
        | inr (u, ended) ↦ ground (
          arith,
          confirm_close-state s,
          finish_closing-state (confirm_close os s),
          await_close-state fuel 0 asked u ended,
          request_close-state (flush_send_queue os pb s),
          flush_send_queue-next s,
          finish_closing-state u,
        )
      ]

  perform_in-Step :
      (st : SocketState) (fuel : ℕ) (s t : Connection M)
      → s.state ≡ st
      → s.next_state ≡ st
      → perform_in os pb st fuel s ≡ some t
      → (t.state ≡ st) × Step st t.next_state
  unfolding perform_in
  perform_in-Step SocketState.initial fuel s t a b e =
      let n : t.next_state ≡ SocketState.initial = ground arith in (ground arith, rw n waits)
  perform_in-Step SocketState.connecting fuel s t a b e =
      let same : t ≡ perform_connecting os s = cc in
      let (keeps, next) = perform_connecting-next os s in
      (
        rw same (keeps ∙ a),
        elim next [ inl n ↦ rw (same, n) connects | inr n ↦ rw (same, n) connect_fails ],
      )
  perform_in-Step SocketState.connected fuel s t a b e =
      let same : t ≡ perform_connected os pb s = cc in
      let (keeps, next) = perform_connected-Leads s in
      (
        rw same (keeps ∙ a),
        elim next [
          | inl n ↦ rw (same, n, b) stays
          | inr (inl n) ↦ rw (same, n) closes
          | inr (inr n) ↦ rw (same, n) breaks
        ],
      )
  perform_in-Step SocketState.opening fuel s t a b e =
      let same : t ≡ perform_opening os s = cc in
      let (keeps, next) = perform_opening-next os s in
      (
        rw same (keeps ∙ a),
        elim next [ inl n ↦ rw (same, n) opens | inr n ↦ rw (same, n) open_fails ],
      )
  perform_in-Step SocketState.listening fuel s t a b e =
      let same : t ≡ perform_listening os s = cc in
      let (keeps, next) = perform_listening-next os s in
      (
        rw same (keeps ∙ a),
        elim next [ inl n ↦ rw (same, n) accepts | inr n ↦ rw (same, n) accept_fails ],
      )
  perform_in-Step SocketState.closing fuel s t a b e =
      let (keeps, n) = perform_closing-closed fuel s t e in (keeps ∙ a, rw n ends)
  perform_in-Step SocketState.closed fuel s t a b e =
      let n : t.next_state ≡ SocketState.closed = ground arith in (ground arith, rw n stays_closed)
  perform_in-Step SocketState.error fuel s t a b e =
      let n : t.next_state ≡ SocketState.error = ground arith in (ground arith, rw n stays_error)

  -- Where no other thread has asked for a state, one pass of the `switch` leaves the state as it is
  -- and asks for a state that the table `Step` allows: Connected is reached from Connecting and
  -- Listening only, Closed from Closing only, and Closing leads nowhere else.
  pub perform-Step :
      (fuel : ℕ) (s t : Connection M)
      → s.next_state ≡ s.state
      → perform os pb fuel s ≡ some t
      → (t.state ≡ s.state) × Step s.state t.next_state
  unfolding perform
  perform-Step fuel s t idle e = perform_in-Step s.state fuel s t refl idle e
