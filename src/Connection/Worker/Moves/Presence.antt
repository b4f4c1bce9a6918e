-- ===== src/Connection/Worker/Moves/Presence.antt =====
-- Whether there is a worker, and its thread object, through the moves.
use lib_arcus.Prelude.{◌≡◌, ◌≢◌, refl, ◌∙◌, List, [], ◌∷◌, inl, inr, Bool-cases, arith}
use lib_arcus.Types.{SocketState}
use lib_arcus.Environment.{Os, Protobuf}
use lib_arcus.Connection.{Connection, error, fatal_error, read_u32, write_u32}
use lib_arcus.Connection.Send.{send_message, check_connection_state}
use lib_arcus.Connection.Receive.Presence.{receive_next_message-thread}
use lib_arcus.Connection.Worker.{
  is_over, send_messages, flush_send_queue, request_close, confirm_close, finish_closing, commit,
}
use lib_arcus.Connection.Worker.Moves.{
  Pc, move, enters, creates, connects, binds, accepts, sets_timeout, waits, loops,
}

module _ {M : Type 0} (os : Os) (pb : Protobuf M) where
  enters-present : (st : SocketState) (s : Connection M) → (enters os pb st s).0 ≢ Pc.absent
  unfolding enters creates
  enters-present SocketState.closing s e = elim (Bool-cases s.received_close) [
    | inl theirs ↦ ground (arith, e, theirs)
    | inr ours ↦ ground (arith, e, ours)
  ]
  enters-present st s e = ground (arith, e)

  pub move-present : (p : Pc) (s : Connection M) → (move os pb p s).0 ≡ Pc.absent → p ≡ Pc.absent
  unfolding move
  move-present Pc.absent s e = refl
  move-present Pc.looping s e = absurd (elim (Bool-cases (is_over s.state)) [
    | inl over ↦ ground (arith, e, over)
    | inr going ↦ enters-present s.state s (ground (arith, e, going))
  ])
  move-present p s e = ground arith

  send_messages-thread :
      (ms : List M) (s : Connection M) → (send_messages os pb ms s).thread ≡ s.thread
  unfolding send_messages send_message error
  send_messages-thread [] s = refl
  send_messages-thread (m ∷ ms) s =
      let sent : (send_message os pb m s).thread ≡ s.thread = ground arith in
      send_messages-thread ms (send_message os pb m s) ∙ sent

  flush_send_queue-thread : (s : Connection M) → (flush_send_queue os pb s).thread ≡ s.thread
  unfolding flush_send_queue
  flush_send_queue-thread s = send_messages-thread s.send_queue (record s { send_queue = [] })

  enters-thread : (st : SocketState) (s : Connection M) → (enters os pb st s).1.thread ≡ s.thread
  unfolding enters creates fatal_error request_close confirm_close error write_u32
  enters-thread SocketState.connecting s = ground arith
  enters-thread SocketState.opening s = ground arith
  enters-thread SocketState.listening s = ground arith
  enters-thread SocketState.connected s = flush_send_queue-thread s
  enters-thread SocketState.closing s = elim (Bool-cases s.received_close) [
    | inl theirs ↦ simp theirs refl
    | inr ours ↦ simp ours (flush_send_queue-thread s)
  ]
  enters-thread SocketState.initial s = refl
  enters-thread SocketState.closed s = refl
  enters-thread SocketState.error s = refl

  pub move-thread : (p : Pc) (s : Connection M) → (move os pb p s).1.thread ≡ s.thread
  unfolding move loops connects binds accepts sets_timeout waits fatal_error read_u32
      check_connection_state finish_closing commit error
  move-thread Pc.looping s = ground (arith, enters-thread s.state s)
  move-thread Pc.flushed s = receive_next_message-thread os pb s
  move-thread p s = ground arith
