-- ===== src/Connection/Worker/Moves/Ringing.antt =====
-- The receive queue in the moves of the worker: only receiving adds to it, and signals.
use lib_arcus.Prelude.{ℕ, ◌≡◌, refl, ◌∙◌, inl, inr, Bool-cases, List, [], ◌∷◌, arith}
use lib_arcus.Types.{SocketState}
use lib_arcus.Environment.{Os, Protobuf}
use lib_arcus.Connection.{Connection, error, fatal_error, read_u32, write_u32}
use lib_arcus.Connection.Send.{send_message, check_connection_state}
use lib_arcus.Connection.Receive.Ringing.{Rings, receive_next_message-Rings}
use lib_arcus.Connection.Worker.{
  send_messages, flush_send_queue, request_close, confirm_close, finish_closing, commit,
}
use lib_arcus.Connection.Worker.Moves.{
  Pc, move, creates, connects, binds, accepts, sets_timeout, waits, enters, loops,
}

module _ {M : Type 0} (os : Os) (pb : Protobuf M) where
  send_messages-queue :
      (ms : List M) (s : Connection M) → (send_messages os pb ms s).receive_queue ≡ s.receive_queue
  unfolding send_messages send_message error
  send_messages-queue [] s = refl
  send_messages-queue (m ∷ ms) s =
      let sent : (send_message os pb m s).receive_queue ≡ s.receive_queue = ground arith in
      send_messages-queue ms (send_message os pb m s) ∙ sent

  flush_send_queue-queue :
      (s : Connection M) → (flush_send_queue os pb s).receive_queue ≡ s.receive_queue
  unfolding flush_send_queue
  flush_send_queue-queue s = send_messages-queue s.send_queue (record s { send_queue = [] })

  enters-queue :
      (st : SocketState) (s : Connection M) → (enters os pb st s).1.receive_queue ≡ s.receive_queue
  unfolding enters creates fatal_error request_close confirm_close error write_u32
  enters-queue SocketState.connecting s = ground arith
  enters-queue SocketState.opening s = ground arith
  enters-queue SocketState.listening s = ground arith
  enters-queue SocketState.connected s = flush_send_queue-queue s
  enters-queue SocketState.closing s = elim (Bool-cases s.received_close) [
    | inl theirs ↦ simp theirs refl
    | inr ours ↦ simp ours (flush_send_queue-queue s)
  ]
  enters-queue SocketState.initial s = refl
  enters-queue SocketState.closed s = refl
  enters-queue SocketState.error s = refl

  -- Awaiting a confirmation puts nothing into the queue.
  pub waits-queue :
      (word : ℕ) (s : Connection M) → (waits os pb word s).1.receive_queue ≡ s.receive_queue
  unfolding waits read_u32
  waits-queue word s = ground arith

  pub move-Rings : (p : Pc) (s : Connection M) → Rings s (move os pb p s).1
  unfolding move loops connects binds accepts sets_timeout waits fatal_error read_u32
      check_connection_state finish_closing commit error
  move-Rings Pc.absent s = inl refl
  move-Rings Pc.looping s = inl (ground (arith, enters-queue s.state s))
  move-Rings Pc.created s = inl (ground arith)
  move-Rings Pc.binding s = inl (ground arith)
  move-Rings Pc.accepting s = inl (ground arith)
  move-Rings (Pc.timing code why) s = inl (ground arith)
  move-Rings (Pc.assigning st) s = inl refl
  move-Rings Pc.flushed s = receive_next_message-Rings os pb s
  move-Rings Pc.received s = inl (ground arith)
  move-Rings (Pc.waiting word) s = inl (ground arith)
  move-Rings Pc.finishing s = inl (ground arith)
  move-Rings Pc.switched s = inl (ground arith)
  move-Rings Pc.ended s = inl refl
