-- ===== src/Connection/Worker/Moves.antt =====
-- The worker thread in small steps, between which the application's threads can change what they
-- share with it: a move calls the platform once, or does what a single case of the `switch` does
-- with the queues, and reads or writes the next state at most once.
pub mod Deaf
pub mod Outputs
pub mod Presence
pub mod Ranks
pub mod Ringing
pub mod Silent
pub mod Writes
use lib_arcus.Prelude.{
  ℕ, zero, suc, Bool, not, ◌&&◌, ◌==◌, text, if◌then◌else◌, is_minus_one, Bytes, ◌≡◌,
}
use lib_arcus.Types.{SocketState, ErrorCode, same_state}
use lib_arcus.Environment.{Os, Event, Protobuf}
use lib_arcus.PlatformSocket.{happens}
use lib_arcus.PlatformSocket
use lib_arcus.Connection.{Connection, fatal_error, read_u32, socket_close}
use lib_arcus.Connection.Send.{check_connection_state}
use lib_arcus.Connection.Receive.{receive_next_message}
use lib_arcus.Connection.Worker.{
  on_platform, receive_timeout, is_over, request_close, confirm_close, finish_closing,
  flush_send_queue, commit,
}

-- Where the worker stands.
pub data Pc : Type 0 where
  absent : Pc  -- there is no worker
  looping : Pc  -- at the test of the loop
  created : Pc  -- in Connecting, with a descriptor
  binding : Pc  -- in Opening, with a descriptor
  accepting : Pc  -- in Listening, at `accept`
  timing : ErrorCode → Bytes → Pc  -- before `setReceiveTimeout`, with the error if it fails
  assigning : SocketState → Pc  -- before `next_state = ...`
  flushed : Pc  -- in Connected, with the queue sent
  received : Pc  -- in Connected, after `receiveNextMessage`
  waiting : ℕ → Pc  -- in Closing, at the test of the wait, with the last word
  finishing : Pc  -- in Closing, at its end
  switched : Pc  -- after the `switch`
  ended : Pc  -- after `run`

module _ {M : Type 0} (os : Os) (pb : Protobuf M) where
  abbrev fails : ErrorCode → Bytes → Connection M → Pc × Connection M
  fails code message s = (Pc.switched, fatal_error os code message s)

  unfoldable pub creates : Pc → Connection M → Pc × Connection M
  unfolding PlatformSocket.create fatal_error
  creates then_at s =
      let (done, t) = on_platform (PlatformSocket.create os) s in
      if not done
      then fails ErrorCode.creation_error (text "Could not create a socket") t
      else (then_at, t)

  unfoldable pub connects : Connection M → Pc × Connection M
  unfolding PlatformSocket.connect fatal_error
  connects s =
      let (done, t) = on_platform (PlatformSocket.connect os s.address s.port) s in
      if not done
      then fails ErrorCode.connect_failed_error (text "Could not connect to the given address") t
      else (
        Pc.timing ErrorCode.connect_failed_error (text "Failed to set socket receive timeout"),
        t,
      )

  pub binds : Connection M → Pc × Connection M
  unfolding PlatformSocket.bind fatal_error
  binds s =
      let (done, t) = on_platform (PlatformSocket.bind os s.address s.port) s in
      if not done
      then fails ErrorCode.bind_failed_error (text "Could not bind to the given address and port") t
      else (Pc.assigning SocketState.listening, t)

  pub accepts : Connection M → Pc × Connection M
  unfolding PlatformSocket.accept fatal_error
  accepts s =
      let (done, t) = on_platform (PlatformSocket.accept os) s in
      if not done
      then fails ErrorCode.accept_failed_error (text "Could not accept the incoming connection") t
      else (
        Pc.timing ErrorCode.accept_failed_error (text "Could not set receive timeout of socket"),
        t,
      )

  unfoldable pub sets_timeout : ErrorCode → Bytes → Connection M → Pc × Connection M
  unfolding PlatformSocket.set_receive_timeout fatal_error
  sets_timeout code message s =
      let (done, t) = on_platform (PlatformSocket.set_receive_timeout os receive_timeout) s in
      if not done then fails code message t else (Pc.assigning SocketState.connected, t)

  -- One round of the wait for the confirmation.
  pub waits : ℕ → Connection M → Pc × Connection M
  waits word s =
      let (result, word', t) = read_u32 os word s in
      if not (word == socket_close) && same_state s.next_state SocketState.closing
      then (if is_minus_one result then (Pc.finishing, t) else (Pc.waiting word', t))
      else (Pc.finishing, s)

  -- Into the case of the `switch` for a state.
  unfoldable pub enters : SocketState → Connection M → Pc × Connection M
  unfolding creates PlatformSocket.listen
  enters SocketState.connecting s = creates Pc.created s
  enters SocketState.opening s = creates Pc.binding s
  enters SocketState.listening s =
      let (_, t) = on_platform (PlatformSocket.listen os 1) s in (Pc.accepting, t)
  enters SocketState.connected s = (Pc.flushed, flush_send_queue os pb s)
  enters SocketState.closing s =
      if not s.received_close
      then (Pc.waiting 0, request_close os (flush_send_queue os pb s))
      else (Pc.finishing, confirm_close os s)
  enters SocketState.initial s = (Pc.switched, s)
  enters SocketState.closed s = (Pc.switched, s)
  enters SocketState.error s = (Pc.switched, s)

  unfoldable pub loops : Connection M → Pc × Connection M
  loops s =
      if is_over s.state
      then (Pc.ended, record s { platform_socket = happens Event.notify_all s.platform_socket })
      else enters s.state s

  -- The worker's next move.
  unfoldable pub move : Pc → Connection M → Pc × Connection M
  unfolding loops enters connects binds accepts sets_timeout waits
  move Pc.absent s = (Pc.absent, s)
  move Pc.looping s = loops s
  move Pc.created s = connects s
  move Pc.binding s = binds s
  move Pc.accepting s = accepts s
  move (Pc.timing code message) s = sets_timeout code message s
  move (Pc.assigning st) s = (Pc.switched, record s { next_state = st })
  move Pc.flushed s = (Pc.received, receive_next_message os pb s)
  move Pc.received s =
      if not (same_state s.next_state SocketState.error)
      then (Pc.switched, check_connection_state os s)
      else (Pc.switched, s)
  move (Pc.waiting word) s = waits word s
  move Pc.finishing s = (Pc.switched, finish_closing os s)
  move Pc.switched s = (Pc.looping, commit os s)
  move Pc.ended s = (Pc.ended, s)
