-- ===== src/Connection/Worker.antt =====
-- `run` of src/Socket_p.h, the worker thread: one pass of its loop is `perform`, the `switch`,
-- followed by `commit`, which makes the next state the current one.
pub mod Closing
pub mod Farewell
pub mod Memory
pub mod Moves
pub mod Opening
pub mod Passage
pub mod Transitions
pub mod Runs
use lib_arcus.Prelude.{
  ℕ, zero, suc, Bool, not, ◌&&◌, ◌||◌, Option, none, some, List, [], ◌∷◌, text, ◌==◌, if◌then◌else◌,
  is_minus_one,
}
use lib_arcus.Types.{SocketState, ErrorCode, same_state}
use lib_arcus.Environment.{Os, Event, Protobuf, ShutdownDirection}
use lib_arcus.PlatformSocket.{PlatformSocket, happens}
use lib_arcus.PlatformSocket
use lib_arcus.Connection.{
  Connection, error, fatal_error, tell_all, read_u32, write_u32, socket_close,
}
use lib_arcus.Connection.Send.{send_message, check_connection_state}
use lib_arcus.Connection.Receive.{receive_next_message}

abbrev on_platform :
    {M : Type 0} → (PlatformSocket → Bool × PlatformSocket) → Connection M → Bool × Connection M
on_platform f s = let (done, p) = f s.platform_socket in (done, record s { platform_socket = p })

abbrev pub receive_timeout : ℕ
receive_timeout = 250

-- Where the loop of `run` ends.
abbrev pub is_over : SocketState → Bool
is_over st = same_state st SocketState.closed || same_state st SocketState.error

module _ {M : Type 0} (os : Os) where
  -- The case of Connecting.
  unfoldable pub perform_connecting : Connection M → Connection M
  unfolding PlatformSocket.create PlatformSocket.connect PlatformSocket.set_receive_timeout
      fatal_error
  perform_connecting s =
      let (created, t) = on_platform (PlatformSocket.create os) s in
      if not created
      then fatal_error os ErrorCode.creation_error (text "Could not create a socket") t
      else (let (done, u) = on_platform (PlatformSocket.connect os s.address s.port) t in
          if not done
          then fatal_error os ErrorCode.connect_failed_error
              (text "Could not connect to the given address") u
          else (let (set, v) =
                on_platform (PlatformSocket.set_receive_timeout os receive_timeout) u in
              if not set
              then fatal_error os ErrorCode.connect_failed_error
                  (text "Failed to set socket receive timeout") v
              else record v { next_state = SocketState.connected }))

  -- The case of Opening.
  unfoldable pub perform_opening : Connection M → Connection M
  unfolding PlatformSocket.create PlatformSocket.bind fatal_error
  perform_opening s =
      let (created, t) = on_platform (PlatformSocket.create os) s in
      if not created
      then fatal_error os ErrorCode.creation_error (text "Could not create a socket") t
      else (let (done, u) = on_platform (PlatformSocket.bind os s.address s.port) t in
          if not done
          then fatal_error os ErrorCode.bind_failed_error
              (text "Could not bind to the given address and port") u
          else record u { next_state = SocketState.listening })

  -- The case of Listening. The result of `listen` is not tested.
  unfoldable pub perform_listening : Connection M → Connection M
  unfolding PlatformSocket.listen PlatformSocket.accept PlatformSocket.set_receive_timeout
      fatal_error
  perform_listening s =
      let (_, t) = on_platform (PlatformSocket.listen os 1) s in
      let (accepted, u) = on_platform (PlatformSocket.accept os) t in
      if not accepted
      then fatal_error os ErrorCode.accept_failed_error
          (text "Could not accept the incoming connection") u
      else (let (set, v) = on_platform (PlatformSocket.set_receive_timeout os receive_timeout) u in
          if not set
          then fatal_error os ErrorCode.accept_failed_error
              (text "Could not set receive timeout of socket") v
          else record v { next_state = SocketState.connected })

  -- `while(data != SOCKET_CLOSE && next_state == Closing)`: a read that fails ends it. `none` where
  -- the fuel runs out first.
  unfoldable pub await_close : ℕ → ℕ → Connection M → Option (Connection M)
  await_close zero word s = none
  await_close (suc f) word s =
      let (result, word', t) = read_u32 os word s in
      let rest = await_close f word' t in
      if not (word == socket_close) && same_state s.next_state SocketState.closing
      then (if is_minus_one result then some t else rest)
      else some s

  -- The end of the case of Closing.
  unfoldable pub finish_closing : Connection M → Connection M
  finish_closing s =
      let t = error ErrorCode.debug (text "Closing socket because other side requested close.") s in
      let (_, u) = on_platform (PlatformSocket.close os) t in
      record u { next_state = SocketState.closed }

  -- The other side asked first: drop what is queued and confirm.
  unfoldable pub confirm_close : Connection M → Connection M
  confirm_close s =
      let (_, t) = write_u32 os socket_close (record s { send_queue = [] }) in
      let (_, u) = on_platform (PlatformSocket.shutdown os ShutdownDirection.shutdown_write) t in u

  -- This side asks: tell the other one, and write no more.
  unfoldable pub request_close : Connection M → Connection M
  request_close s =
      let (_, t) = write_u32 os socket_close s in
      let u = error ErrorCode.debug (text "We got a request to close the socket.") t in
      let (_, v) = on_platform (PlatformSocket.shutdown os ShutdownDirection.shutdown_write) u in v

  -- What follows the `switch`.
  unfoldable pub commit : Connection M → Connection M
  unfolding tell_all
  commit s =
      if not (same_state s.next_state s.state)
      then tell_all (λ l. Event.state_changed l s.next_state) (record s { state = s.next_state })
      else s

module _ {M : Type 0} (os : Os) (pb : Protobuf M) where
  unfoldable pub send_messages : List M → Connection M → Connection M
  send_messages [] s = s
  send_messages (m ∷ ms) s = send_messages ms (send_message os pb m s)

  -- Take the queue as it is now, and send what was in it.
  unfoldable pub flush_send_queue : Connection M → Connection M
  flush_send_queue s = send_messages s.send_queue (record s { send_queue = [] })

  -- The case of Connected.
  unfoldable pub perform_connected : Connection M → Connection M
  perform_connected s =
      let t = receive_next_message os pb (flush_send_queue s) in
      if not (same_state t.next_state SocketState.error) then check_connection_state os t else t

  -- The case of Closing. The fuel is for the wait for the other side's confirmation.
  unfoldable pub perform_closing : ℕ → Connection M → Option (Connection M)
  perform_closing fuel s =
      if not s.received_close
      then elim (await_close os fuel 0 (request_close os (flush_send_queue s))) [
        | none ↦ none
        | some t ↦ some (finish_closing os t)
      ]
      else some (finish_closing os (confirm_close os s))

  unfoldable pub perform_in : SocketState → ℕ → Connection M → Option (Connection M)
  perform_in SocketState.connecting fuel s = some (perform_connecting os s)
  perform_in SocketState.opening fuel s = some (perform_opening os s)
  perform_in SocketState.listening fuel s = some (perform_listening os s)
  perform_in SocketState.connected fuel s = some (perform_connected s)
  perform_in SocketState.closing fuel s = perform_closing fuel s
  perform_in SocketState.initial fuel s = some s
  perform_in SocketState.closed fuel s = some s
  perform_in SocketState.error fuel s = some s

  -- The `switch`.
  unfoldable pub perform : ℕ → Connection M → Option (Connection M)
  unfolding perform_in
  perform fuel s = perform_in s.state fuel s

  -- The thread, on fuel for its rounds and for the wait inside a round.
  unfoldable pub run : ℕ → ℕ → Connection M → Option (Connection M)
  run zero fuel s = none
  run (suc rounds) fuel s =
      let rest : Option (Connection M) = elim (perform fuel s) [
        | none ↦ none
        | some t ↦ run rounds fuel (commit os t)
      ] in
      if is_over s.state
      then some (record s { platform_socket = happens Event.notify_all s.platform_socket })
      else rest
