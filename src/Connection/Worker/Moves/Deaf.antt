-- ===== src/Connection/Worker/Moves/Deaf.antt =====
-- The moves of the worker, as to what is read.
use lib_arcus.Prelude.{
  ℕ, ◌⊎◌, ◌≡◌, refl, List, [], ◌∷◌, Bytes, append-nil, arith, text, Bool-cases, inl, inr,
}
use lib_arcus.Types.{SocketState, ErrorCode}
use lib_arcus.Environment.{Os, Call, Event, Protobuf, ShutdownDirection}
use lib_arcus.PlatformSocket.{PlatformSocket, syscall}
use lib_arcus.PlatformSocket
use lib_arcus.Connection.{Connection, fatal_error, error, tell_all, write_u32, socket_close}
use lib_arcus.Connection.Send.{send_message}
use lib_arcus.Connection.Send.Deaf.{send_message-Deaf, check_connection_state-Deaf}
use lib_arcus.Connection.Receive.Arrivals.{arrived, arrived-tell}
use lib_arcus.Connection.Receive.Deaf.{
  Deaf, Deaf-trans, arrived-syscall, error-Deaf, fatal_error-Deaf, write_u32-Deaf,
}
use lib_arcus.Connection.Worker.{
  finish_closing, request_close, confirm_close, commit, on_platform, receive_timeout, send_messages,
  flush_send_queue,
}
use lib_arcus.Connection.Worker.Moves.{
  Pc, move, creates, connects, binds, accepts, sets_timeout, enters, loops,
}

module _ {M : Type 0} (os : Os) (pb : Protobuf M) where
  same-Deaf : (s : Connection M) → Deaf os s s
  same-Deaf s = (refl, refl, refl, refl)

  fails-Deaf :
      (code : ErrorCode) (why : Bytes) (s t : Connection M)
      → Deaf os s t
      → Deaf os s (fatal_error os code why t)
  fails-Deaf code why s t d =
      Deaf-trans os s t (fatal_error os code why t) d (fatal_error-Deaf os code why t)

  platform-Deaf :
      (s : Connection M) (p : PlatformSocket)
      → arrived os p.log ≡ arrived os s.platform_socket.log
      → Deaf os s (record s { platform_socket = p })
  platform-Deaf s p same = (same, refl, refl, refl)

  creates-Deaf : (p : Pc) (s : Connection M) → Deaf os s (creates os pb p s).1
  unfolding creates PlatformSocket.create
  creates-Deaf p s =
      let t = (on_platform (PlatformSocket.create os) s).1 in
      let d =
        platform-Deaf s t.platform_socket (arrived-syscall os Call.socket s.platform_socket) in
      ground
        (arith, d, fails-Deaf ErrorCode.creation_error (text "Could not create a socket") s t d)

  connects-Deaf : (s : Connection M) → Deaf os s (connects os pb s).1
  unfolding connects PlatformSocket.connect
  connects-Deaf s =
      let t = (on_platform (PlatformSocket.connect os s.address s.port) s).1 in
      let d = platform-Deaf s t.platform_socket (arrived-syscall os _ s.platform_socket) in
      let failed =
        fails-Deaf ErrorCode.connect_failed_error (text "Could not connect to the given address") s
          t d in
      ground (arith, d, failed)

  binds-Deaf : (s : Connection M) → Deaf os s (binds os pb s).1
  unfolding binds PlatformSocket.bind
  binds-Deaf s =
      let t = (on_platform (PlatformSocket.bind os s.address s.port) s).1 in
      let d = platform-Deaf s t.platform_socket (arrived-syscall os _ s.platform_socket) in
      let failed =
        fails-Deaf ErrorCode.bind_failed_error (text "Could not bind to the given address and port")
          s t d in
      ground (arith, d, failed)

  sets_timeout-Deaf :
      (code : ErrorCode) (why : Bytes) (s : Connection M)
      → Deaf os s (sets_timeout os pb code why s).1
  unfolding sets_timeout PlatformSocket.set_receive_timeout
  sets_timeout-Deaf code why s =
      let t = (on_platform (PlatformSocket.set_receive_timeout os receive_timeout) s).1 in
      let d = platform-Deaf s t.platform_socket (arrived-syscall os _ s.platform_socket) in
      ground (arith, d, fails-Deaf code why s t d)

  arrived-accept :
      (p : PlatformSocket) → arrived os (PlatformSocket.accept os p).1.log ≡ arrived os p.log
  unfolding PlatformSocket.accept
  arrived-accept p =
      let q = (syscall os (Call.accept p.socket_id) p).1 in
      ground (
        arith,
        arrived-syscall os (Call.accept p.socket_id) p,
        arrived-syscall os (Call.close q.socket_id) q,
      )

  accepts-Deaf : (s : Connection M) → Deaf os s (accepts os pb s).1
  unfolding accepts
  accepts-Deaf s =
      let t = (on_platform (PlatformSocket.accept os) s).1 in
      let d = platform-Deaf s t.platform_socket (arrived-accept s.platform_socket) in
      let failed =
        fails-Deaf ErrorCode.accept_failed_error (text "Could not accept the incoming connection") s
          t d in
      ground (arith, d, failed)

  send_messages-Deaf : (ms : List M) (s : Connection M) → Deaf os s (send_messages os pb ms s)
  unfolding send_messages
  send_messages-Deaf [] s = same-Deaf s
  send_messages-Deaf (m ∷ ms) s =
      let t = send_message os pb m s in
      Deaf-trans os s t (send_messages os pb ms t) (send_message-Deaf os pb m s)
        (send_messages-Deaf ms t)

  flush_send_queue-Deaf : (s : Connection M) → Deaf os s (flush_send_queue os pb s)
  unfolding flush_send_queue
  flush_send_queue-Deaf s = send_messages-Deaf s.send_queue (record s { send_queue = [] })

  shutdown-Deaf :
      (s : Connection M)
      → Deaf os s (on_platform (PlatformSocket.shutdown os ShutdownDirection.shutdown_write) s).1
  unfolding PlatformSocket.shutdown
  shutdown-Deaf s = (arrived-syscall os _ s.platform_socket, refl, refl, refl)

  request_close-Deaf : (s : Connection M) → Deaf os s (request_close os s)
  unfolding request_close
  request_close-Deaf s =
      let t = (write_u32 os socket_close s).1 in
      let u = error ErrorCode.debug (text "We got a request to close the socket.") t in
      Deaf-trans os s t (request_close os s) (write_u32-Deaf os socket_close s)
        (Deaf-trans os t u (request_close os s) (error-Deaf os _ _ t) (shutdown-Deaf u))

  confirm_close-Deaf : (s : Connection M) → Deaf os s (confirm_close os s)
  unfolding confirm_close
  confirm_close-Deaf s =
      let u = record s { send_queue = [] } in
      let t = (write_u32 os socket_close u).1 in
      Deaf-trans os s t (confirm_close os s) (write_u32-Deaf os socket_close u) (shutdown-Deaf t)

  finish_closing-Deaf : (s : Connection M) → Deaf os s (finish_closing os s)
  unfolding finish_closing PlatformSocket.close
  finish_closing-Deaf s =
      let why = text "Closing socket because other side requested close." in
      let t = error ErrorCode.debug why s in
      Deaf-trans os s t (finish_closing os s) (error-Deaf os ErrorCode.debug why s)
        (arrived-syscall os _ t.platform_socket, refl, refl, refl)

  commit-Deaf : (s : Connection M) → Deaf os s (commit os s)
  unfolding commit tell_all
  commit-Deaf s =
      let told =
        arrived-tell os (λ l. Event.state_changed l s.next_state) s.listeners s.platform_socket
          (λ l h. refl) in
      ground (arith, told)

  enters-Deaf : (st : SocketState) (s : Connection M) → Deaf os s (enters os pb st s).1
  unfolding enters PlatformSocket.listen
  enters-Deaf SocketState.connecting s = creates-Deaf Pc.created s
  enters-Deaf SocketState.opening s = creates-Deaf Pc.binding s
  enters-Deaf SocketState.listening s = (arrived-syscall os _ s.platform_socket, refl, refl, refl)
  enters-Deaf SocketState.connected s = flush_send_queue-Deaf s
  enters-Deaf SocketState.closing s =
      let t = flush_send_queue os pb s in
      let d =
        Deaf-trans os s t (request_close os t) (flush_send_queue-Deaf s) (request_close-Deaf t) in
      elim (Bool-cases s.received_close) [
        | inl theirs ↦ simp theirs (confirm_close-Deaf s)
        | inr ours ↦ simp ours d
      ]
  enters-Deaf SocketState.initial s = same-Deaf s
  enters-Deaf SocketState.closed s = same-Deaf s
  enters-Deaf SocketState.error s = same-Deaf s

  loops-Deaf : (s : Connection M) → Deaf os s (loops os pb s).1
  unfolding loops
  loops-Deaf s =
      let d : Deaf os s (record s {
        platform_socket = PlatformSocket.happens Event.notify_all s.platform_socket;
      }) =
        (append-nil _, refl, refl, refl) in
      ground (arith, d, enters-Deaf s.state s)

  -- A move reads nothing, but when a message is received or a confirmation awaited.
  pub move-Deaf :
      (p : Pc) (s : Connection M)
      → Deaf os s (move os pb p s).1 ⊎ ((p ≡ Pc.flushed) ⊎ ((w : ℕ) × (p ≡ Pc.waiting w)))
  unfolding move
  move-Deaf Pc.absent s = inl (same-Deaf s)
  move-Deaf Pc.looping s = inl (loops-Deaf s)
  move-Deaf Pc.created s = inl (connects-Deaf s)
  move-Deaf Pc.binding s = inl (binds-Deaf s)
  move-Deaf Pc.accepting s = inl (accepts-Deaf s)
  move-Deaf (Pc.timing code why) s = inl (sets_timeout-Deaf code why s)
  move-Deaf (Pc.assigning st) s = inl (refl, refl, refl, refl)
  move-Deaf Pc.flushed s = inr (inl refl)
  move-Deaf Pc.received s = inl (ground (arith, same-Deaf s, check_connection_state-Deaf os s))
  move-Deaf (Pc.waiting word) s = inr (inr (word, refl))
  move-Deaf Pc.finishing s = inl (finish_closing-Deaf s)
  move-Deaf Pc.switched s = inl (commit-Deaf s)
  move-Deaf Pc.ended s = inl (same-Deaf s)
