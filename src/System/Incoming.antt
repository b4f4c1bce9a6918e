-- ===== src/System/Incoming.antt =====
-- What a socket and its threads do to what it has received.
pub mod Delivered
pub mod Keeping
use lib_arcus.Prelude.{
  ℕ, ◌≤◌, ◌≡◌, ◌≢◌, refl, sym, ap, ◌∙◌, ◌⊎◌, inl, inr, true, false, some, none, List, [], ◌∷◌, ◌++◌,
  append_assoc, append-nil, arith, text, Bytes,
}
use lib_arcus.Types.{SocketState, ErrorCode}
use lib_arcus.Environment.{Os, Protobuf, ShutdownDirection}
use lib_arcus.PlatformSocket.{PlatformSocket}
use lib_arcus.PlatformSocket
use lib_arcus.Connection.{Connection, error, read_u32}
use lib_arcus.Connection.Receive.Arrivals.{Steady, arrived}
use lib_arcus.Connection.Receive.Deaf.{Deaf, Deaf-trans, error-Deaf, arrived-syscall}
use lib_arcus.Connection.Receive.Delivery.{log_of}
use lib_arcus.Connection.Worker.Moves.{Pc, move, waits}
use lib_arcus.Connection.Worker.Moves.Deaf.{move-Deaf}
use lib_arcus.Socket.{Taken, is_down, reset, clear_error, close_joined, notify_waiting, abort}
use lib_arcus.Socket
use lib_arcus.Socket.Calls.{remove_listener-cases, register_all-cases}
use lib_arcus.System.{
  System, Step, works, starts, asks, hands, hands_null, tests, sleeps, stirs, resumes, closes,
  requests, aborts, joins, resets, resets_early, clears, registers, imports, listens, unlistens,
  launches, takes, decides, with_conn, worked,
}
use lib_arcus.System.Taking.{through, take-through, wake-through, decides-through}

module _ {M : Type 0} (os : Os) (pb : Protobuf M) where
  -- Nothing was read, and no message came or was lost.
  abbrev pub Still : System M → System M → Type 0
  Still y z =
      (arrived os (log_of z.conn) ≡ arrived os (log_of y.conn))
      × (z.conn.current_message ≡ y.conn.current_message)
      × (through z ≡ through y)
      × (z.conn.message_types ≡ y.conn.message_types)

  Deaf-Still : (y : System M) (t : Connection M) → Deaf os y.conn t → Still y (with_conn os pb y t)
  unfolding through
  Deaf-Still y t d = (d.0, d.1, ap (◌++◌ y.taken) d.2, d.3)

  fails-Deaf :
      (why : Bytes) (s : Connection M) → Deaf os s (error ErrorCode.invalid_state_error why s)
  fails-Deaf why s = error-Deaf os ErrorCode.invalid_state_error why s

  reset-Deaf : (s : Connection M) → Deaf os s (reset s)
  unfolding reset clear_error
  reset-Deaf s = ground (arith, fails-Deaf (text "Socket is not in closed or error state") s)

  -- A type is registered in Initial alone.
  register-Deaf :
      (m : M) (s : Connection M)
      → s.state ≢ SocketState.initial
      → Deaf os s (Socket.register_message_type os pb m s).1
  unfolding Socket.register_message_type
  register-Deaf m s up = ground (arith, up, fails-Deaf (text "Socket is not in initial state") s)

  import-Deaf :
      (file_name : Bytes) (s : Connection M)
      → s.state ≢ SocketState.initial
      → Deaf os s (Socket.register_all_message_types os pb file_name s).1
  import-Deaf file_name s up = elim (register_all-cases os pb file_name s) [
    | inl (why, failed) ↦ rw failed (error-Deaf os _ why s)
    | inr (fresh, _, _) ↦ absurd (up fresh)
  ]

  unlisten-Deaf : (l : ℕ) (s t : Connection M) → Socket.remove_listener l s ≡ some t → Deaf os s t
  unlisten-Deaf l s t e = elim (remove_listener-cases l s t e) [
    | inl failed ↦ rw failed (error-Deaf os _ _ s)
    | inr (rest, gone) ↦ rw gone (refl, refl, refl, refl)
  ]

  listen-Deaf : (l : ℕ) (s : Connection M) → Deaf os s (Socket.add_listener l s)
  unfolding Socket.add_listener
  listen-Deaf l s = ground (arith, fails-Deaf (text "Socket is not in initial state") s)

  notify-Deaf : (s : Connection M) → Deaf os s (notify_waiting s)
  unfolding notify_waiting
  notify-Deaf s = (append-nil _, refl, refl, refl)

  abort-Deaf : (s : Connection M) → Deaf os s (abort os s)
  unfolding abort PlatformSocket.shutdown PlatformSocket.close
  abort-Deaf s =
      let p = (PlatformSocket.shutdown os ShutdownDirection.shutdown_both s.platform_socket).1 in
      (arrived-syscall os _ p ∙ arrived-syscall os _ s.platform_socket, refl, refl, refl)

  -- Taking a message moves it from the queue to those that were taken.
  take-Still : (y : System M) → Still y (takes os pb y (Socket.take_next_message y.conn))
  unfolding Socket.take_next_message
  take-Still y = ground (arith, take-through os pb y)

  wake-Still : (y : System M) → Still y (takes os pb y (Socket.wake y.conn))
  unfolding Socket.wake through
  wake-Still y = ground (arith, take-Still y)

  launches-Still :
      (wanted : SocketState) (address : Bytes) (port : ℕ) (y : System M)
      → Still y (launches os pb wanted address port y)
  unfolding launches through
  launches-Still wanted address port y =
      let d = fails-Deaf (text "Socket is not in initial state") y.conn in ground (arith, d)

  decides-Still : (y : System M) → Still y (decides os pb y)
  unfolding decides notify_waiting through
  decides-Still y =
      let d = fails-Deaf (text "Cannot close a socket in initial state") y.conn in
      let n = append-nil (arrived os (log_of y.conn)) in ground (arith, d, n)

  -- The worker hears where it receives a message and where it awaits a confirmation, and nowhere else
  -- is anything read.
  abbrev pub Hears : Pc → Type 0
  Hears p = (p ≡ Pc.flushed) ⊎ ((w : ℕ) × (p ≡ Pc.waiting w))

  pub step-Still :
      {y z : System M}
      → Step os pb y z
      → y.conn.state ≢ SocketState.initial
      → Still y z ⊎ (Hears y.pc × (z ≡ worked os pb y (move os pb y.pc y.conn)))
  unfolding Socket.send_message close_joined clear_error through
  step-Still {y} works up = elim (move-Deaf os pb y.pc y.conn) [
    | inl d ↦ inl (Deaf-Still y (move os pb y.pc y.conn).1 d)
    | inr hears ↦ inr (hears, refl)
  ]
  step-Still {y} (starts {wanted} address port way free) up =
      inl (launches-Still wanted address port y)
  step-Still {y} (asks here) up = inl (refl, refl, refl, refl)
  step-Still {y} (hands m) up = inl (refl, refl, refl, refl)
  step-Still {y} hands_null up = inl (
      Deaf-Still y (Socket.send_message none y.conn)
        (error-Deaf os ErrorCode.invalid_message_error (text "Message cannot be nullptr") y.conn))
  step-Still {y} (tests free) up = inl (take-Still y)
  step-Still {y} (sleeps here) up = inl (refl, refl, refl, refl)
  step-Still {y} (stirs here) up = inl (refl, refl, refl, refl)
  step-Still {y} (resumes here) up = inl (wake-Still y)
  step-Still {y} (closes free) up = inl (decides-Still y)
  step-Still {y} (requests here) up = inl (refl, refl, refl, refl)
  step-Still {y} (aborts here) up = inl (Deaf-Still y (abort os y.conn) (abort-Deaf y.conn))
  step-Still {y} (joins here gone) up =
      let t = close_joined y.conn in
      inl (Deaf-Still y t (notify-Deaf (record y.conn { thread = false })))
  step-Still {y} (resets here gone) up = inl (Deaf-Still y (reset y.conn) (reset-Deaf y.conn))
  step-Still {y} (resets_early down) up = inl (Deaf-Still y (reset y.conn) (reset-Deaf y.conn))
  step-Still {y} clears up = inl (refl, refl, refl, refl)
  step-Still {y} (registers m) up =
      let t = (Socket.register_message_type os pb m y.conn).1 in
      inl (Deaf-Still y t (register-Deaf m y.conn up))
  step-Still {y} (imports file_name) up =
      let t = (Socket.register_all_message_types os pb file_name y.conn).1 in
      inl (Deaf-Still y t (import-Deaf file_name y.conn up))
  step-Still {y} (listens l) up =
      inl (Deaf-Still y (Socket.add_listener l y.conn) (listen-Deaf l y.conn))
  step-Still {y} (unlistens l {t} e) up = inl (Deaf-Still y t (unlisten-Deaf l y.conn t e))
