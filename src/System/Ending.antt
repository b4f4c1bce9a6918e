-- ===== src/System/Ending.antt =====
-- A worker that has ended, and the destruction of its socket.
use lib_arcus.Prelude.{◌≡◌, refl, ap, ◌∙◌, sym, inl, inr, Bool, true, false, not, Bool-cases, arith}
use lib_arcus.Environment.{Os, Protobuf}
use lib_arcus.PlatformSocket.{PlatformSocket}
use lib_arcus.Connection.{Connection, new_connection, error}
use lib_arcus.Connection.Worker.{is_over}
use lib_arcus.Connection.Worker.Moves.{Pc, move}
use lib_arcus.Connection.Worker.Moves.Presence.{move-present, move-thread}
use lib_arcus.Socket.{
  is_down, not_initial, start, reset, clear_error, close_joined, notify_waiting, abort,
}
use lib_arcus.Socket
use lib_arcus.Socket.Calls.{remove_listener-Kept, register_all-Kept}
use lib_arcus.Socket.Destructor.{Destroyed, destroy}
use lib_arcus.Socket.Destructor.Outcomes.{destroy-idle}
use lib_arcus.SocketListener.{Listeners}
use lib_arcus.System.{
  System, Step, works, starts, asks, hands, hands_null, tests, sleeps, stirs, resumes, closes,
  requests, aborts, joins, resets, resets_early, clears, registers, imports, listens, unlistens,
  launches, Reach, made, later, worked, decides,
}
use lib_arcus.System.Closing.{ended-over}
use lib_arcus.System.Order.{IsOrdered, Reach-IsOrdered}

abbrev is_absent : Pc → Bool
is_absent Pc.absent = true
is_absent _ = false

is_absent_eq : (p : Pc) → is_absent p ≡ true → p ≡ Pc.absent
is_absent_eq p e = ground (arith, e)

module _ {M : Type 0} (os : Os) (pb : Protobuf M) where
  -- The socket has a thread object as long as its worker was not joined.
  abbrev IsManned : System M → Type 0
  IsManned y = y.conn.thread ≡ not (is_absent y.pc)

  absent-move : (p : Pc) (s : Connection M) → is_absent (move os pb p s).0 ≡ is_absent p
  unfolding move
  absent-move p s = elim (Bool-cases (is_absent p)) [
    | inl gone ↦ rw (is_absent_eq p gone) refl
    | inr there ↦ elim (Bool-cases (is_absent (move os pb p s).0)) [
      | inl gone ↦
          let before = move-present os pb p s (is_absent_eq (move os pb p s).0 gone) in
          absurd (ground (arith, there, before))
      | inr still ↦ still ∙ sym there
    ]
  ]

  works-IsManned : (y : System M) → IsManned y → IsManned (worked os pb y (move os pb y.pc y.conn))
  works-IsManned y h = move-thread os pb y.pc y.conn ∙ h ∙ ap not (sym (absent-move y.pc y.conn))

  Step-IsManned : {y z : System M} → Step os pb y z → IsOrdered y → IsManned y → IsManned z
  unfolding decides reset clear_error close_joined notify_waiting abort Socket.send_message
      Socket.take_next_message Socket.wake Socket.register_message_type Socket.add_listener error
      launches
  Step-IsManned {y} works o h = works-IsManned y h
  Step-IsManned {y} (starts address port way free) o h = ground (arith, h)
  Step-IsManned {y} (asks here) o h = h
  Step-IsManned {y} (hands m) o h = h
  Step-IsManned {y} hands_null o h = h
  Step-IsManned {y} (tests free) o h = ground (arith, h)
  Step-IsManned {y} (sleeps here) o h = h
  Step-IsManned {y} (stirs here) o h = h
  Step-IsManned {y} (resumes here) o h = ground (arith, h)
  Step-IsManned {y} (closes free) o h = ground (arith, h)
  Step-IsManned {y} (requests here) o h = h
  Step-IsManned {y} (aborts here) o h = h
  Step-IsManned {y} (joins here gone) o h = refl
  Step-IsManned {y} (resets free gone) o h = ground (arith, h, o.fits, gone)
  Step-IsManned {y} (resets_early up) o h = ground (arith, h, up)
  Step-IsManned {y} clears o h = h
  Step-IsManned {y} (registers m) o h = ground (arith, h)
  Step-IsManned {y} (imports file_name) o h = (register_all-Kept os pb file_name y.conn).2 ∙ h
  Step-IsManned {y} (listens l) o h = ground (arith, h)
  Step-IsManned {y} (unlistens l {t} e) o h = (remove_listener-Kept l y.conn t e).2 ∙ h

  Reach-IsManned : {p : PlatformSocket} {y : System M} → Reach os pb p y → IsManned y
  unfolding new_connection
  Reach-IsManned made = refl
  Reach-IsManned (later r st) = Step-IsManned st (Reach-IsOrdered os pb r) (Reach-IsManned r)

  -- However the threads of a socket interleaved before: where its worker has ended by itself and was
  -- not joined, by `close` or `reset`, its thread object is still there, its state is Closed or Error,
  -- and the destructor of the socket calls `std::terminate`.
  pub ended-destroy :
      {p : PlatformSocket} {y : System M}
      → Reach os pb p y
      → y.pc ≡ Pc.ended
      → (store : Listeners)
      → (y.conn.thread ≡ true)
        × (is_over y.conn.state ≡ true)
        × (destroy os y.conn store ≡ Destroyed.terminated)
  ended-destroy {y = y} r ended store =
      let over = ended-over os pb y.pc y.conn.state (Reach-IsOrdered os pb r).fits ended in
      let worker : y.conn.thread ≡ true = Reach-IsManned r ∙ ap (λ pc. not (is_absent pc)) ended in
      (worker, over, destroy-idle os y.conn store worker (ground (arith, over)))
