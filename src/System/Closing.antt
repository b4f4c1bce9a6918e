-- ===== src/System/Closing.antt =====
-- In which state `close` leaves a socket when it has waited for the worker.
use lib_arcus.Prelude.{◌≡◌, refl, ◌⊎◌, inl, inr, true, false, arith}
use lib_arcus.Types.{SocketState}
use lib_arcus.Environment.{Os, Protobuf}
use lib_arcus.PlatformSocket.{PlatformSocket}
use lib_arcus.Connection.{new_connection, error}
use lib_arcus.Connection.Worker.{is_over}
use lib_arcus.Connection.Worker.Moves.{Pc, move}
use lib_arcus.Connection.Worker.Moves.Presence.{move-present}
use lib_arcus.Connection.Worker.Moves.Ranks.{Fits}
use lib_arcus.Socket.{
  is_down, not_initial, start, reset, clear_error, close_joined, notify_waiting, abort,
}
use lib_arcus.Socket
use lib_arcus.Socket.Calls.{remove_listener-Kept, register_all-Kept}
use lib_arcus.System.{
  System, Closer, Step, works, starts, asks, hands, hands_null, tests, sleeps, stirs, resumes,
  closes, requests, aborts, joins, resets, resets_early, clears, registers, imports, listens,
  unlistens, launches, Reach, made, later, worked, decides, IsGone,
}
use lib_arcus.System.Order.{IsOrdered, Reach-IsOrdered}

module _ {M : Type 0} (os : Os) (pb : Protobuf M) where
  -- Where there is no worker, nothing waits for one, and the socket was not started, or its worker
  -- has ended.
  abbrev IsSettled : System M → Type 0
  IsSettled y =
      y.pc ≡ Pc.absent
      → (y.closer ≡ Closer.free)
        × ((y.conn.state ≡ SocketState.initial) ⊎ (is_over y.conn.state ≡ true))

  works-IsSettled :
      (y : System M) → IsSettled y → IsSettled (worked os pb y (move os pb y.pc y.conn))
  unfolding move
  works-IsSettled y h gone =
      let before = move-present os pb y.pc y.conn gone in
      let (free, st) = h before in (free, rw before st)

  Step-IsSettled : {y z : System M} → Step os pb y z → IsOrdered y → IsSettled y → IsSettled z
  unfolding decides reset clear_error close_joined notify_waiting abort Socket.send_message
      Socket.take_next_message Socket.wake Socket.register_message_type Socket.add_listener error
      launches
  Step-IsSettled {y} works o h = works-IsSettled y h
  Step-IsSettled {y} (starts address port way free) o h = λ gone. ground (arith, h)
  Step-IsSettled {y} (asks here) o h = λ gone. ground (arith, h, here)
  Step-IsSettled {y} (hands m) o h = h
  Step-IsSettled {y} hands_null o h = h
  Step-IsSettled {y} (tests free) o h = λ gone. ground (arith, h)
  Step-IsSettled {y} (sleeps here) o h = h
  Step-IsSettled {y} (stirs here) o h = h
  Step-IsSettled {y} (resumes here) o h = λ gone. ground (arith, h)
  Step-IsSettled {y} (closes free) o h = λ gone. ground (arith, h)
  Step-IsSettled {y} (requests here) o h = λ gone. ground (arith, h)
  Step-IsSettled {y} (aborts here) o h = λ gone. ground (arith, h)
  Step-IsSettled {y} (joins here gone) o h = λ e. ground (arith, h, o.fits)
  Step-IsSettled {y} (resets free gone) o h = λ e. ground (arith, h, o.fits)
  Step-IsSettled {y} (resets_early up) o h = λ gone. ground (arith, h)
  Step-IsSettled {y} clears o h = h
  Step-IsSettled {y} (registers m) o h = λ gone. ground (arith, h)
  Step-IsSettled {y} (imports file_name) o h =
      λ gone. rw (register_all-Kept os pb file_name y.conn).0 (h gone)
  Step-IsSettled {y} (listens l) o h = λ gone. ground (arith, h)
  Step-IsSettled {y} (unlistens l {t} e) o h =
      λ gone. rw (remove_listener-Kept l y.conn t e).0 (h gone)

  Reach-IsSettled : {p : PlatformSocket} {y : System M} → Reach os pb p y → IsSettled y
  unfolding new_connection
  Reach-IsSettled made = λ gone. (refl, inl refl)
  Reach-IsSettled (later r st) = Step-IsSettled st (Reach-IsOrdered os pb r) (Reach-IsSettled r)

  pub ended-over : (pc : Pc) (st : SocketState) → Fits pc st → pc ≡ Pc.ended → is_over st ≡ true
  ended-over Pc.ended st fits e = fits
  ended-over pc st fits e = ground (arith, e)

  -- However the threads of a socket interleaved before: where `close` waits for the worker, and the
  -- worker is gone, the worker has ended by itself, and `close` leaves the socket in Closed or Error,
  -- and without a worker.
  pub close_joined-over :
      {p : PlatformSocket} {y : System M}
      → Reach os pb p y
      → y.closer ≡ Closer.joining
      → IsGone os pb y.pc
      → (y.pc ≡ Pc.ended)
        × (is_over (close_joined y.conn).state ≡ true)
        × ((close_joined y.conn).thread ≡ false)
  unfolding close_joined notify_waiting
  close_joined-over {y = y} r here (inl ended) =
      (ended, ended-over y.pc y.conn.state (Reach-IsOrdered os pb r).fits ended, refl)
  close_joined-over {y = y} r here (inr absent) =
      absurd (ground (arith, Reach-IsSettled r absent, here))
