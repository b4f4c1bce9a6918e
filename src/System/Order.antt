-- ===== src/System/Order.antt =====
-- In which order a socket goes through its states, however its threads interleave.
use lib_arcus.Prelude.{ℕ, ◌≤◌, ◌≡◌, refl, ◌∙◌, ◌⊎◌, inl, inr, true, Bool-cases, arith, Bytes, text}
use mathlib.Core.Path.{subst}
use lib_arcus.Types.{SocketState, ErrorCode}
use lib_arcus.Environment.{Os, Protobuf}
use lib_arcus.PlatformSocket.{PlatformSocket}
use lib_arcus.Connection.{Connection, new_connection, error}
use lib_arcus.Connection.Worker.{is_over, commit}
use lib_arcus.Connection.Worker.Moves.{Pc, move, loops, enters}
use lib_arcus.Connection.Worker.Moves.Presence.{move-thread}
use lib_arcus.Connection.Worker.Moves.Ranks.{rank, Fits, IsAhead, move-Ascends}
use lib_arcus.Socket.{
  Taken, taken, waiting, nothing, is_down, cannot_start, invalid_state, ask, reset, clear_error,
  close_joined, notify_waiting, abort,
}
use lib_arcus.Socket
use lib_arcus.Socket.Calls.{Kept, error-Kept, remove_listener-Kept, register_all-Kept}
use lib_arcus.Socket.Lifecycle.{IsStart}
use lib_arcus.System.{
  System, Closer, Step, works, starts, asks, hands, hands_null, tests, sleeps, stirs, resumes,
  closes, requests, aborts, joins, resets, resets_early, clears, registers, imports, listens,
  unlistens, launches, Reach, made, later, worked, decides, with_conn,
}

-- What the thread that starts and closes the socket relies on.
abbrev pub Knows : {M : Type 0} → Closer → Connection M → Type 0
Knows Closer.free s = Unit {0}
Knows (Closer.starting wanted) s =
    IsStart wanted
    × (s.thread ≡ true)
    × (s.state ≡ SocketState.initial)
    × (s.next_state ≡ SocketState.initial)
Knows Closer.requesting s = 3 ≤ rank s.state
Knows Closer.aborting s = 1 ≤ rank s.state
Knows Closer.joining s = 1 ≤ rank s.state

-- A socket that can be started asks for nothing yet.
abbrev pub IsFresh : {M : Type 0} → Connection M → Type 0
IsFresh s = (1 ≤ rank s.state) ⊎ (s.thread ≡ true) ⊎ (s.next_state ≡ SocketState.initial)

pub record IsOrdered {M : Type 0} (y : System M) : Type 0 where
  pub fits : Fits y.pc y.conn.state
  pub ahead : IsAhead y.conn
  pub fresh : IsFresh y.conn
  pub knows : Knows y.closer y.conn

-- The state went on, or stayed, or the socket was reset.
abbrev pub Ascends : {M : Type 0} → System M → System M → Type 0
Ascends y z =
    (rank y.conn.state ≤ rank z.conn.state)
    ⊎ ((is_over y.conn.state ≡ true) × (z.conn.state ≡ SocketState.initial))

module _ {M : Type 0} (os : Os) (pb : Protobuf M) where
  abbrev Keeps : System M → System M → Type 0
  Keeps y z = IsOrdered z × Ascends y z

  initial_or_later : (st : SocketState) → (st ≡ SocketState.initial) ⊎ (1 ≤ rank st)
  initial_or_later st = ground arith

  -- A worker that is asked for nothing stays in Initial.
  move-initial :
      (p : Pc) (s : Connection M)
      → Fits p s.state
      → s.state ≡ SocketState.initial
      → s.next_state ≡ SocketState.initial
      → ((move os pb p s).1.state ≡ SocketState.initial)
        × ((move os pb p s).1.next_state ≡ SocketState.initial)
  unfolding move loops enters commit
  move-initial Pc.looping s fits here asked = simp here (refl, asked)
  move-initial Pc.switched s fits here asked = simp (here, asked) (refl, refl)
  move-initial p s fits here asked = ground arith

  works-IsFresh :
      (p : Pc) (s : Connection M)
      → Fits p s.state
      → rank s.state ≤ rank (move os pb p s).1.state
      → IsFresh s
      → IsFresh (move os pb p s).1
  works-IsFresh p s fits le (inl after) = inl (omega arith)
  works-IsFresh p s fits le (inr (inl thread)) = inr (inl (move-thread os pb p s ∙ thread))
  works-IsFresh p s fits le (inr (inr asked)) = elim (initial_or_later s.state) [
    | inl here ↦ inr (inr (move-initial p s fits here asked).1)
    | inr after ↦ inl (omega arith)
  ]

  works-Knows :
      (c : Closer) (p : Pc) (s : Connection M)
      → Fits p s.state
      → rank s.state ≤ rank (move os pb p s).1.state
      → Knows c s
      → Knows c (move os pb p s).1
  works-Knows Closer.free p s fits le h = tt
  works-Knows (Closer.starting wanted) p s fits le (way, thread, here, asked) =
      let (state, next) = move-initial p s fits here asked in
      (way, move-thread os pb p s ∙ thread, state, next)
  works-Knows Closer.requesting p s fits le h = omega arith
  works-Knows Closer.aborting p s fits le h = omega arith
  works-Knows Closer.joining p s fits le h = omega arith

  works-Keeps : (y : System M) → IsOrdered y → Keeps y (worked os pb y (move os pb y.pc y.conn))
  works-Keeps y o =
      let (fits, ahead, le) = move-Ascends os pb y.pc y.conn o.fits o.ahead in
      (
        record {
          fits = fits;
          ahead = ahead;
          fresh = works-IsFresh y.pc y.conn o.fits le o.fresh;
          knows = works-Knows y.closer y.pc y.conn o.fits le o.knows;
        },
        inl le,
      )

  Kept-Keeps :
      (y : System M) (t : Connection M)
      → Kept y.conn t
      → IsOrdered y
      → Keeps y (with_conn os pb y t)
  Kept-Keeps y t k o = ground arith

  launches-Keeps :
      (wanted : SocketState) (address : Bytes) (port : ℕ) (y : System M)
      → IsStart wanted
      → y.closer ≡ Closer.free
      → IsOrdered y
      → Keeps y (launches os pb wanted address port y)
  unfolding launches
  launches-Keeps wanted address port y way free o = elim (Bool-cases (cannot_start y.conn)) [
    | inl refused ↦ simp refused (
        Kept-Keeps y (invalid_state y.conn)
          (error-Kept ErrorCode.invalid_state_error (text "Socket is not in initial state") y.conn)
          o)
    | inr fine ↦ simp fine (
        let here : y.conn.state ≡ SocketState.initial = ground (arith, fine) in
        let asked : y.conn.next_state ≡ SocketState.initial = ground (arith, fine, here, o.fresh) in
        (
          record {
            fits = tt;
            ahead = o.ahead;
            fresh = inr (inl refl);
            knows = (way, refl, here, asked);
          },
          inl (omega arith),
        ))
  ]

  asks-Keeps :
      (wanted : SocketState) (y : System M)
      → y.closer ≡ Closer.starting wanted
      → IsOrdered y
      → Keeps y (record y { conn = ask wanted y.conn; closer = Closer.free })
  asks-Keeps wanted y here o =
      let (way, thread, fresh, asked) = subst (λ c. Knows c y.conn) here o.knows in
      let le : rank y.conn.state ≤ rank wanted = rw fresh (omega arith) in
      (
        record { fits = o.fits; ahead = inr le; fresh = inr (inl thread); knows = tt },
        inl (omega arith),
      )

  Step-Keeps : {y z : System M} → Step os pb y z → IsOrdered y → Keeps y z
  unfolding decides reset clear_error close_joined notify_waiting abort Socket.send_message
      Socket.take_next_message Socket.wake Socket.register_message_type Socket.add_listener error
  Step-Keeps {y} works o = works-Keeps y o
  Step-Keeps {y} (starts {wanted} address port way free) o =
      launches-Keeps wanted address port y way free o
  Step-Keeps {y} (asks {wanted} here) o = asks-Keeps wanted y here o
  Step-Keeps (hands m) o = ground arith
  Step-Keeps hands_null o = ground arith
  Step-Keeps (tests free) o = ground arith
  Step-Keeps (sleeps free) o = ground arith
  Step-Keeps (stirs e) o = ground arith
  Step-Keeps (resumes e) o = ground arith
  Step-Keeps (closes e) o = ground arith
  Step-Keeps (requests e) o = ground arith
  Step-Keeps (aborts e) o = ground arith
  Step-Keeps (joins e gone) o = ground arith
  Step-Keeps (resets e gone) o = ground arith
  Step-Keeps (resets_early up) o = ground arith
  Step-Keeps clears o = ground arith
  Step-Keeps (registers m) o = ground arith
  Step-Keeps {y} (imports file_name) o =
      Kept-Keeps y (Socket.register_all_message_types os pb file_name y.conn).1
        (register_all-Kept os pb file_name y.conn) o
  Step-Keeps (listens l) o = ground arith
  Step-Keeps {y} (unlistens l {t} e) o = Kept-Keeps y t (remove_listener-Kept l y.conn t e) o

  pub Reach-IsOrdered : {p : PlatformSocket} {y : System M} → Reach os pb p y → IsOrdered y
  unfolding new_connection
  Reach-IsOrdered made = record {
    fits = tt;
    ahead = inr (omega arith);
    fresh = inr (inr refl);
    knows = tt;
  }
  Reach-IsOrdered (later r st) = (Step-Keeps st (Reach-IsOrdered r)).0

  -- In whatever order the threads take their steps, the state never goes back, from Initial by
  -- Connecting, or by Opening and Listening, to Connected, Closing, and Closed or Error, but by a
  -- reset of a socket in Closed or Error, which leads to Initial.
  pub Step-Ascends :
      {p : PlatformSocket} {y z : System M}
      → Reach os pb p y
      → Step os pb y z
      → (rank y.conn.state ≤ rank z.conn.state)
        ⊎ ((is_over y.conn.state ≡ true) × (z.conn.state ≡ SocketState.initial))
  Step-Ascends r st = (Step-Keeps st (Reach-IsOrdered r)).1
