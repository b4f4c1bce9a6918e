-- ===== src/System/Incoming/Keeping.antt =====
-- A socket in use, step by step.
use lib_arcus.Prelude.{
  ℕ, ◌≤◌, ◌≡◌, ◌≢◌, sym, ap, ◌∙◌, ◌⊎◌, inl, inr, List, ◌++◌, append_assoc, arith, Bytes,
}
use mathlib.Core.Path.{subst}
use lib_arcus.Types.{SocketState}
use lib_arcus.Environment.{Os, Protobuf}
use lib_arcus.PlatformSocket.{PlatformSocket}
use lib_arcus.Connection.Receive.Arrivals.{Steady}
use lib_arcus.Connection.Worker.Moves.{Pc, move}
use lib_arcus.Connection.Worker.Moves.Ringing.{waits-queue}
use lib_arcus.Connection.Worker.Moves.Ranks.{rank, Fits}
use lib_arcus.Session.Tracking.{InStep, Follows}
use lib_arcus.Session.Tracking.Queueing.{receive_next_message-InStep}
use lib_arcus.System.{System, Step, Reach, later, worked}
use lib_arcus.System.Order.{Reach-IsOrdered, Step-Ascends}
use lib_arcus.System.Taking.{through}
use lib_arcus.System.Incoming.{Still, step-Still}

module _ {M : Type 0} (os : Os) (pb : Protobuf M) where
  -- The states that are reached from `x` without one in Initial.
  pub data Onward (x : System M) : System M → Type 0 where
    begins : Onward x x
    goes_on :
        {y z : System M}
        → Onward x y
        → Step os pb y z
        → z.conn.state ≢ SocketState.initial
        → Onward x z

  Reach-Onward :
      {p : PlatformSocket} {x y : System M} → Reach os pb p x → Onward x y → Reach os pb p y
  Reach-Onward r begins = r
  Reach-Onward r (goes_on on st up) = later (Reach-Onward r on) st

  up-Onward :
      {x y : System M}
      → x.conn.state ≢ SocketState.initial
      → Onward x y
      → y.conn.state ≢ SocketState.initial
  up-Onward up begins = up
  up-Onward up (goes_on on st up') = up'

  module _ (total : Bytes) (all : List M) where
    -- Until the connection is being closed, the receiver keeps track of the stream; then it may read
    -- on for a confirmation, and no message comes any more.
    abbrev pub Held : System M → Type 0
    Held y =
        InStep os pb total y.taken all y.conn
        ⊎ ((4 ≤ rank y.conn.state)
            × ((ms : List M) × (y.taken ++ (y.conn.receive_queue ++ ms) ≡ all)))

    pub Held-left : (y : System M) → Held y → (left : List M) × (through y ++ left ≡ all)
    unfolding through
    Held-left y (inl track) =
        (track.ms, append_assoc y.taken y.conn.receive_queue track.ms ∙ track.queue)
    Held-left y (inr (closing, (ms, eq))) = (ms, append_assoc y.taken y.conn.receive_queue ms ∙ eq)

    Still-InStep :
        (y z : System M)
        → Still os pb y z
        → InStep os pb total y.taken all y.conn
        → InStep os pb total z.taken all z.conn
    unfolding through
    Still-InStep y z (same, current, through_eq, types) track = record {
      rest = track.rest;
      ms = track.ms;
      before = track.before;
      part = track.part;
      read = same ∙ track.read;
      whole = track.whole;
      stage = rw current track.stage;
      agrees = rw types track.agrees;
      queue =
          sym (append_assoc z.taken z.conn.receive_queue track.ms)
          ∙ ap (λ q. q ++ track.ms) through_eq
          ∙ append_assoc y.taken y.conn.receive_queue track.ms
          ∙ track.queue;
    }

    Still-Held :
        (y z : System M) → Still os pb y z → rank y.conn.state ≤ rank z.conn.state → Held y → Held z
    unfolding through
    Still-Held y z still le (inl track) = inl (Still-InStep y z still track)
    Still-Held y z still le (inr (closing, (ms, eq))) = inr (
      omega arith,
      (
        ms,
        sym (append_assoc z.taken z.conn.receive_queue ms)
            ∙ ap (λ q. q ++ ms) still.2
            ∙ append_assoc y.taken y.conn.receive_queue ms
            ∙ eq,
      ),
    )

    -- A round of the wait for a confirmation.
    waiting-Held :
        (y : System M) (word : ℕ)
        → y.conn.state ≡ SocketState.closing
        → rank y.conn.state ≤ rank (move os pb (Pc.waiting word) y.conn).1.state
        → Held y
        → Held (worked os pb y (move os pb (Pc.waiting word) y.conn))
    unfolding move through
    waiting-Held y word closing le h =
        let (left, eq) = Held-left y h in
        let closing' : 4 ≤ rank y.conn.state = rw closing (omega arith) in
        inr (
          omega arith,
          (
            left,
            ap (λ q. y.taken ++ (q ++ left)) (waits-queue os pb word y.conn)
                ∙ sym (append_assoc y.taken y.conn.receive_queue left)
                ∙ eq,
          ),
        )

    module _ (steady : Steady os) (follows : Follows os pb total) where
      flushed-Held :
          (y : System M)
          → y.conn.state ≡ SocketState.connected
          → Held y
          → Held (worked os pb y (move os pb Pc.flushed y.conn))
      unfolding move
      flushed-Held y connected (inl track) =
          inl (receive_next_message-InStep os pb total y.taken all steady follows y.conn track)
      flushed-Held y connected (inr (closing, left)) =
          absurd (omega (arith, ap rank connected, closing))

      -- A step of a thread, while the socket is in use.
      step-Held :
          {p : PlatformSocket} {y z : System M}
          → Reach os pb p y
          → Step os pb y z
          → y.conn.state ≢ SocketState.initial
          → z.conn.state ≢ SocketState.initial
          → Held y
          → Held z
      step-Held {p} {y} {z} r st up up' h =
          let le : rank y.conn.state ≤ rank z.conn.state = elim (Step-Ascends os pb r st) [
            | inl le ↦ le
            | inr (over, initial) ↦ absurd (up' initial)
          ] in
          let fits = (Reach-IsOrdered os pb r).fits in
          elim (step-Still os pb st up) [
            | inl still ↦ Still-Held y z still le h
            | inr (inl flushed, there) ↦
                let connected = subst (λ pc. Fits pc y.conn.state) flushed fits in
                rw there (rw flushed (flushed-Held y connected h))
            | inr (inr (word, waiting), there) ↦
                let closing = subst (λ pc. Fits pc y.conn.state) waiting fits in
                let moved : z.conn ≡ (move os pb (Pc.waiting word) y.conn).1 =
                  rw (← waiting) (ap (λ (x : System M). x.conn) there) in
                rw there (rw waiting (waiting-Held y word closing (rw (← moved) le) h))
          ]

      pub Onward-Held :
          {p : PlatformSocket} {x y : System M}
          → Reach os pb p x
          → x.conn.state ≢ SocketState.initial
          → Held x
          → Onward x y
          → Held y
      Onward-Held r up h begins = h
      Onward-Held r up h (goes_on on st up') =
          step-Held (Reach-Onward r on) st (up-Onward up on) up' (Onward-Held r up h on)
