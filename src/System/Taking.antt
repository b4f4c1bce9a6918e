-- ===== src/System/Taking.antt =====
-- What the application takes out of the receive queue.
use lib_arcus.Prelude.{
  ◌≡◌, refl, sym, ap, ◌∙◌, ◌⊎◌, inl, inr, List, [], ◌∷◌, ◌++◌, append_assoc, arith, ℕ, Bytes,
}
use lib_arcus.Types.{SocketState}
use lib_arcus.Environment.{Os, Protobuf}
use lib_arcus.Connection.{Connection, error}
use lib_arcus.Connection.Worker.Moves.Ringing.{move-Rings}
use lib_arcus.Connection.Worker.Moves.{move}
use lib_arcus.Socket.{is_down, reset, clear_error, close_joined, notify_waiting, abort}
use lib_arcus.Socket
use lib_arcus.Socket.Calls.{remove_listener-Kept, register_all-Kept}
use lib_arcus.System.{
  System, Step, works, starts, asks, hands, hands_null, tests, sleeps, stirs, resumes, closes,
  requests, aborts, joins, resets, resets_early, clears, registers, imports, listens, unlistens,
  launches, with_conn, takes, decides,
}
use lib_arcus.System.Waiting.{reset-queue, abort-queue, register-queue, listen-queue}

module _ {M : Type 0} where
  -- The messages that were received, in the order in which they leave the queue.
  unfoldable pub through : System M → List M
  through y = y.taken ++ y.conn.receive_queue

  module _ (os : Os) (pb : Protobuf M) where
    same-through :
        (y : System M) (t : Connection M)
        → t.receive_queue ≡ y.conn.receive_queue
        → through (with_conn os pb y t) ≡ through y
    unfolding through
    same-through y t same = ap (◌++◌ y.taken) same

    take_from-through :
        (y : System M) (queue : List M)
        → y.conn.receive_queue ≡ queue
        → through (takes os pb y (Socket.take_next_message y.conn)) ≡ through y
    unfolding through Socket.take_next_message
    take_from-through y [] e = rw e refl
    take_from-through y (m ∷ rest) e = rw e (append_assoc y.taken (m ∷ []) rest)

    pub take-through :
        (y : System M) → through (takes os pb y (Socket.take_next_message y.conn)) ≡ through y
    take-through y = take_from-through y y.conn.receive_queue refl

    pub wake-through : (y : System M) → through (takes os pb y (Socket.wake y.conn)) ≡ through y
    unfolding through Socket.wake
    wake-through y = ground (arith, take-through y)

    pub launches-through :
        (wanted : SocketState) (address : Bytes) (port : ℕ) (y : System M)
        → through (launches os pb wanted address port y) ≡ through y
    unfolding through launches error
    launches-through wanted address port y = ground arith

    pub decides-through : (y : System M) → through (decides os pb y) ≡ through y
    unfolding through decides notify_waiting error
    decides-through y = ground arith

    -- Whatever step is taken, the messages that `takeNextMessage` has returned, followed by those in
    -- the receive queue, are the same as before it, or there is one more at their end, which the
    -- worker has received. None is lost, doubled or put in another place, and the worker alone adds
    -- to them.
    pub Step-through :
        {y z : System M}
        → Step os pb y z
        → (through z ≡ through y)
          ⊎ ((m : M) × (through z ≡ through y ++ m ∷ [])
              × (z.conn ≡ (move os pb y.pc y.conn).1)
              × (z.taken ≡ y.taken))
    unfolding through Socket.send_message clear_error close_joined notify_waiting error
    Step-through {y} works = elim (move-Rings os pb y.pc y.conn) [
      | inl same ↦ inl (ap (◌++◌ y.taken) same)
      | inr (m, more, rung) ↦ inr (
        m,
        ap (◌++◌ y.taken) more ∙ sym (append_assoc y.taken y.conn.receive_queue (m ∷ [])),
        refl,
        refl,
      )
    ]
    Step-through {y} (starts {wanted} address port way free) =
        inl (launches-through wanted address port y)
    Step-through {y} (asks here) = inl refl
    Step-through {y} (hands m) = inl refl
    Step-through {y} hands_null = inl refl
    Step-through {y} (tests free) = inl (take-through y)
    Step-through {y} (sleeps here) = inl refl
    Step-through {y} (stirs here) = inl refl
    Step-through {y} (resumes here) = inl (wake-through y)
    Step-through {y} (closes free) = inl (decides-through y)
    Step-through {y} (requests here) = inl refl
    Step-through {y} (aborts here) =
        inl (same-through y (abort os y.conn) (abort-queue os pb y.conn))
    Step-through {y} (joins here gone) = inl refl
    Step-through {y} (resets here gone) =
        inl (same-through y (reset y.conn) (reset-queue os pb y.conn))
    Step-through {y} (resets_early up) =
        inl (same-through y (reset y.conn) (reset-queue os pb y.conn))
    Step-through {y} clears = inl refl
    Step-through {y} (registers m) = inl (
        same-through y (Socket.register_message_type os pb m y.conn).1
          (register-queue os pb m y.conn))
    Step-through {y} (imports file_name) = inl (
        same-through y (Socket.register_all_message_types os pb file_name y.conn).1
          (register_all-Kept os pb file_name y.conn).3)
    Step-through {y} (listens l) =
        inl (same-through y (Socket.add_listener l y.conn) (listen-queue os pb l y.conn))
    Step-through {y} (unlistens l {t} e) =
        inl (same-through y t (remove_listener-Kept l y.conn t e).3)
