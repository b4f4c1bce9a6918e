-- ===== src/System/Waiting.antt =====
-- The wait for a message, and the signals that end it.
use lib_arcus.Prelude.{ℕ, ◌≡◌, refl, ◌⊎◌, arith}
use lib_arcus.Environment.{Os, Protobuf}
use lib_arcus.Connection.{Connection, error}
use lib_arcus.Socket.{Taken, is_down, start, reset, clear_error, abort}
use lib_arcus.Socket
use lib_arcus.System.{System, Taker}

module _ {M : Type 0} (os : Os) (pb : Protobuf M) where
  -- The thread waits, or is about to, with this queue.
  abbrev Waited : System M → System M → Type 0
  Waited y z =
      (z.conn.receive_queue ≡ y.conn.receive_queue)
      × ((y.taker ≡ Taker.asleep) ⊎ (y.taker ≡ Taker.tested))

  pub reset-queue : (s : Connection M) → (reset s).receive_queue ≡ s.receive_queue
  unfolding reset clear_error error
  reset-queue s = ground arith

  pub abort-queue : (s : Connection M) → (abort os s).receive_queue ≡ s.receive_queue
  unfolding abort
  abort-queue s = refl

  pub register-queue :
      (m : M) (s : Connection M)
      → (Socket.register_message_type os pb m s).1.receive_queue ≡ s.receive_queue
  unfolding Socket.register_message_type error
  register-queue m s = ground arith

  pub listen-queue :
      (l : ℕ) (s : Connection M) → (Socket.add_listener l s).receive_queue ≡ s.receive_queue
  unfolding Socket.add_listener error
  listen-queue l s = ground arith
