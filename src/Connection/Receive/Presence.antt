-- ===== src/Connection/Receive/Presence.antt =====
-- The thread object of the worker while it receives.
use lib_arcus.Prelude.{◌≡◌, refl, arith, Bool}
use lib_arcus.Environment.{Os, Protobuf}
use lib_arcus.WireMessage.{WireMessage}
use lib_arcus.Connection.{Connection, error, fatal_error, read_u32}
use lib_arcus.Connection.Receive.{
  receive_next_message, handle_message, receive_header, receive_size, receive_type, receive_data,
  dispatch, allocate, check_header, parse_failure, enqueue,
}
use lib_arcus.Connection.Receive.Ensures.{Ensures, Ensures-and_then, Ensures-outcome}

module _ {M : Type 0} (os : Os) (pb : Protobuf M) where
  handle_message-thread :
      (m : WireMessage) (s : Connection M) → (handle_message os pb m s).thread ≡ s.thread
  unfolding handle_message error parse_failure enqueue
  handle_message-thread m s = ground arith

  module _ (there : Bool) where
    abbrev P : Connection M → Type 0
    P s = s.thread ≡ there

    abbrev Q : WireMessage → Connection M → Type 0
    Q m s = s.thread ≡ there

    receive_header-thread :
        (m : WireMessage) (s : Connection M) → P s → Ensures P Q (receive_header os m s)
    unfolding receive_header check_header read_u32
    receive_header-thread m s k = ground arith

    receive_size-thread :
        (m : WireMessage) (s : Connection M) → P s → Ensures P Q (receive_size os m s)
    unfolding receive_size read_u32
    receive_size-thread m s k = ground arith

    receive_type-thread :
        (m : WireMessage) (s : Connection M) → P s → Ensures P Q (receive_type os m s)
    unfolding receive_type read_u32 allocate error fatal_error
    receive_type-thread m s k = ground arith

    receive_data-thread :
        (m : WireMessage) (s : Connection M) → P s → Ensures P Q (receive_data os m s)
    unfolding receive_data read_u32
    receive_data-thread m s k = ground arith

    dispatch-thread :
        (m : WireMessage) (s : Connection M) → P s → Ensures P (λ m. P) (dispatch os pb m s)
    unfolding dispatch
    dispatch-thread m s k = ground (arith, handle_message-thread m s)

  pub receive_next_message-thread :
      (s : Connection M) → (receive_next_message os pb s).thread ≡ s.thread
  unfolding receive_next_message
  receive_next_message-thread s =
      let there = s.thread in
      Ensures-outcome (P there) _ (
        Ensures-and_then (P there) (Q there) _ _ _ (receive_header-thread there _ s refl) λ m s k.
          Ensures-and_then (P there) (Q there) _ _ _ (receive_size-thread there m s k) λ m s k.
            Ensures-and_then (P there) (Q there) _ _ _ (receive_type-thread there m s k) λ m s k.
              Ensures-and_then (P there) (Q there) _ _ _ (receive_data-thread there m s k)
                (dispatch-thread there))
