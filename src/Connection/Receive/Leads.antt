-- ===== src/Connection/Receive/Leads.antt =====
-- Which next states `receiveNextMessage` asks for.
use lib_arcus.Prelude.{◌≡◌, refl, ◌⊎◌, arith}
use lib_arcus.Types.{SocketState}
use lib_arcus.Environment.{Os, Protobuf}
use lib_arcus.WireMessage.{WireMessage}
use lib_arcus.Connection.{Connection, error, fatal_error, read_u32}
use lib_arcus.Connection.Receive.{
  receive_next_message, handle_message, receive_header, receive_size, receive_type, receive_data,
  dispatch, allocate, check_header, parse_failure, enqueue,
}
use lib_arcus.Connection.Receive.Ensures.{Ensures, Ensures-and_then, Ensures-outcome}

module _ {M : Type 0} (os : Os) (pb : Protobuf M) where
  handle_message-next :
      (m : WireMessage) (s : Connection M)
      → ((handle_message os pb m s).state ≡ s.state)
        × ((handle_message os pb m s).next_state ≡ s.next_state)
  unfolding handle_message error parse_failure enqueue
  handle_message-next m s = ground arith

  -- Where a part of `receiveNextMessage` leads from the next state `st`.
  abbrev pub Leads : SocketState → SocketState → Connection M → Type 0
  Leads st next s =
      (s.state ≡ st)
      × ((s.next_state ≡ next)
          ⊎ ((s.next_state ≡ SocketState.closing) ⊎ (s.next_state ≡ SocketState.error)))

  abbrev Keeps : SocketState → SocketState → WireMessage → Connection M → Type 0
  Keeps st next m s = (s.state ≡ st) × (s.next_state ≡ next)

  module _ (st next : SocketState) where
    receive_header-Leads :
        (m : WireMessage) (s : Connection M)
        → Keeps st next m s
        → Ensures (Leads st next) (Keeps st next) (receive_header os m s)
    unfolding receive_header check_header read_u32
    receive_header-Leads m s k = ground arith

    receive_size-Leads :
        (m : WireMessage) (s : Connection M)
        → Keeps st next m s
        → Ensures (Leads st next) (Keeps st next) (receive_size os m s)
    unfolding receive_size read_u32
    receive_size-Leads m s k = ground arith

    receive_type-Leads :
        (m : WireMessage) (s : Connection M)
        → Keeps st next m s
        → Ensures (Leads st next) (Keeps st next) (receive_type os m s)
    unfolding receive_type read_u32 allocate error fatal_error
    receive_type-Leads m s k = ground arith

    receive_data-Leads :
        (m : WireMessage) (s : Connection M)
        → Keeps st next m s
        → Ensures (Leads st next) (Keeps st next) (receive_data os m s)
    unfolding receive_data read_u32
    receive_data-Leads m s k = ground arith

    dispatch-Leads :
        (m : WireMessage) (s : Connection M)
        → Keeps st next m s
        → Ensures (Leads st next) (λ m. Leads st next) (dispatch os pb m s)
    unfolding dispatch
    dispatch-Leads m s k = ground (arith, handle_message-next m s)

  -- `receiveNextMessage` leaves the state, and the next state unless it asks for Closing or Error.
  pub receive_next_message-Leads :
      (s : Connection M) → Leads s.state s.next_state (receive_next_message os pb s)
  unfolding receive_next_message
  receive_next_message-Leads s =
      let st = s.state in
      let nx = s.next_state in
      let P = Leads st nx in
      let Q = Keeps st nx in
      Ensures-outcome P _ (
        Ensures-and_then P Q _ _ _ (receive_header-Leads st nx _ s (refl, refl)) λ m s k.
          Ensures-and_then P Q _ _ _ (receive_size-Leads st nx m s k) λ m s k.
            Ensures-and_then P Q _ _ _ (receive_type-Leads st nx m s k) λ m s k.
              Ensures-and_then P Q _ _ _ (receive_data-Leads st nx m s k) (dispatch-Leads st nx))
