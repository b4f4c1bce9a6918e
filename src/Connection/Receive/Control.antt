-- ===== src/Connection/Receive/Control.antt =====
-- The words between messages: keep-alives, and the request to close.
use lib_arcus.Prelude.{◌≡◌, ◌++◌, true, some, Bytes, arith}
use lib_arcus.ByteOrder.{htonl, length-htonl}
use lib_arcus.Environment.{Os, Log, Protobuf}
use lib_arcus.Link.{Delivers}
use lib_arcus.WireMessage.{new_wire_message}
use lib_arcus.Types.{SocketState}
use lib_arcus.Connection.{Connection, socket_close}
use lib_arcus.Connection.Receive.{receive_next_message, receive_header, check_header}
use lib_arcus.Connection.Receive.Delivery.{
  after_recv, log_of, IsIdle, read_u32-word, pending-after_recv,
}

module _ {M : Type 0} (os : Os) (pb : Protobuf M) (pending : Log → Bytes)
    (delivers : Delivers os pending) (s : Connection M) (idle : IsIdle s) (rest : Bytes) where
  -- A keep-alive between messages is read, and nothing else happens.
  pub receive-keep_alive :
      pending (log_of s) ≡ htonl 0 ++ rest
      → let t = record (after_recv 4 s) { current_message = some new_wire_message } in
        (receive_next_message os pb s ≡ t) × (pending (log_of t) ≡ rest)
  unfolding receive_next_message receive_header check_header new_wire_message
  receive-keep_alive e = (
    rw (idle, read_u32-word os pending delivers 0 0 s rest (omega arith) e),
    rw length-htonl at (pending-after_recv os pending delivers s (htonl 0) rest e),
  )

  -- Between messages, SOCKET_CLOSE makes the next state Closing, and it is remembered that the other
  -- side asked; queues and error stay.
  pub receive-socket_close :
      pending (log_of s) ≡ htonl socket_close ++ rest
      → let t = record (after_recv 4 s) {
        current_message = some new_wire_message;
        next_state = SocketState.closing;
        received_close = true;
      } in
        (receive_next_message os pb s ≡ t) × (pending (log_of t) ≡ rest)
  unfolding receive_next_message receive_header check_header new_wire_message
  receive-socket_close e = (
    rw (idle, read_u32-word os pending delivers socket_close 0 s rest (omega arith) e),
    rw length-htonl at (pending-after_recv os pending delivers s (htonl socket_close) rest e),
  )
