-- ===== src/Tests/Lifecycle.antt =====
-- Runs of a socket from its start on.
use lib_arcus.Prelude.{List, ◌∷◌, ◌≡◌, refl, true, some, [], Bytes}
use lib_arcus.Types.{SocketState}
use lib_arcus.ByteOrder.{htonl, ntohl}
use lib_arcus.PlatformSocket
use lib_arcus.WireMessage.{new_wire_message}
use lib_arcus.Connection.{Connection, tell_all, read_u32}
use lib_arcus.Connection.Receive.{
  receive_next_message, receive_header, check_header, message_at_hand,
}
use lib_arcus.Connection.Send.{check_connection_state}
use lib_arcus.Connection.Worker.{
  perform, perform_in, perform_connecting, perform_connected, perform_closing, flush_send_queue,
  send_messages, confirm_close, finish_closing, commit, run, is_over,
}
use lib_arcus.Connection.Worker.Runs.{visited, Steps}
use lib_arcus.Socket.{start, create_thread, ask, reset, clear_error}
use lib_arcus.Socket.Lifecycle.{passes, start-run, reset-start-run, IsStart}
use lib_arcus.Tests.Demo.{demo_os, demo_pb, demo_connection, pending}
use lib_arcus.Tests.Worker.{at, closing_os, or_else}

abbrev started : Connection Bytes
started = start SocketState.connecting [] 80 demo_connection

abbrev finished : Connection Bytes
finished = or_else (run closing_os demo_pb 6 0 started) started

-- The worker goes round twice before it is asked to connect.
start-run_example :
    (u : Connection Bytes) × (passes closing_os demo_pb 2 0 (create_thread [] 80 demo_connection)
      ≡ some u)
    × (ask SocketState.connecting u ≡ started)
    × (path : List SocketState) × (visited closing_os demo_pb 6 0 (ask SocketState.connecting u)
        ≡ SocketState.initial ∷ path)
    × Steps SocketState.connecting path SocketState.closed
    × (is_over SocketState.closed ≡ true)
unfolding start run perform perform_in perform_connecting perform_connected flush_send_queue
    send_messages perform_closing confirm_close finish_closing commit receive_next_message
    receive_header check_header read_u32 check_connection_state demo_connection demo_os pending
    tell_all htonl ntohl message_at_hand PlatformSocket.read_u32 new_wire_message
start-run_example =
    start-run closing_os demo_pb SocketState.connecting [] 80 2 5 0 demo_connection finished
      IsStart.connecting refl refl refl refl

-- The other side has asked to close.
abbrev asked : Connection Bytes
asked = record (at SocketState.closing) { received_close = true }

abbrev over : Connection Bytes
over = or_else (run closing_os demo_pb 2 0 asked) asked

-- The same socket is reset and connects again.
abbrev again : Connection Bytes
again = start SocketState.connecting [] 80 (reset over)

abbrev over_again : Connection Bytes
over_again = or_else (run closing_os demo_pb 6 0 again) again

reset-start-run_example : over_again.received_close ≡ true
unfolding start reset clear_error run perform perform_in perform_connecting perform_connected
    flush_send_queue send_messages perform_closing confirm_close finish_closing commit
    receive_next_message receive_header check_header read_u32 check_connection_state demo_connection
    demo_os pending tell_all htonl ntohl message_at_hand PlatformSocket.read_u32 new_wire_message
    PlatformSocket.shutdown
reset-start-run_example =
    reset-start-run closing_os demo_pb SocketState.connecting [] 80 6 0 over over_again refl refl
      refl
