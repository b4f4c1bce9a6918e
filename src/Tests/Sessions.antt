-- ===== src/Tests/Sessions.antt =====
-- Both sides of a connection.
use lib_arcus.Prelude.{arith, ◌≡◌, refl, some, none, true, [], ◌∷◌, Bytes, List}
use lib_arcus.Types.{SocketState, ErrorCode}
use lib_arcus.Connection.Receive.Rejection.{receive-other_word}
use lib_arcus.ByteOrder.{htonl, ntohl}
use lib_arcus.PlatformSocket
use lib_arcus.WireMessage.{new_wire_message}
use lib_arcus.Link.{frames, frame, sent}
use lib_arcus.MessageTypeStore.{get_message_type_id}
use lib_arcus.Connection.{Connection, socket_close, error, write_u32, read_u32, tell_all}
use lib_arcus.Connection.Send.{check_connection_state, send_message}
use lib_arcus.Connection.Send.KeepAlive.{
  ChecksConnection, keep_alive, check_connection_state-ChecksConnection,
}
use lib_arcus.Connection.Receive.{message_at_hand, receive_next_message}
use lib_arcus.Connection.Receive.Delivery.{log_of, IsIdle, after_recv}
use lib_arcus.Connection.Receive.Control.{receive-keep_alive, receive-socket_close}
use lib_arcus.Connection.Receive.Unread.{receive-no_word}
use lib_arcus.Connection.Worker.{
  perform_closing, await_close, request_close, flush_send_queue, send_messages,
}
use lib_arcus.Environment.{Event}
use lib_arcus.Session.{receive_times}
use lib_arcus.Session.Application.{send_all, take_times, send_all-take_times}
use lib_arcus.Session.Goodbye.{perform_closing-receive}
use lib_arcus.Session.Packets.{Packet, packets, messages_in, receive-packets}
use lib_arcus.Tests.Demo.{demo_os, demo_pb, demo_connection, sends, posix, pending, demo_os-Stream}
use lib_arcus.Tests.Streams.{hi, two, stream, agrees}
use lib_arcus.Tests.Worker.{closing_os, queued, ended_queue}
use lib_arcus.Socket

check_connection_state_example :
    ChecksConnection
      (demo_os [])
      demo_connection
      ((demo_os []).answer (Event.now ∷ []) (keep_alive (demo_os []) demo_connection))
      (check_connection_state (demo_os []) demo_connection)
unfolding demo_connection
check_connection_state_example =
    check_connection_state-ChecksConnection (demo_os []) demo_connection

receive-keep_alive_example :
    let os = demo_os (htonl 0) in
    let t = record (after_recv 4 demo_connection) { current_message = some new_wire_message } in
    (receive_next_message os demo_pb demo_connection ≡ t) × (pending (htonl 0) (log_of t) ≡ [])
unfolding demo_connection pending message_at_hand htonl
receive-keep_alive_example =
    receive-keep_alive (demo_os (htonl 0)) demo_pb (pending (htonl 0))
      (demo_os-Stream (htonl 0)).delivers demo_connection refl [] refl

receive-socket_close_example :
    let os = demo_os (htonl socket_close) in
    let t = record (after_recv 4 demo_connection) {
      current_message = some new_wire_message;
      next_state = SocketState.closing;
      received_close = true;
    } in
    (receive_next_message os demo_pb demo_connection ≡ t)
    × (pending (htonl socket_close) (log_of t) ≡ [])
unfolding demo_connection pending message_at_hand htonl
receive-socket_close_example =
    receive-socket_close (demo_os (htonl socket_close)) demo_pb (pending (htonl socket_close))
      (demo_os-Stream (htonl socket_close)).delivers demo_connection refl [] refl

-- The other side has ended its stream.
receive-no_word_example :
    receive_next_message (demo_os []) demo_pb demo_connection ≡ record demo_connection {
      platform_socket = (PlatformSocket.read_u32 (demo_os []) 0 demo_connection.platform_socket).2;
      current_message = some new_wire_message;
    }
unfolding demo_connection demo_os pending message_at_hand
receive-no_word_example = receive-no_word (demo_os []) (posix []) demo_pb demo_connection refl refl

abbrev mixed : List (Packet Bytes)
mixed = Packet.keep_alive ∷ Packet.message hi ∷ Packet.keep_alive ∷ Packet.message [] ∷ []

abbrev mixed_stream : Bytes
mixed_stream = packets (demo_os []) demo_pb mixed

receive-packets_example :
    let t = receive_times (demo_os mixed_stream) demo_pb 4 demo_connection in
    (t.receive_queue ≡ two)
    × (pending mixed_stream (log_of t) ≡ [])
    × IsIdle t
    × (t.next_state ≡ SocketState.initial)
    × (t.last_error ≡ demo_connection.last_error)
unfolding demo_connection pending message_at_hand messages_in packets frame get_message_type_id
    demo_os demo_pb htonl
receive-packets_example =
    receive-packets (demo_os mixed_stream) demo_pb (demo_os-Stream mixed_stream) mixed two
      demo_connection [] (agrees mixed_stream) refl refl

send_all-take_times_example :
    (u : Connection Bytes) × (take_times 2
        (receive_times (demo_os stream) demo_pb 2 demo_connection)
      ≡ some (two, u))
    × (u.receive_queue ≡ [])
unfolding demo_connection pending message_at_hand flush_send_queue send_messages send_all frames
    frame get_message_type_id demo_os demo_pb htonl send_message Socket.send_message write_u32
send_all-take_times_example =
    send_all-take_times (demo_os []) (demo_os stream) demo_pb (sends []) (demo_os-Stream stream) two
      two demo_connection demo_connection refl refl (agrees stream) refl refl

-- What the closing side of `queued` sends.
abbrev farewell : Bytes
farewell = sent (log_of ended_queue)

perform_closing-receive_example :
    let u = receive_times (demo_os farewell) demo_pb 3 demo_connection in
    (u.receive_queue ≡ two)
    × (u.next_state ≡ SocketState.closing)
    × (u.received_close ≡ true)
    × (pending farewell (log_of u) ≡ [])
unfolding perform_closing await_close request_close flush_send_queue send_messages read_u32
    demo_connection demo_os pending htonl ntohl tell_all PlatformSocket.read_u32 error write_u32
    send_message PlatformSocket.shutdown message_at_hand
perform_closing-receive_example =
    perform_closing-receive closing_os (demo_os farewell) demo_pb (sends (htonl socket_close))
      (demo_os-Stream farewell) 2 queued ended_queue demo_connection two refl refl (agrees farewell)
      refl refl

-- A word of another protocol.
receive-other_word_example :
    let t = receive_next_message (demo_os (htonl 5)) demo_pb demo_connection in
    (t.last_error.error_code ≡ ErrorCode.receive_failed_error)
    × (t.next_state ≡ SocketState.initial)
    × (t.receive_queue ≡ [])
    × (t.current_message ≡ none)
    × (pending (htonl 5) (log_of t) ≡ [])
unfolding demo_connection pending message_at_hand htonl
receive-other_word_example =
    receive-other_word (demo_os (htonl 5)) demo_pb (pending (htonl 5))
      (demo_os-Stream (htonl 5)).delivers 5 demo_connection [] (omega arith) (omega arith)
      (omega arith) (omega arith) refl refl
