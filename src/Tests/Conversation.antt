-- ===== src/Tests/Conversation.antt =====
-- Two sockets with their threads.
use lib_arcus.Prelude.{◌≡◌, ◌≢◌, false, arith, refl, List, [], ◌∷◌, ◌++◌, Bytes, text}
use lib_arcus.Types.{SocketState}
use lib_arcus.Environment.{Os}
use lib_arcus.Link.{sent}
use lib_arcus.PlatformSocket.{PlatformSocket}
use lib_arcus.Connection.{Connection, new_connection}
use lib_arcus.Connection.Receive.Delivery.{log_of, IsIdle}
use lib_arcus.Connection.Worker.Moves.{move}
use lib_arcus.Socket.{start}
use lib_arcus.Socket
use lib_arcus.Connection.Send
use lib_arcus.MessageTypeStore
use lib_arcus.PlatformSocket
use lib_arcus.Connection
use lib_arcus.Connection.{tell, tell_all, read_u32, write_u32}
use lib_arcus.Connection.Send.{send_size, send_type, send_data, check_connection_state}
use lib_arcus.Connection.Receive.{
  receive_next_message, receive_header, receive_size, receive_type, receive_data, dispatch,
  handle_message, enqueue, take_in, allocate, check_header,
}
use lib_arcus.Connection.Worker.{commit, flush_send_queue, send_messages}
use lib_arcus.Connection.Worker.Moves.{loops, enters, creates, connects, sets_timeout}
use lib_arcus.MessageTypeStore.{has_type, add_type, get_message_type_id, empty_store}
use lib_arcus.MessageTypeStore.Table.{insert, find}
use lib_arcus.Hash.{hash}
use lib_arcus.WireMessage.{
  new_wire_message, get_remaining_size, is_complete, store_at, allocate_data,
}
use lib_arcus.ByteOrder.{htonl, ntohl}
use lib_arcus.Socket.Lifecycle.{IsStart}
use lib_arcus.System.{System, Reach, made, later, starts, asks, launches, registers, with_conn}
use lib_arcus.System.Taking.{through}
use lib_arcus.System.Incoming.Keeping.{Onward, begins}
use lib_arcus.Connection.Receive.{message_at_hand}
use lib_arcus.Connection.Receive.Arrivals.{arrived}
use lib_arcus.Session.{Agrees}
use lib_arcus.Session.Tracking.{Follows}
use lib_arcus.Session.Conversation.{conversation, conversation_complete}
use lib_arcus.Tests.Demo.{demo_os, demo_pb, sends}
use lib_arcus.Tests.Drip.{
  drip_os, drip_os-Steady, drip_os-Follows, worked_times, Reach-worked_times, Onward-worked_times,
}
use lib_arcus.Tests.Threads.{socket, fresh, asked, started, started-Reach, quiet_os}

-- Connects, and sends the message that it was given.
abbrev sender : System Bytes
sender = worked_times quiet_os demo_pb 8 started

sender-Reach : Reach quiet_os demo_pb socket sender
sender-Reach = Reach-worked_times quiet_os demo_pb 8 started started-Reach

abbrev bytes : Bytes
bytes = sent (log_of sender.conn)

abbrev os : Os
os = drip_os bytes

-- Knows the type of the message, and starts.
abbrev registered : System Bytes
registered =
    with_conn os demo_pb fresh (Socket.register_message_type os demo_pb (text "") fresh.conn).1

abbrev begun : System Bytes
begun = asked (launches os demo_pb SocketState.connecting (text "::") 80 registered)

begun-Reach : Reach os demo_pb socket begun
unfolding new_connection Socket.register_message_type launches
begun-Reach =
    later (later (later made (registers (text ""))) (starts (text "::") 80 IsStart.connecting refl))
      (asks refl)

-- Connecting.
abbrev before : System Bytes
before = worked_times os demo_pb 2 begun

before-Reach : Reach os demo_pb socket before
before-Reach = Reach-worked_times os demo_pb 2 begun begun-Reach

-- The message came in two pieces.
abbrev after : System Bytes
after = worked_times os demo_pb 11 before

-- What the two runs come to.
runs :
    (sender.conn.received_close ≡ false)
    × (sender.conn.send_queue ≡ [])
    × (before.conn.state ≡ SocketState.connecting)
    × IsIdle before.conn
    × (arrived os (log_of before.conn) ≡ [])
    × Agrees os demo_pb before.conn.message_types sender.handed (text "hi" ∷ [])
    × (after.conn.state ≡ SocketState.connected)
    × IsIdle after.conn
    × (arrived os (log_of after.conn) ≡ bytes)
unfolding worked_times move loops enters creates connects sets_timeout launches
    Socket.register_message_type MessageTypeStore.register_message_type
    MessageTypeStore.create_message has_type add_type get_message_type_id empty_store insert find
    hash text PlatformSocket.create PlatformSocket.connect PlatformSocket.syscall
    PlatformSocket.answered PlatformSocket.received PlatformSocket.recv_call
    PlatformSocket.set_receive_timeout PlatformSocket.read_u32 PlatformSocket.write_u32
    PlatformSocket.write_bytes PlatformSocket.read_bytes get_remaining_size is_complete store_at
    allocate_data new_connection commit tell tell_all demo_os drip_os demo_pb flush_send_queue
    send_messages Connection.Send.send_message Socket.send_message send_size send_type send_data
    check_connection_state receive_next_message receive_header receive_size receive_type
    receive_data dispatch handle_message enqueue take_in allocate check_header read_u32 write_u32
    message_at_hand new_wire_message htonl ntohl
runs = (
  refl,
  refl,
  refl,
  refl,
  refl,
  (
    record { size_eq = refl; size_lt = omega arith; name_ascii = omega arith },
    record { prototype = []; known = refl; parses = refl },
    tt,
  ),
  refl,
  refl,
  refl,
)

up : before.conn.state ≢ SocketState.initial
up e = absurd (ground (arith, e, runs.2))

after-Onward : Onward os demo_pb before after
after-Onward = Onward-worked_times os demo_pb 11 before before-Reach up begins

follows : Follows os demo_pb (arrived os (log_of before.conn) ++ bytes)
follows = rw (runs.4) (drip_os-Follows bytes demo_pb)

conversation_example :
    (left : List Bytes) × (through after ++ left ≡ through before ++ text "hi" ∷ [])
conversation_example =
    conversation quiet_os os demo_pb (sends []) (drip_os-Steady bytes) sender-Reach runs.0 bytes
      refl before-Reach up runs.3 follows after-Onward (text "hi" ∷ []) runs.5

conversation_complete_example : through after ≡ through before ++ text "hi" ∷ []
conversation_complete_example =
    conversation_complete quiet_os os demo_pb (sends []) (drip_os-Steady bytes) sender-Reach runs.0
      bytes refl before-Reach up runs.3 follows after-Onward (text "hi" ∷ []) runs.5 runs.1
      (rw (runs.6) (omega arith)) runs.7 (rw (runs.4) runs.8)
