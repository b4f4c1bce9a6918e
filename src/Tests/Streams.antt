-- ===== src/Tests/Streams.antt =====
-- Two messages over a stream.
use lib_arcus.Prelude.{◌≡◌, refl, ◌++◌, [], ◌∷◌, Bytes, List, length, ◌<◌, ◌^◌, arith}
use lib_arcus.MessageTypeStore.{get_message_type_id}
use lib_arcus.MessageTypeStore.Table.{find, insert}
use lib_arcus.Hash.{hash}
use lib_arcus.Link.{frame, frames, sent, Serializes}
use lib_arcus.Connection.{with_log}
use lib_arcus.Connection.Send.{send_message}
use lib_arcus.Connection.Send.Wire.{sent-send_message, sent-send_messages}
use lib_arcus.Connection.Receive.{message_at_hand}
use lib_arcus.Connection.Receive.Delivery.{log_of, IsIdle}
use lib_arcus.Connection.Receive.Queue.{Understands}
use lib_arcus.Session.{Agrees, receive_times, send_messages-receive}
use lib_arcus.Tests.Demo.{demo_os, demo_pb, demo_connection, sends, demo_os-Stream, pending}

abbrev pub hi : Bytes
hi = b'h' ∷ b'i' ∷ []

abbrev pub two : List Bytes
two = hi ∷ [] ∷ []

-- What the two messages are on the wire.
abbrev pub stream : Bytes
stream = frames (demo_os []) demo_pb two

serializes : (m : Bytes) → length m < 2 ^ 31 → Serializes demo_pb m
unfolding demo_pb
serializes m h = record { size_eq = refl; size_lt = h; name_ascii = omega arith }

understands : (bs m : Bytes) → Understands (demo_os bs) demo_pb demo_connection.message_types m m
unfolding demo_connection demo_pb demo_os find get_message_type_id hash insert
understands bs m = record { prototype = []; known = refl; parses = refl }

pub agrees : (bs : Bytes) → Agrees (demo_os bs) demo_pb demo_connection.message_types two two
agrees bs = (
  serializes hi (omega arith),
  understands bs hi,
  (serializes [] (omega arith), understands bs [], tt),
)

sent-send_message_example :
    let t = send_message (demo_os []) demo_pb hi demo_connection in
    (sent (log_of t) ≡ sent (log_of demo_connection) ++ frame (demo_os []) demo_pb hi)
    × (t ≡ with_log (log_of t) demo_connection)
sent-send_message_example = sent-send_message (demo_os []) demo_pb (sends []) hi demo_connection

send_messages-receive_example :
    let t = receive_times (demo_os stream) demo_pb 2 demo_connection in
    (t.receive_queue ≡ two) × (pending stream (log_of t) ≡ []) × IsIdle t
unfolding message_at_hand demo_connection pending
send_messages-receive_example =
    send_messages-receive (demo_os []) (demo_os stream) demo_pb (sends []) (demo_os-Stream stream)
      two two demo_connection demo_connection (agrees stream) refl
      (sent-send_messages (demo_os []) demo_pb (sends []) two demo_connection).0
