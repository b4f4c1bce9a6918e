-- ===== src/Tests/Receiving.antt =====
-- Reading words and pieces of data.
use lib_arcus.Prelude.{refl, some, [], ◌∷◌, Bytes, arith, pos, true}
use lib_arcus.Environment.{Os}
use lib_arcus.PlatformSocket.{PlatformSocket, read_u32}
use lib_arcus.PlatformSocket.Io.{ReadsWord, read_u32-ReadsWord}
use lib_arcus.WireMessage.{WireMessage, MessageState}
use lib_arcus.Connection.{Connection}
use lib_arcus.Connection.Receive.{receive_next_message}
use lib_arcus.Connection.Receive.Buffer.{IsFilling, KeptIsSound, receive_next_message-IsSound}
use lib_arcus.Tests.Demo.{demo_os, demo_pb, demo_connection, posix}

abbrev idle_socket : PlatformSocket
idle_socket = record { socket_id = pos 3; errno = 0; log = [] }

-- Three bytes have arrived.
abbrev three : Os
three = demo_os (1 ∷ 2 ∷ 3 ∷ [])

read_u32-ReadsWord_example :
    ReadsWord three idle_socket 9 (three.receive [] (pos 3) 4) (read_u32 three 9 idle_socket)
read_u32-ReadsWord_example = read_u32-ReadsWord three idle_socket (posix (1 ∷ 2 ∷ 3 ∷ [])) 9

-- One of six bytes has been received.
abbrev begun : WireMessage
begun = record {
  state = MessageState.data_;
  size = 6;
  received_size = 1;
  valid = true;
  type = 5;
  buffer = some (7 ∷ 0 ∷ 0 ∷ 0 ∷ 0 ∷ 0 ∷ []);
}

abbrev begun-IsFilling : IsFilling begun
begun-IsFilling = record { size_lt = omega arith; fits = omega arith; buffer_size = refl }

abbrev receiving : Connection Bytes
receiving = record demo_connection { current_message = some begun }

receive_next_message-IsSound_example :
    KeptIsSound (receive_next_message three demo_pb receiving).current_message
receive_next_message-IsSound_example =
    receive_next_message-IsSound three (posix (1 ∷ 2 ∷ 3 ∷ [])) demo_pb receiving begun-IsFilling
