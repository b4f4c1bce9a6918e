-- ===== src/Tests/Worker.antt =====
-- Rounds and runs of the worker.
use lib_arcus.Prelude.{
  ap, take, ℕ, zero, suc, ◌≡◌, refl, ◌<◌, none, some, Option, [], ◌∷◌, Bytes, length, arith, true,
  ◌++◌,
}
use lib_arcus.Types.{SocketState}
use lib_arcus.Connection.Worker.Opening.{Makes, Advances, attempts, try_all, perform-Advances}
use lib_arcus.ByteOrder.{htonl, ntohl}
use lib_arcus.Environment.{Os, got, recv_failed}
use lib_arcus.Link.{sent}
use lib_arcus.PlatformSocket
use lib_arcus.WireMessage.{new_wire_message}
use lib_arcus.Connection.{Connection, socket_close, tell_all, read_u32, error, write_u32}
use lib_arcus.Connection.Receive.{
  receive_next_message, receive_header, check_header, message_at_hand,
}
use lib_arcus.Connection.Send.{check_connection_state, send_message}
use lib_arcus.Connection.Receive.Delivery.{log_of}
use lib_arcus.Connection.Worker.{
  perform, perform_in, perform_connecting, perform_connected, perform_closing, flush_send_queue,
  send_messages, confirm_close, finish_closing, commit, await_close, run, is_over, request_close,
}
use lib_arcus.Connection.Worker.Passage.{visits, run-visits}
use lib_arcus.Connection.Worker.Transitions.{Step, perform-Step}
use lib_arcus.Connection.Worker.Runs.{visited, Steps, run-Steps, run-received_close}
use lib_arcus.Connection.Worker.Closing.{IsEnded, await_close_silent, await_close_ended}
use lib_arcus.Connection.Worker.Farewell.{sent-perform_closing, last_words}
use lib_arcus.Tests.Streams.{two}
use lib_arcus.Tests.Demo.{demo_os, demo_pb, demo_connection, sends, posix, pending, demo_os-Stream}

abbrev pub at : SocketState → Connection Bytes
at st = record demo_connection { state = st; next_state = st }

perform-Step_example :
    let t = perform_connecting (demo_os []) (at SocketState.connecting) in
    (t.state ≡ SocketState.connecting) × Step SocketState.connecting t.next_state
unfolding perform
perform-Step_example =
    perform-Step (demo_os []) demo_pb 0 (at SocketState.connecting)
      (perform_connecting (demo_os []) (at SocketState.connecting)) refl refl

-- The other side accepts, and asks to close at once.
abbrev pub closing_os : Os
closing_os = demo_os (htonl socket_close)

abbrev pub or_else : Option (Connection Bytes) → Connection Bytes → Connection Bytes
or_else none s = s
or_else (some t) s = t

abbrev pub last : Connection Bytes
last = or_else (run closing_os demo_pb 5 0 (at SocketState.connecting)) (at SocketState.connecting)

run-Steps_example :
    Steps SocketState.connecting
      (SocketState.connecting ∷ SocketState.connected ∷ SocketState.closing ∷ SocketState.closed
        ∷ [])
      SocketState.closed
    × (is_over SocketState.closed ≡ true)
unfolding visited run perform perform_in perform_connecting perform_connected flush_send_queue
    send_messages perform_closing confirm_close finish_closing commit receive_next_message
    receive_header check_header read_u32 check_connection_state demo_connection demo_os pending
    tell_all htonl ntohl message_at_hand PlatformSocket.read_u32 new_wire_message
run-Steps_example = run-Steps closing_os demo_pb 5 0 (at SocketState.connecting) last refl refl

run-visits_example :
    let path = visited closing_os demo_pb 5 0 (at SocketState.connecting) in
    (visits SocketState.connected path ≡ true) × (visits SocketState.closing path ≡ true)
unfolding run perform perform_in perform_connecting perform_connected flush_send_queue send_messages
    perform_closing confirm_close finish_closing commit receive_next_message receive_header
    check_header read_u32 check_connection_state demo_connection demo_os pending tell_all htonl
    ntohl message_at_hand PlatformSocket.read_u32 new_wire_message
run-visits_example =
    run-visits closing_os demo_pb 5 0 (at SocketState.connecting) last refl refl refl refl

run-received_close_example :
    (t : Connection Bytes) × (run
        (demo_os [])
        demo_pb
        2
        0
        (record (at SocketState.closing) { received_close = true })
      ≡ some t)
    × (t.state ≡ SocketState.closed)
unfolding demo_connection
run-received_close_example =
    run-received_close (demo_os []) demo_pb 0 0
      (record (at SocketState.closing) { received_close = true }) refl refl

-- A peer that says nothing.
abbrev silent_os : Os
silent_os = record (demo_os []) { receive = λ h fd n. recv_failed 11 }

await_close_silent_example : await_close silent_os 3 0 (at SocketState.closing) ≡ none
unfolding demo_os
await_close_silent_example =
    await_close_silent silent_os 3 0 (at SocketState.closing) (λ h fd n. refl) refl (omega arith)

-- A peer that has sent eight bytes and ended its stream.
abbrev eight : Bytes
eight = 1 ∷ 2 ∷ 3 ∷ 4 ∷ 5 ∷ 6 ∷ 7 ∷ 8 ∷ []

take-all : (n : ℕ) (bs : Bytes) → length bs < n → take n bs ≡ bs
take-all zero bs h = absurd (omega arith)
take-all (suc n) [] h = refl
take-all (suc n) (b ∷ bs) h = ap (◌∷◌ b) (take-all n bs (omega arith))

ended : IsEnded (demo_os eight) (pending eight)
unfolding demo_os
ended = record {
  delivers = (demo_os-Stream eight).delivers;
  ends = λ h fd n l. ap got (take-all n (pending eight h) l);
}

await_close_ended_example :
    (t : Connection Bytes) × (await_close (demo_os eight) 3 0 (at SocketState.closing) ≡ some t)
unfolding demo_connection pending
await_close_ended_example =
    await_close_ended (demo_os eight) (posix eight) ended 3 0 (at SocketState.closing) (omega arith)

-- This side closes, with two messages in the queue; the other side confirms.
abbrev pub queued : Connection Bytes
queued = record (at SocketState.closing) { send_queue = two }

abbrev pub ended_queue : Connection Bytes
ended_queue = or_else (perform_closing closing_os demo_pb 2 queued) queued

sent-perform_closing_example :
    (sent (log_of ended_queue)
      ≡ sent (log_of queued) ++ (last_words closing_os demo_pb queued ++ htonl socket_close))
    × (ended_queue.send_queue ≡ [])
unfolding perform_closing await_close request_close flush_send_queue send_messages read_u32
    demo_connection demo_os pending htonl ntohl tell_all PlatformSocket.read_u32 error write_u32
    send_message PlatformSocket.shutdown
sent-perform_closing_example =
    sent-perform_closing closing_os (sends (htonl socket_close)) demo_pb 2 queued ended_queue refl

perform-Advances_example :
    (t : Connection Bytes) × (perform (demo_os []) demo_pb 0 (at SocketState.connecting) ≡ some t)
    × Advances SocketState.connected
        (try_all
          (attempts Makes.connects (demo_os []) (at SocketState.connecting))
          (at SocketState.connecting).platform_socket)
        (at SocketState.connecting)
        t
perform-Advances_example =
    perform-Advances (demo_os []) (at SocketState.connecting) demo_pb 0 Makes.connects refl
