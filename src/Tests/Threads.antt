-- ===== src/Tests/Threads.antt =====
-- Threads that use one socket.
use lib_arcus.Prelude.{
  ◌≡◌, refl, ◌≤◌, ◌⊎◌, ◌++◌, List, [], ◌∷◌, Bytes, text, pos, true, false, some, inl,
}
use lib_arcus.Types.{SocketState}
use lib_arcus.Environment.{Os, failed}
use lib_arcus.Link.{sent}
use lib_arcus.PlatformSocket.{PlatformSocket}
use lib_arcus.PlatformSocket
use lib_arcus.Connection.{new_connection, tell_all, fatal_error}
use lib_arcus.Connection.Receive.Delivery.{log_of}
use lib_arcus.Connection.Worker.{commit, is_over}
use lib_arcus.Connection.Worker.Moves.{Pc, move}
use lib_arcus.Connection.Worker.Moves.Ranks.{rank}
use lib_arcus.Connection.Worker.Moves.Outputs.{Output, outputs, messages_in}
use lib_arcus.Socket.{ask, send_message, abort, close_joined}
use lib_arcus.Socket.Lifecycle.{IsStart}
use lib_arcus.System.{
  System, Taker, Closer, Reach, made, later, starts, asks, launches, hands, works, closes, aborts,
  decides, worked, with_conn,
}
use lib_arcus.System.Order.{Step-Ascends}
use lib_arcus.SocketListener.{SocketListener}
use lib_arcus.Socket.Destructor.{Destroyed, destroy}
use lib_arcus.System.Ending.{ended-destroy}
use lib_arcus.System.Closing.{close_joined-over}
use lib_arcus.System.Taking.{through, Step-through}
use lib_arcus.System.Outgoing.{Reach-sent}
use lib_arcus.Tests.Demo.{demo_os, demo_pb, sends}

abbrev pub quiet_os : Os
quiet_os = demo_os []

abbrev pub socket : PlatformSocket
socket = record { socket_id = pos 3; errno = 0; log = [] }

abbrev pub fresh : System Bytes
fresh = record {
  conn = new_connection socket;
  pc = Pc.absent;
  taker = Taker.free;
  closer = Closer.free;
  handed = [];
  taken = [];
}

abbrev given : System Bytes
given = record (with_conn quiet_os demo_pb fresh (send_message (some (text "hi")) fresh.conn)) {
  handed = text "hi" ∷ [];
}

given-Reach : Reach quiet_os demo_pb socket given
given-Reach = later made (hands (text "hi"))

-- The thread that connects asks for the state.
abbrev pub asked : System Bytes → System Bytes
asked y = record y { conn = ask SocketState.connecting y.conn; closer = Closer.free }

abbrev pub started : System Bytes
started = asked (launches quiet_os demo_pb SocketState.connecting (text "::") 80 given)

pub started-Reach : Reach quiet_os demo_pb socket started
unfolding new_connection send_message launches
started-Reach =
    later (later given-Reach (starts (text "::") 80 IsStart.connecting refl)) (asks refl)

abbrev moved : System Bytes
moved = worked quiet_os demo_pb started (move quiet_os demo_pb started.pc started.conn)

-- The worker starts while a message waits.
Step-Ascends_example :
    (rank started.conn.state ≤ rank moved.conn.state)
    ⊎ ((is_over started.conn.state ≡ true) × (moved.conn.state ≡ SocketState.initial))
Step-Ascends_example = Step-Ascends quiet_os demo_pb started-Reach works

Reach-sent_example :
    (ws : List (Output Bytes)) × (sent (log_of started.conn)
      ≡ sent [] ++ outputs quiet_os demo_pb ws)
    × (messages_in ws ++ started.conn.send_queue ≡ text "hi" ∷ [])
unfolding new_connection send_message launches
Reach-sent_example = Reach-sent quiet_os demo_pb (sends []) socket started-Reach refl

-- A message came before the thread began to wait.
abbrev late : System Bytes
late = record fresh {
  conn = record fresh.conn { receive_queue = text "hi" ∷ [] };
  taker = Taker.tested;
}

abbrev waiting : System Bytes
waiting = record late { taker = Taker.asleep }

Step-through_example :
    (through moved ≡ through started)
    ⊎ ((m : Bytes) × (through moved ≡ through started ++ m ∷ [])
        × (moved.conn ≡ (move quiet_os demo_pb started.pc started.conn).1)
        × (moved.taken ≡ started.taken))
Step-through_example = Step-through quiet_os demo_pb {y = started} works

-- The system refuses every call.
abbrev refusing : Os
refusing = record (demo_os []) { answer = λ h c. failed 1 }

abbrev begun : System Bytes
begun = asked (launches refusing demo_pb SocketState.connecting (text "::") 80 fresh)

begun-Reach : Reach refusing demo_pb socket begun
unfolding new_connection launches
begun-Reach = later (later made (starts (text "::") 80 IsStart.connecting refl)) (asks refl)

abbrev next : System Bytes → System Bytes
next y = worked refusing demo_pb y (move refusing demo_pb y.pc y.conn)

abbrev decided : System Bytes
decided = decides refusing demo_pb (next (next begun))

-- `close` is called while the worker connects.
abbrev aborted : System Bytes
aborted = record (with_conn refusing demo_pb decided (abort refusing decided.conn)) {
  closer = Closer.joining;
}

abbrev gone : System Bytes
gone = next (next (next aborted))

gone-Reach : Reach refusing demo_pb socket gone
unfolding new_connection launches move commit decides
gone-Reach =
    later
      (later
        (later (later (later (later (later begun-Reach works) works) (closes refl)) (aborts refl))
          works)
        works)
      works

close_joined-over_example :
    (gone.pc ≡ Pc.ended)
    × (is_over (close_joined gone.conn).state ≡ true)
    × ((close_joined gone.conn).thread ≡ false)
unfolding new_connection launches move commit decides abort fatal_error tell_all
    PlatformSocket.create PlatformSocket.syscall PlatformSocket.shutdown PlatformSocket.close
close_joined-over_example = close_joined-over refusing demo_pb gone-Reach refl (inl refl)

-- No descriptor can be had, and the worker ends in Error.
abbrev failed_begun : System Bytes
failed_begun = next (next (next (next (next begun))))

failed-Reach : Reach refusing demo_pb socket failed_begun
unfolding new_connection launches move commit
failed-Reach = later (later (later (later (later begun-Reach works) works) works) works) works

ended-destroy_example :
    (failed_begun.conn.thread ≡ true)
    × (is_over failed_begun.conn.state ≡ true)
    × (destroy refusing failed_begun.conn (λ l. SocketListener.deleted) ≡ Destroyed.terminated)
unfolding new_connection launches move commit fatal_error tell_all PlatformSocket.create
    PlatformSocket.syscall PlatformSocket.close
ended-destroy_example =
    ended-destroy refusing demo_pb failed-Reach refl (λ l. SocketListener.deleted)
