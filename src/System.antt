-- ===== src/System.antt =====
-- A socket and the threads that use it: the worker of src/Socket_p.h, and the methods of
-- src/Socket.cpp on threads of the application, interleaved in any order.
pub mod Closing
pub mod Ending
pub mod Incoming
pub mod Order
pub mod Outgoing
pub mod Taking
pub mod Waiting
use lib_arcus.Prelude.{
  ℕ, zero, suc, ◌+◌, ◌≡◌, ◌≢◌, Bool, true, false, not, ◌||◌, some, none, List, [], ◌∷◌, ◌++◌, Bytes,
  text, ◌⊎◌, if◌then◌else◌, ◌==◌,
}
use lib_arcus.Types.{SocketState, ErrorCode, same_state}
use lib_arcus.Environment.{Os, Log, Event, Protobuf}
use lib_arcus.PlatformSocket.{PlatformSocket}
use lib_arcus.Connection.{Connection, new_connection, error}
use lib_arcus.Link.{signals}
use lib_arcus.Connection.Receive.Delivery.{log_of}
use lib_arcus.Connection.Worker.Moves.{Pc, move}
use lib_arcus.Socket.{
  Taken, Closed, is_down, not_initial, notify_waiting, close_joined, abort, reset, cannot_start,
  invalid_state, create_thread, ask,
}
use lib_arcus.Socket.Lifecycle.{IsStart}
use lib_arcus.Socket

-- Where the thread stands that takes messages. It holds `receiveQueueMutexBlock` from the test of
-- the queue to the wait, so that one thread at a time is there.
pub data Taker : Type 0 where
  free : Taker  -- not in `takeNextMessage`
  tested : Taker  -- the queue was empty, and it does not wait yet
  asleep : Taker  -- in `wait`
  woken : Taker  -- behind `wait`

-- Where the thread stands that starts, closes and resets the socket.
pub data Closer : Type 0 where
  free : Closer
  starting : SocketState → Closer  -- in `connect` or `listen`, with the thread made, before it asks
  requesting : Closer  -- in `close`, which found Connected, before it writes the next state
  aborting : Closer  -- in `close`, which found no connection, before it shuts it down
  joining : Closer  -- in `thread->join()`

-- `handed` and `taken` are the messages that `sendMessage` was given and that `takeNextMessage` has
-- returned so far.
pub record System (M : Type 0) : Type 0 where
  pub conn : Connection M
  pub pc : Pc
  pub taker : Taker
  pub closer : Closer
  pub handed : List M
  pub taken : List M

-- `notify_all` wakes the thread that waits, and no other.
abbrev pub wakes : Log → Log → Taker → Taker
wakes h h' Taker.asleep = if signals h' == signals h then Taker.asleep else Taker.woken
wakes h h' taker = taker

module _ {M : Type 0} (os : Os) (pb : Protobuf M) where
  -- The connection after a step, with what the step's signals do.
  abbrev pub with_conn : System M → Connection M → System M
  with_conn y t = record y { conn = t; taker = wakes (log_of y.conn) (log_of t) y.taker }

  abbrev pub worked : System M → Pc × Connection M → System M
  worked y (p, t) = record (with_conn y t) { pc = p }

  -- Where a thread in `takeNextMessage` is led.
  abbrev pub takes : System M → Taken M → System M
  takes y (Taken.taken m t) = record y { conn = t; taker = Taker.free; taken = y.taken ++ m ∷ [] }
  takes y (Taken.waiting t) = record y { conn = t; taker = Taker.tested }
  takes y (Taken.nothing t) = record y { conn = t; taker = Taker.free }

  -- Where `connect` and `listen` are led by their guard.
  unfoldable pub launches : SocketState → Bytes → ℕ → System M → System M
  unfolding error
  launches wanted address port y =
      if cannot_start y.conn then with_conn y (invalid_state y.conn) else record y {
        conn = create_thread address port y.conn;
        pc = Pc.looping;
        closer = Closer.starting wanted;
      }

  -- Where `close` is led by the state that it finds.
  unfoldable pub decides : System M → System M
  unfolding error notify_waiting
  decides y =
      let s = y.conn in
      if same_state s.state SocketState.initial
      then with_conn y
          (error ErrorCode.invalid_state_error (text "Cannot close a socket in initial state") s)
      else if is_down s
      then with_conn y (notify_waiting (record s { state = SocketState.closed }))
      else if same_state s.state SocketState.connected
      then record y { closer = Closer.requesting }
      else record y { closer = Closer.aborting }

  -- The worker, if there was one, has left `run`.
  abbrev pub IsGone : Pc → Type 0
  IsGone pc = (pc ≡ Pc.ended) ⊎ (pc ≡ Pc.absent)

  -- What a thread does next. Each constructor is one step of one thread; a step that is possible may
  -- be taken at any time.
  pub data Step (y : System M) : System M → Type 0 where
    works : Step y (worked y (move os pb y.pc y.conn))
    starts :
        {wanted : SocketState} (address : Bytes) (port : ℕ)
        → IsStart wanted
        → y.closer ≡ Closer.free
        → Step y (launches wanted address port y)
    asks :
        {wanted : SocketState}
        → y.closer ≡ Closer.starting wanted
        → Step y (record y { conn = ask wanted y.conn; closer = Closer.free })
    hands :
        (m : M)
        → Step y (record (with_conn y (Socket.send_message (some m) y.conn)) {
          handed = y.handed ++ m ∷ [];
        })
    hands_null : Step y (with_conn y (Socket.send_message none y.conn))
    tests : y.taker ≡ Taker.free → Step y (takes y (Socket.take_next_message y.conn))
    sleeps : y.taker ≡ Taker.tested → Step y (record y { taker = Taker.asleep })
    -- `wait` may return without a signal.
    stirs : y.taker ≡ Taker.asleep → Step y (record y { taker = Taker.woken })
    resumes : y.taker ≡ Taker.woken → Step y (takes y (Socket.wake y.conn))
    closes : y.closer ≡ Closer.free → Step y (decides y)
    requests :
        y.closer ≡ Closer.requesting
        → Step y (record y {
          conn = record y.conn { next_state = SocketState.closing };
          closer = Closer.joining;
        })
    aborts :
        y.closer ≡ Closer.aborting
        → Step y (record (with_conn y (abort os y.conn)) { closer = Closer.joining })
    joins :
        y.closer ≡ Closer.joining
        → IsGone y.pc
        → Step y
            (record (with_conn y (close_joined y.conn)) { pc = Pc.absent; closer = Closer.free })
    resets :
        y.closer ≡ Closer.free
        → IsGone y.pc
        → Step y (record (with_conn y (reset y.conn)) { pc = Pc.absent })
    resets_early : is_down y.conn ≡ false → Step y (with_conn y (reset y.conn))
    clears : Step y (with_conn y (Socket.clear_error y.conn))
    registers : (m : M) → Step y (with_conn y (Socket.register_message_type os pb m y.conn).1)
    imports :
        (file_name : Bytes)
        → Step y (with_conn y (Socket.register_all_message_types os pb file_name y.conn).1)
    listens : (l : ℕ) → Step y (with_conn y (Socket.add_listener l y.conn))
    -- Where the listener is not there, the behaviour of `erase` is undefined, and there is no step.
    unlistens :
        (l : ℕ) {t : Connection M}
        → Socket.remove_listener l y.conn ≡ some t
        → Step y (with_conn y t)

  -- The states that are reached from a socket that was just made.
  pub data Reach (p : PlatformSocket) : System M → Type 0 where
    made : Reach p (record {
      conn = new_connection p;
      pc = Pc.absent;
      taker = Taker.free;
      closer = Closer.free;
      handed = [];
      taken = [];
    })
    later : {y z : System M} → Reach p y → Step y z → Reach p z
