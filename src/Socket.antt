-- ===== src/Socket.antt =====
-- src/Socket.cpp: the methods that the application calls, each up to the point where it returns or
-- waits for another thread.
pub mod Calls
pub mod Destructor
pub mod Lifecycle
pub mod Listeners
use lib_arcus.Prelude.{
  ℕ, Bool, true, false, not, ◌&&◌, ◌||◌, Option, none, some, List, [], ◌∷◌, ◌++◌, Bytes, text, ◌==◌,
  if◌then◌else◌,
}
use lib_arcus.Types.{SocketState, ErrorCode, same_state}
use lib_arcus.Error.{Error, no_error}
use lib_arcus.Environment.{Os, Event, Protobuf, ShutdownDirection}
use lib_arcus.PlatformSocket.{happens}
use lib_arcus.PlatformSocket
use lib_arcus.MessageTypeStore
use lib_arcus.Connection.{Connection, error}
use Listeners.{erase_first}

-- Where `close` and the destructor stand when they give up control.
pub data Closed (M : Type 0) : Type 0 where
  -- The method has returned.
  returned : Connection M → Closed M
  -- It waits in `thread->join()` for the worker to end.
  joining : Connection M → Closed M

-- Where `takeNextMessage` stands when it gives up control.
pub data Taken (M : Type 0) : Type 0 where
  taken : M → Connection M → Taken M
  -- It waits on the condition variable.
  waiting : Connection M → Taken M
  -- It has returned the null pointer.
  nothing : Connection M → Taken M

module _ {M : Type 0} where
  abbrev pub not_initial : Connection M → Bool
  not_initial s = not (same_state s.state SocketState.initial)

  unfoldable pub get_state : Connection M → SocketState
  get_state s = s.state

  unfoldable pub get_last_error : Connection M → Error
  get_last_error s = s.last_error

  unfoldable pub clear_error : Connection M → Connection M
  unfolding no_error
  clear_error s = record s { last_error = no_error }

  abbrev pub invalid_state : Connection M → Connection M
  invalid_state = error ErrorCode.invalid_state_error (text "Socket is not in initial state")

  unfoldable pub add_listener : ℕ → Connection M → Connection M
  unfolding error
  add_listener listener s =
      if not_initial s
      then invalid_state s
      else record s { listeners = s.listeners ++ listener ∷ [] }

  -- `erase(std::find(...))`: `none` where the listener is not there, and `erase` gets the end.
  unfoldable pub remove_listener : ℕ → Connection M → Option (Connection M)
  unfolding error
  remove_listener listener s =
      if not_initial s then some (invalid_state s) else elim (erase_first listener s.listeners) [
        | none ↦ none
        | some rest ↦ some (record s { listeners = rest })
      ]

  -- The guard of `connect` and `listen`.
  abbrev pub cannot_start : Connection M → Bool
  cannot_start s = not_initial s || s.thread

  -- The address, the port and the new thread, which runs `run` from here on. A port is the bit pattern
  -- of its `int`.
  abbrev pub create_thread : Bytes → ℕ → Connection M → Connection M
  create_thread address port s = record s { address = address; port = port; thread = true }

  -- What the thread is to do. Before this it goes round in Initial.
  abbrev pub ask : SocketState → Connection M → Connection M
  ask wanted s = record s { next_state = wanted }

  -- `connect` and `listen` differ in the state that they ask for.
  unfoldable pub start : SocketState → Bytes → ℕ → Connection M → Connection M
  unfolding error
  start wanted address port s =
      if cannot_start s then invalid_state s else ask wanted (create_thread address port s)

  unfoldable pub connect : Bytes → ℕ → Connection M → Connection M
  unfolding start
  connect = start SocketState.connecting

  unfoldable pub listen : Bytes → ℕ → Connection M → Connection M
  unfolding start
  listen = start SocketState.opening

  abbrev pub is_down : Connection M → Bool
  is_down s = same_state s.state SocketState.closed || same_state s.state SocketState.error

  -- `reset`, which waits for the worker to end where there is one.
  unfoldable pub reset : Connection M → Connection M
  unfolding clear_error error
  reset s =
      if not (is_down s)
      then error ErrorCode.invalid_state_error (text "Socket is not in closed or error state") s
      else clear_error (record s {
        thread = false;
        state = SocketState.initial;
        next_state = SocketState.initial;
      })

  unfoldable pub notify_waiting : Connection M → Connection M
  notify_waiting s = record s { platform_socket = happens Event.notify_all s.platform_socket }

  -- The end of `close`, with the worker ended.
  unfoldable pub close_joined : Connection M → Connection M
  unfolding notify_waiting
  close_joined s = notify_waiting (record s { thread = false })

  unfoldable pub abort : Os → Connection M → Connection M
  unfolding PlatformSocket.shutdown PlatformSocket.close
  abort os s =
      let (_, p) = PlatformSocket.shutdown os ShutdownDirection.shutdown_both s.platform_socket in
      let (_, q) = PlatformSocket.close os p in
      record s { platform_socket = q; next_state = SocketState.closed }

  abbrev join : Connection M → Closed M
  unfolding close_joined
  join s = if s.thread then joining s else returned (close_joined s)

  -- The wait `while(state == Closing)` in the branch for Connected is over when it starts: the state
  -- is Connected there.
  unfoldable pub close : Os → Connection M → Closed M
  unfolding abort notify_waiting error close_joined
  close os s =
      if same_state s.state SocketState.initial
      then returned
          (error ErrorCode.invalid_state_error (text "Cannot close a socket in initial state") s)
      else if is_down s
      then returned (notify_waiting (record s { state = SocketState.closed }))
      else if same_state s.state SocketState.connected
      then join (record s { next_state = SocketState.closing })
      else join (abort os s)

  -- Whether the destructor calls `close`.
  unfoldable pub closes_on_destruction : Connection M → Bool
  closes_on_destruction s =
      s.thread
      && (not (same_state s.state SocketState.closed) || not (same_state s.state SocketState.error))

  -- `none` is the null pointer.
  unfoldable pub send_message : Option M → Connection M → Connection M
  unfolding error
  send_message none s = error ErrorCode.invalid_message_error (text "Message cannot be nullptr") s
  send_message (some message) s = record s { send_queue = s.send_queue ++ message ∷ [] }

  take_from : List M → Connection M → Taken M
  take_from [] s = waiting s
  take_from (message ∷ rest) s = taken message (record s { receive_queue = rest })

  unfoldable pub take_next_message : Connection M → Taken M
  unfolding take_from
  take_next_message s = take_from s.receive_queue s

  -- What follows a wake-up.
  unfoldable pub wake : Connection M → Taken M
  unfolding take_next_message
  wake s =
      if not (same_state s.state SocketState.closed) && not (same_state s.state SocketState.error)
      then take_next_message s
      else nothing s

  module _ (os : Os) (pb : Protobuf M) where
    unfoldable pub register_message_type : M → Connection M → Bool × Connection M
    unfolding MessageTypeStore.register_message_type error
    register_message_type message_type s =
        if not_initial s
        then (false, invalid_state s)
        else (let (done, store) =
              MessageTypeStore.register_message_type os pb message_type s.message_types in
            (done, record s { message_types = store }))

    abbrev is_empty : Bytes → Bool
    is_empty [] = true
    is_empty (_ ∷ _) = false

    -- The collector is there whenever its errors are asked for.
    abbrev pub messages_of : Option Bytes → Bytes
    messages_of none = []
    messages_of (some bs) = bs

    unfoldable pub register_all_message_types : Bytes → Connection M → Bool × Connection M
    unfolding MessageTypeStore.register_all_message_types MessageTypeStore.get_error_messages error
    register_all_message_types file_name s =
        if is_empty file_name
        then (false, error ErrorCode.message_registration_failed_error (text "Empty file name") s)
        else if not_initial s
        then (
          false,
          error ErrorCode.message_registration_failed_error (text "Socket is not in initial state")
              s,
        )
        else (let (done, store) =
              MessageTypeStore.register_all_message_types os pb s.platform_socket.log file_name
                s.message_types in
            let s' = record s {
              message_types = store;
              platform_socket = happens (Event.import_file file_name) s.platform_socket;
            } in
            if not done
            then (
              false,
              error ErrorCode.message_registration_failed_error
                  (messages_of (MessageTypeStore.get_error_messages store)) s',
            )
            else (true, s'))

    unfoldable pub create_message : Bytes → Connection M → Option M
    unfolding MessageTypeStore.create_message_name
    create_message type_name s =
        MessageTypeStore.create_message_name os pb type_name s.message_types
