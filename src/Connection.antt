-- ===== src/Connection.antt =====
-- `Socket::Private` of src/Socket_p.h: the state of a socket, how it reports errors, and how it
-- writes and reads. Its larger methods are the children.
pub mod Send
pub mod Receive
pub mod Worker
use lib_arcus.Prelude.{ℕ, Bool, true, false, Option, none, List, [], ◌∷◌, Bytes, ℤ, pos}
use lib_arcus.Types.{SocketState, ErrorCode}
use lib_arcus.Error.{Error, no_error, make_error, set_fatal_error, set_native_error_code}
use lib_arcus.Environment.{Os, Log, Event}
use lib_arcus.PlatformSocket.{PlatformSocket, happens, get_native_error_code}
use lib_arcus.PlatformSocket
use lib_arcus.MessageTypeStore.{MessageTypeStore, empty_store}
use lib_arcus.WireMessage.{WireMessage}

-- Listeners are objects of the application, known by their identity. `thread` says whether the
-- pointer to the worker is set. The mutexes are not part of the state: each use of a queue is one
-- step.
pub record Connection (M : Type 0) : Type 0 where
  pub state : SocketState
  pub next_state : SocketState
  pub received_close : Bool
  pub address : Bytes
  pub port : ℕ
  pub thread : Bool
  pub listeners : List ℕ
  pub message_types : MessageTypeStore M
  pub current_message : Option WireMessage
  pub send_queue : List M
  pub receive_queue : List M
  pub platform_socket : PlatformSocket
  pub last_error : Error
  pub last_keep_alive_sent : ℕ

-- The same connection with another log.
abbrev pub with_log : {M : Type 0} → Log → Connection M → Connection M
with_log h s = record s { platform_socket = record s.platform_socket { log = h } }

-- Private(). A `PlatformSocket` starts with whatever its descriptor's memory holds.
unfoldable pub new_connection : {M : Type 0} → PlatformSocket → Connection M
unfolding empty_store no_error
new_connection p = record {
  state = SocketState.initial;
  next_state = SocketState.initial;
  received_close = false;
  address = [];
  port = 0;
  thread = false;
  listeners = [];
  message_types = empty_store;
  current_message = none;
  send_queue = [];
  receive_queue = [];
  platform_socket = p;
  last_error = no_error;
  last_keep_alive_sent = 0;
}

-- `for(auto listener : listeners) listener->...`
unfoldable pub tell : (ℕ → Event) → List ℕ → PlatformSocket → PlatformSocket
tell callback [] p = p
tell callback (l ∷ ls) p = tell callback ls (happens (callback l) p)

module _ {M : Type 0} where
  unfoldable pub tell_all : (ℕ → Event) → Connection M → Connection M
  unfolding tell
  tell_all callback s = record s { platform_socket = tell callback s.listeners s.platform_socket }

  -- error(): report and go on.
  unfoldable pub error : ErrorCode → Bytes → Connection M → Connection M
  unfolding tell_all make_error set_native_error_code get_native_error_code
  error code message s =
      let e =
        set_native_error_code (get_native_error_code s.platform_socket) (make_error code message) in
      tell_all (λ l. Event.error l e) (record s { last_error = e })

  -- fatalError(): report, close and go to the error state.
  unfoldable pub fatal_error : Os → ErrorCode → Bytes → Connection M → Connection M
  unfolding tell_all make_error set_native_error_code set_fatal_error get_native_error_code
      PlatformSocket.close
  fatal_error os code message s =
      let e =
        set_native_error_code (get_native_error_code s.platform_socket)
          (set_fatal_error true (make_error code message)) in
      let (_, p) = PlatformSocket.close os s.platform_socket in
      tell_all (λ l. Event.error l e)
        (record s { last_error = e; platform_socket = p; next_state = SocketState.error })

  unfoldable pub write_u32 : Os → ℕ → Connection M → ℤ × Connection M
  unfolding PlatformSocket.write_u32
  write_u32 os w s =
      let (result, p) = PlatformSocket.write_u32 os w s.platform_socket in
      (result, record s { platform_socket = p })

  unfoldable pub read_u32 : Os → ℕ → Connection M → ℤ × ℕ × Connection M
  unfolding PlatformSocket.read_u32
  read_u32 os output s =
      let (result, word, p) = PlatformSocket.read_u32 os output s.platform_socket in
      (result, word, record s { platform_socket = p })

-- Socket_p.h: VERSION_MAJOR, VERSION_MINOR, ARCUS_SIGNATURE, SOCKET_CLOSE.
abbrev pub version_major : ℕ
version_major = 1

abbrev pub version_minor : ℕ
version_minor = 0

abbrev pub arcus_signature : ℕ
arcus_signature = 0x2bad

abbrev pub socket_close : ℕ
socket_close = 0xf0f0f0f0
