-- ===== src/Environment.antt =====
-- What libArcus calls and does not implement: the operating system's sockets, clock and memory
-- (`Os`), and the Protocol Buffers library (`Protobuf`). The answers of the system may depend on
-- everything that happened before, so each field of `Os` takes the log of earlier events.
use lib_arcus.Prelude.{ℕ, Bool, ◌≡◌, ◌≢◌, ◌≤◌, Option, some, List, Bytes, length, ℤ}
use lib_arcus.Types.{SocketState}
use lib_arcus.Error.{Error}

-- PlatformSocket_p.h: enum class ShutdownDirection, which names the `SHUT_` flag too.
pub data ShutdownDirection : Type 0 where
  shutdown_read shutdown_write shutdown_both : ShutdownDirection

-- sockaddr_in: the address, `none` while it is not initialised, and the two bytes of the port.
pub record SockAddr : Type 0 where
  pub sin_addr : Option ℕ
  pub sin_port : Bytes

-- The POSIX calls, the first argument of most is the descriptor.
pub data Call : Type 0 where
  socket : Call
  connect : ℤ → SockAddr → Call
  bind : ℤ → SockAddr → Call
  listen : ℤ → ℕ → Call
  accept : ℤ → Call
  close : ℤ → Call
  shutdown : ℤ → ShutdownDirection → Call
  send : ℤ → Bytes → Call
  set_receive_timeout : ℤ → (seconds microseconds : ℕ) → Call

-- What happens, in order: system calls, callbacks of listeners (by the listener's identity), and
-- signals of the condition variable.
pub data Event : Type 0 where
  call : Call → Event
  recv : ℤ → ℕ → Event
  now : Event
  allocate : ℕ → Event
  import_file : Bytes → Event
  state_changed : ℕ → SocketState → Event
  message_received : ℕ → Event
  error : ℕ → Error → Event
  notify_all : Event

-- The newest event first.
abbrev pub Log : Type 0
Log = List Event

-- A call returns a number that is not negative, or -1 and sets `errno`.
pub data Outcome : Type 0 where
  done : ℕ → Outcome
  failed : ℕ → Outcome

-- `::recv` gives the bytes it wrote, as many as it returns, or returns -1 and sets `errno`.
pub data Received : Type 0 where
  got : Bytes → Received
  recv_failed : ℕ → Received

pub record Os : Type 0 where
  pub answer : Log → Call → Outcome
  pub receive : Log → ℤ → ℕ → Received
  -- The clock in nanoseconds since its epoch.
  pub clock : Log → ℕ
  -- `new char[n]`: the content is whatever was there, `none` throws `std::bad_alloc`.
  pub fresh_memory : Log → ℕ → Option Bytes
  -- The bytes that lie behind a buffer, up to the next zero byte.
  pub memory_behind : Log → Bytes
  pub inet_pton : Bytes → Option ℕ
  pub eagain : ℕ
  -- Whether plain `char` is signed, which the compiler chooses.
  pub char_is_signed : Bool

-- An error that the importer reports to its collector.
pub record ImportError : Type 0 where
  pub file_name : Bytes
  pub line : ℕ
  pub column : ℕ
  pub message : Bytes

-- The outcome of one `Importer::Import`: the errors that it reported, and the prototypes that the
-- factory makes for the file's message types.
pub record Imported (M : Type 0) : Type 0 where
  pub errors : List ImportError
  pub message_types : List M

-- `M` stands for messages and prototypes; a descriptor is its address.
pub record Protobuf (M : Type 0) : Type 0 where
  pub type_name : M → Bytes
  pub descriptor : M → ℕ
  pub new_instance : M → M
  pub byte_size : M → ℕ
  pub serialize : M → Bytes
  -- `ParseFromCodedStream` into an instance, from an `ArrayInputStream` of the data with an `int` size,
  -- and with a limit on the bytes.
  pub parse : M → Bytes → (size : ℤ) → (total_bytes_limit : ℕ) → Option M
  pub import_file : Log → Bytes → Imported M

-- What POSIX documents of these calls.
pub record IsPosix (os : Os) : Type 0 where
  -- `recv` never writes more than it was asked for.
  pub recv_bounded :
      (h : Log) (fd : ℤ) (n : ℕ) (bs : Bytes) → os.receive h fd n ≡ got bs → length bs ≤ n
  -- Error numbers are not 0.
  pub eagain_ne_zero : os.eagain ≢ 0
  -- `new char[n]` gives n bytes.
  pub fresh_length : (h : Log) (n : ℕ) (bs : Bytes) → os.fresh_memory h n ≡ some bs → length bs ≡ n
