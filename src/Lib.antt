-- ===== src/Lib.antt =====
-- libArcus: a socket in a thread that sends and receives Protocol Buffers messages.
--
-- The program. An application makes a `Socket` (src/Socket.cpp), registers message types, and tells
-- it to connect or to listen. Then a worker thread runs `Socket::Private::run` (src/Socket_p.h): a
-- loop whose `switch` makes the connection, and once connected sends what is in the send queue,
-- calls `receiveNextMessage`, and keeps the connection alive. A message travels as a header of one
-- word, its size, the id of its type and its serialized data; the word 0 is a keep-alive, and
-- SOCKET_CLOSE asks the other side to close. `PlatformSocket` (src/PlatformSocket.cpp) wraps the
-- system's socket calls, `WireMessage` (src/WireMessage_p.h) is a message that is half received, and
-- `MessageTypeStore` (src/MessageTypeStore.cpp) finds prototypes by the hash of a type's name.
--
-- The files, and what they model.
--   Prelude               names of the libraries, and lists, bytes and signed numbers over the native
--                         numbers
--   Types, Error          src/Types.h, src/Error.h, src/Error.cpp
--   Environment           what the code calls and does not contain: the system (`Os`), the Protocol
--                         Buffers library (`Protobuf`), and what POSIX documents (`IsPosix`)
--   Integers              the conversions of C++ between integers of different widths
--   ByteOrder             htonl, ntohl and htons
--   PlatformSocket        src/PlatformSocket.cpp; the child is about reading and flushing
--   Hash                  `hash` of src/MessageTypeStore.cpp, the 32-bit FNV-1a hash
--   MessageTypeStore      src/MessageTypeStore.cpp, with its tables; the child Registry says what the
--                         store promises
--   WireMessage           src/WireMessage_p.h
--   Connection            `Socket::Private` of src/Socket_p.h: its state, error() and fatalError()
--   Connection/Send       sendMessage and checkConnectionState
--   Connection/Receive    receiveNextMessage and handleMessage
--   Connection/Worker     run: `perform` is one pass of the `switch`, `commit` what follows it; the
--                         child Moves cuts a pass into the moves between which other threads act
--   Socket                src/Socket.cpp: the methods of the application; the child Destructor is the
--                         destructor
--   SocketListener        src/SocketListener.cpp: the listeners as objects, and which of them a socket
--                         owns
--   System                a socket with its worker and the threads of the application, in any order
--   Reflection            what python/PythonMessage.cpp calls: the reflection interface of Protocol
--                         Buffers with what it documents (`IsReflection`), and the Python C API
--   PythonMessage         python/PythonMessage.cpp; the child Fields is about the attributes, Nested
--                         about the messages inside a message
--   Link, Session         two sockets: the bytes between them, and what arrives; the child Tracking
--                         follows a receiver through a stream that comes in pieces, and Conversation
--                         is about two sockets with all their threads
--   Tests                 the theorems at concrete inputs
--
-- How the code is modelled. The members of `Socket::Private` are the fields of the record
-- `Connection`, which every method takes and returns. A method that fails sets `last_error` and calls
-- the listeners, which are known by their identity; system calls, callbacks and signals are events
-- in the log of its `PlatformSocket`, newest first. An answer of the system depends on the log before
-- it, so that nothing is assumed of it beyond the hypotheses that a theorem names: `IsPosix`,
-- `SendsAll` (every `send` takes all its bytes), `Stream` (the bytes that arrived are read in their
-- order, and memory can be had), `Steady` (a `recv` brings a piece of whatever length, or finds nothing
-- in time, the four bytes of a word come together, and memory can be had), `Follows` (whatever was
-- read is a beginning of a given stream), and `Serializes` and `Understands` for messages. A
-- `uint32_t` is a natural number with `% 2 ^ 32` written out; a result that may be -1 is an integer, and
-- becomes an `int` by `to_int32` where the code stores it in one;
-- the clock counts nanoseconds. The early returns of `receiveNextMessage` are the constructor `stop`
-- of `Flow`.
--
-- Threads. `System` holds the connection, where the worker stands (`Pc`), where one thread stands that
-- takes messages (a mutex lets one in) and where one stands that starts, closes and resets the
-- socket; any of them may take the next step. A move of the worker calls the platform once, or does
-- what a case of the `switch` does with the queues and the packets that it sends then, or writes the
-- next state. `connect` and `listen` are cut between the new thread and the state that they ask it
-- for, so that it may go round in Initial any number of times before; `close` is cut between its test
-- of the state, what it does then, and the join; `takeNextMessage` is cut before and behind its wait.
-- A call of another method is one step; `removeListener` has none where the listener is not there,
-- since `erase` is undefined then. A waiting thread may wake without a signal. The destructor is cut
-- at its join; the `delete` of a thread that was not joined is the result `terminated`.
--
-- Python. `PythonMessage` wraps the address of a message in a heap that the reflection interface
-- reads and changes; each method takes the heap and the interpreter's error indicator, and returns
-- them. A check of Protocol Buffers that ends the process is the result `fatal`, and what C++ leaves
-- open is `undefined`. Fields, descriptors, objects and floating point numbers are parameters.
--
-- Fuel. `run` takes fuel for its rounds and for the wait for a confirmation inside a round
-- (`await_close`), since neither loop is bounded in the code; running out of it is the result `none`.
-- A round of the wait reads four bytes, so the bytes that are left bound its rounds where the other
-- side has ended its stream. `flush` takes fuel for its loop and never uses it.
--
-- Not modelled: the branches for Windows, `debug()` (compiled with ARCUS_DEBUG only), the text that
-- `dumpMessageTypes` prints, the memory that is freed, and what two threads do to the same field at the
-- same moment; the getters of src/Error.cpp, which are the fields of `Error`; what a listener does in a
-- callback, which is the application's and an event of the log; the bindings in python, which a
-- generator reads; and examples/example.cpp, an application.
pub mod Prelude
pub mod Types
pub mod Error
pub mod Environment
pub mod ByteOrder
pub mod Integers
pub mod PlatformSocket
pub mod PythonMessage
pub mod Reflection
pub mod Hash
pub mod MessageTypeStore
pub mod WireMessage
pub mod Connection
pub mod Socket
pub mod Link
pub mod Session
pub mod SocketListener
pub mod System
mod Tests
