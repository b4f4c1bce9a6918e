-- ===== src/Connection/Receive.antt =====
-- `receiveNextMessage` and `handleMessage` of src/Socket_p.h.
pub mod Arrivals
pub mod Buffer
pub mod Chunks
pub mod Control
pub mod Deaf
pub mod Delivery
pub mod Ensures
pub mod Leads
pub mod Presence
pub mod Queue
pub mod Quiet
pub mod Rejection
pub mod Ringing
pub mod Unread
use lib_arcus.Prelude.{
  ℕ, ◌+◌, ◌*◌, ◌/◌, ◌%◌, ◌^◌, ◌++◌, Bool, true, false, not, Option, none, some, [], ◌∷◌, Bytes,
  text, take, ◌==◌, if◌then◌else◌, ℤ, pos, negsuc, is_minus_one, is_zero, is_negative,
}
use lib_arcus.Types.{SocketState, ErrorCode}
use lib_arcus.Integers.{to_int32}
use lib_arcus.Environment.{Os, Event, Protobuf}
use lib_arcus.PlatformSocket.{happens}
use lib_arcus.PlatformSocket
use lib_arcus.MessageTypeStore.{has_type, create_message}
use lib_arcus.WireMessage.{
  MessageState, WireMessage, new_wire_message, get_remaining_size, allocate_data, is_complete,
  store_at,
}
use lib_arcus.Connection.{
  Connection, error, fatal_error, tell_all, read_u32, version_major, version_minor, arcus_signature,
  socket_close,
}

-- Where a part of `receiveNextMessage` leads: out of the method, or on with `*current_message`.
pub data Flow (M : Type 0) : Type 0 where
  stop : Connection M → Flow M
  go : WireMessage → Connection M → Flow M

abbrev pub and_then : {M : Type 0} → Flow M → (WireMessage → Connection M → Flow M) → Flow M
and_then (stop s) k = stop s
and_then (go m s) k = k m s

abbrev pub in_state : MessageState → MessageState → Bool
in_state MessageState.header MessageState.header = true
in_state MessageState.size MessageState.size = true
in_state MessageState.type MessageState.type = true
in_state MessageState.data_ MessageState.data_ = true
in_state MessageState.dispatch MessageState.dispatch = true
in_state _ _ = false

-- 500 MiB.
abbrev pub message_size_maximum : ℕ
message_size_maximum = 500 * 1048576

-- `std::string(data)`: up to the first zero byte, wherever that is.
unfoldable pub c_string : Bytes → Bytes → Bytes
c_string behind [] = behind
c_string behind (b ∷ bs) = if b == 0 then [] else b ∷ c_string behind bs

abbrev pub bytes_of : Option Bytes → Bytes
bytes_of none = []
bytes_of (some bs) = bs

abbrev pub count_of : ℤ → ℕ
count_of (pos n) = n
count_of (negsuc n) = 0

-- `received_size` after a read, and the bytes in the buffer.
unfoldable pub take_in : ℕ → Bytes → WireMessage → WireMessage
unfolding store_at
take_in result bs m = record m {
  received_size = (m.received_size + result) % 2 ^ 32;
  buffer = some (store_at m.received_size bs (bytes_of m.buffer));
}

-- A message is begun where there is none.
unfoldable pub message_at_hand : Option WireMessage → WireMessage
message_at_hand none = new_wire_message
message_at_hand (some m) = m

abbrev pub outcome : {M : Type 0} → Flow M → Connection M
outcome (stop s) = s
outcome (go m s) = s

module _ {M : Type 0} where
  -- `return`, with the message kept for the next call.
  abbrev pub keep : WireMessage → Connection M → Flow M
  keep m s = stop (record s { current_message = some m })

  -- `current_message.reset()`.
  abbrev pub reset_message : Connection M → Connection M
  reset_message s = record s { current_message = none }

  -- Report, forget the message and flush. (The fuel of `flush` does not matter.)
  unfoldable pub reject : Os → Bytes → Connection M → Flow M
  unfolding error
  reject os message s =
      let t = reset_message (error ErrorCode.receive_failed_error message s) in
      stop (record t { platform_socket = PlatformSocket.flush os 256 t.platform_socket })

  -- What a header says, as the source tests it.
  unfoldable pub check_header : Os → ℕ → WireMessage → Connection M → Flow M
  unfolding reject
  check_header os header m s =
      if header == 0
      then keep m s
      else if header == socket_close
      then keep m (record s { next_state = SocketState.closing; received_close = true })
      else if not (header / 2 ^ 16 % 2 ^ 16 == arcus_signature)
      then reject os (text "Header mismatch") s
      else if not (header / 2 ^ 8 % 2 ^ 8 == version_major)
      then reject os (text "Protocol version mismatch") s
      else if not (header % 2 ^ 8 == version_minor)
      then reject os (text "Protocol version mismatch") s
      else go (record m { state = MessageState.size }) s

  -- The result of the read is not tested: what is not read leaves `header` at 0.
  unfoldable pub receive_header : Os → WireMessage → Connection M → Flow M
  receive_header os m s =
      if in_state m.state MessageState.header
      then (let (_, header, s') = read_u32 os 0 s in check_header os header m s')
      else go m s

  unfoldable pub receive_size : Os → WireMessage → Connection M → Flow M
  unfolding reject
  receive_size os m s =
      if in_state m.state MessageState.size
      then (let (result, size, s') = read_u32 os 0 s in
          if is_zero result
          then keep m s'
          else if is_minus_one result
          then reject os (text "Size invalid") s'
          else go (record m { size = size; state = MessageState.type }) s')
      else go m s

  -- The buffer is made and the state goes on in either case; `valid` remembers a failed read.
  unfoldable pub allocate : Os → ℕ → WireMessage → Connection M → Flow M
  unfolding allocate_data
  allocate os type m s =
      let log = s.platform_socket.log in
      let s' = record s { platform_socket = happens (Event.allocate m.size) s.platform_socket } in
      elim (allocate_data os log m) [
        | none ↦ stop (
            fatal_error os ErrorCode.receive_failed_error (text "Out of memory") (reset_message s'))
        | some m' ↦ go (record m' { type = type; state = MessageState.data_ }) s'
      ]

  unfoldable pub receive_type : Os → WireMessage → Connection M → Flow M
  receive_type os m s =
      if in_state m.state MessageState.type
      then (let (result, type, s') = read_u32 os 0 s in
          if is_zero result
          then keep m s'
          else if is_minus_one result
          then allocate os type (record m { valid = false })
              (error ErrorCode.receive_failed_error (text "Receiving type failed") s')
          else allocate os type m s')
      else go m s

  -- The `ssize_t` that the read returns becomes an `int`.
  unfoldable pub receive_data : Os → WireMessage → Connection M → Flow M
  unfolding error get_remaining_size take_in is_complete to_int32
  receive_data os m s =
      if in_state m.state MessageState.data_
      then (let (count, bs, p) =
            PlatformSocket.read_bytes os (get_remaining_size m) s.platform_socket in
          let result = to_int32 count in
          let s' = record s { platform_socket = p } in
          if is_negative result
          then stop (
              reset_message (
                error ErrorCode.receive_failed_error (text "Could not receive data for message")
                  s'))
          else (let m' = take_in (count_of result) bs m in
              if is_complete m'
              then (if not m'.valid
                  then stop (reset_message s')
                  else go (record m' { state = MessageState.dispatch }) s')
              else go m' s'))
      else go m s

  unfoldable pub parse_failure : Os → WireMessage → Connection M → Connection M
  unfolding error c_string
  parse_failure os m s =
      error ErrorCode.parse_failed_error
        (text "Failed to parse message:"
          ++ c_string (os.memory_behind s.platform_socket.log) (bytes_of m.buffer))
        s

  -- Queue the message and tell listeners and waiting threads.
  unfoldable pub enqueue : M → Connection M → Connection M
  unfolding tell_all
  enqueue message s =
      let t =
        tell_all Event.message_received
          (record s { receive_queue = s.receive_queue ++ message ∷ [] }) in
      record t { platform_socket = happens Event.notify_all t.platform_socket }

  module _ (os : Os) (pb : Protobuf M) where
    -- `createMessage` gives no null pointer where `hasType` holds. The `uint32_t` size becomes an
    -- `int` in `ArrayInputStream`.
    unfoldable pub handle_message : WireMessage → Connection M → Connection M
    unfolding to_int32
    handle_message m s =
        if not (has_type os pb m.type s.message_types)
        then error ErrorCode.unknown_message_type_error (text "Unknown message type") s
        else elim (create_message os pb m.type s.message_types) [
          | none ↦ s
          | some message ↦
              elim (pb.parse message (take m.size (bytes_of m.buffer)) (to_int32 (pos m.size))
                message_size_maximum) [
                  | none ↦ parse_failure os m s
                  | some parsed ↦ enqueue parsed s
                ]
        ]

    unfoldable pub dispatch : WireMessage → Connection M → Flow M
    dispatch m s =
        if in_state m.state MessageState.dispatch
        then stop (reset_message (handle_message m s))
        else keep m s

    -- The parts follow one another in one call, as far as the data goes.
    unfoldable pub receive_next_message : Connection M → Connection M
    receive_next_message s = outcome (
        and_then (receive_header os (message_at_hand s.current_message) s) λ m s.
          and_then (receive_size os m s)
            λ m s. and_then (receive_type os m s) λ m s. and_then (receive_data os m s) dispatch)
