-- ===== src/Types.antt =====
-- The enumerations of src/Types.h and src/Error.h.
use lib_arcus.Prelude.{ℕ, Bool, true, false}

-- Types.h: enum SocketState.
pub data SocketState : Type 0 where
  initial connecting connected opening listening closing closed error : SocketState

-- The enumerators as the compiler numbers them.
abbrev pub state_number : SocketState → ℕ
state_number SocketState.initial = 0
state_number SocketState.connecting = 1
state_number SocketState.connected = 2
state_number SocketState.opening = 3
state_number SocketState.listening = 4
state_number SocketState.closing = 5
state_number SocketState.closed = 6
state_number SocketState.error = 7

-- `a == b` on states.
abbrev pub same_state : SocketState → SocketState → Bool
same_state SocketState.initial SocketState.initial = true
same_state SocketState.connecting SocketState.connecting = true
same_state SocketState.connected SocketState.connected = true
same_state SocketState.opening SocketState.opening = true
same_state SocketState.listening SocketState.listening = true
same_state SocketState.closing SocketState.closing = true
same_state SocketState.closed SocketState.closed = true
same_state SocketState.error SocketState.error = true
same_state _ _ = false

-- Error.h: enum ErrorCode.
pub data ErrorCode : Type 0 where
  unknown_error creation_error connect_failed_error bind_failed_error accept_failed_error
        send_failed_error receive_failed_error unknown_message_type_error parse_failed_error
        connection_reset_error message_registration_failed_error invalid_state_error
        invalid_message_error debug :
      ErrorCode

-- `static_cast<int>(code)`.
abbrev pub error_number : ErrorCode → ℕ
error_number ErrorCode.unknown_error = 0
error_number ErrorCode.creation_error = 1
error_number ErrorCode.connect_failed_error = 2
error_number ErrorCode.bind_failed_error = 3
error_number ErrorCode.accept_failed_error = 4
error_number ErrorCode.send_failed_error = 5
error_number ErrorCode.receive_failed_error = 6
error_number ErrorCode.unknown_message_type_error = 7
error_number ErrorCode.parse_failed_error = 8
error_number ErrorCode.connection_reset_error = 9
error_number ErrorCode.message_registration_failed_error = 10
error_number ErrorCode.invalid_state_error = 11
error_number ErrorCode.invalid_message_error = 12
error_number ErrorCode.debug = 13
