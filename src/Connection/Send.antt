-- ===== src/Connection/Send.antt =====
-- `sendMessage` and `checkConnectionState` of src/Socket_p.h.
pub mod Deaf
pub mod KeepAlive
pub mod Wire
use Prim.Native.Nat.{bit_or}
use lib_arcus.Prelude.{ℕ, ◌-◌, ◌*◌, ◌/◌, ◌%◌, ◌^◌, text, ltb, if◌then◌else◌, is_minus_one}
use lib_arcus.Types.{SocketState, ErrorCode}
use lib_arcus.Environment.{Os, Event, Protobuf}
use lib_arcus.PlatformSocket.{happens}
use lib_arcus.PlatformSocket
use lib_arcus.MessageTypeStore.{get_message_type_id}
use lib_arcus.Connection.{
  Connection, error, write_u32, version_major, version_minor, arcus_signature,
}

-- `(ARCUS_SIGNATURE << 16) | (VERSION_MAJOR << 8) | (VERSION_MINOR)`.
abbrev pub wire_header : ℕ
wire_header = bit_or (bit_or (arcus_signature * 2 ^ 16) (version_major * 2 ^ 8)) version_minor

module _ {M : Type 0} (os : Os) (pb : Protobuf M) where
  unfoldable pub send_data : M → Connection M → Connection M
  unfolding PlatformSocket.write_bytes error
  send_data message s =
      let (result, p) = PlatformSocket.write_bytes os (pb.serialize message) s.platform_socket in
      let s' = record s { platform_socket = p } in
      if is_minus_one result
      then error ErrorCode.send_failed_error (text "Could not send message data") s'
      else s'

  unfoldable pub send_type : M → Connection M → Connection M
  unfolding send_data write_u32
  send_type message s =
      let (result, s') = write_u32 os (get_message_type_id os pb message) s in
      if is_minus_one result
      then error ErrorCode.send_failed_error (text "Could not send message type") s'
      else send_data message s'

  unfoldable pub send_size : M → Connection M → Connection M
  unfolding send_type
  send_size message s =
      let (result, s') = write_u32 os (pb.byte_size message % 2 ^ 32) s in
      if is_minus_one result
      then error ErrorCode.send_failed_error (text "Could not send message size") s'
      else send_type message s'

  -- Each word is written only if the one before it was.
  unfoldable pub send_message : M → Connection M → Connection M
  unfolding send_size
  send_message message s =
      let (result, s') = write_u32 os wire_header s in
      if is_minus_one result
      then error ErrorCode.send_failed_error (text "Could not send message header") s'
      else send_size message s'

-- The clock counts nanoseconds, `keep_alive_rate` milliseconds. A clock that was set back gives a
-- difference that is not positive, here 0.
abbrev pub keep_alive_rate : ℕ
keep_alive_rate = 500

unfoldable pub check_connection_state : {M : Type 0} → Os → Connection M → Connection M
unfolding write_u32 error
check_connection_state os s =
    let now = os.clock s.platform_socket.log in
    let s' = record s { platform_socket = happens Event.now s.platform_socket } in
    if ltb keep_alive_rate ((now - s.last_keep_alive_sent) / 1000000)
    then (let (result, t) = write_u32 os 0 s' in
        if is_minus_one result
        then record (error ErrorCode.connection_reset_error (text "Connection reset by peer") t) {
          next_state = SocketState.closing;
          last_keep_alive_sent = now;
        }
        else record t { last_keep_alive_sent = now })
    else s'
