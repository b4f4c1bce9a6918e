-- ===== src/Connection/Send/Deaf.antt =====
-- sendMessage and checkConnectionState of src/Socket_p.h, as to what is read.
use lib_arcus.Prelude.{refl, Bytes, append-nil, arith, text, ◌%◌, ◌^◌}
use lib_arcus.Types.{ErrorCode}
use lib_arcus.Environment.{Os, Event, Protobuf}
use lib_arcus.MessageTypeStore.{get_message_type_id}
use lib_arcus.PlatformSocket
use lib_arcus.Connection.{Connection, error, write_u32}
use lib_arcus.Connection.Send.{
  send_message, send_size, send_type, send_data, wire_header, check_connection_state,
}
use lib_arcus.Connection.Receive.Deaf.{
  Deaf, Deaf-trans, error-Deaf, write_u32-Deaf, arrived-syscall,
}

module _ {M : Type 0} (os : Os) (pb : Protobuf M) where
  -- A write, and an error where it fails.
  fails-Deaf :
      (message : Bytes) (s t : Connection M)
      → Deaf os s t
      → Deaf os s (error ErrorCode.send_failed_error message t)
  fails-Deaf message s t d =
      Deaf-trans os s t (error ErrorCode.send_failed_error message t) d
        (error-Deaf os ErrorCode.send_failed_error message t)

  send_data-Deaf : (m : M) (s : Connection M) → Deaf os s (send_data os pb m s)
  unfolding send_data PlatformSocket.write_bytes
  send_data-Deaf m s =
      let (result, p) = PlatformSocket.write_bytes os (pb.serialize m) s.platform_socket in
      let t = record s { platform_socket = p } in
      let d : Deaf os s t = (arrived-syscall os _ s.platform_socket, refl, refl, refl) in
      ground (arith, d, fails-Deaf (text "Could not send message data") s t d)

  send_type-Deaf : (m : M) (s : Connection M) → Deaf os s (send_type os pb m s)
  unfolding send_type
  send_type-Deaf m s =
      let t = (write_u32 os (get_message_type_id os pb m) s).1 in
      let d = write_u32-Deaf os (get_message_type_id os pb m) s in
      ground (
        arith,
        fails-Deaf (text "Could not send message type") s t d,
        Deaf-trans os s t (send_data os pb m t) d (send_data-Deaf m t),
      )

  send_size-Deaf : (m : M) (s : Connection M) → Deaf os s (send_size os pb m s)
  unfolding send_size
  send_size-Deaf m s =
      let n = pb.byte_size m % 2 ^ 32 in
      let t = (write_u32 os n s).1 in
      let d = write_u32-Deaf os n s in
      ground (
        arith,
        fails-Deaf (text "Could not send message size") s t d,
        Deaf-trans os s t (send_type os pb m t) d (send_type-Deaf m t),
      )

  pub send_message-Deaf : (m : M) (s : Connection M) → Deaf os s (send_message os pb m s)
  unfolding send_message
  send_message-Deaf m s =
      let t = (write_u32 os wire_header s).1 in
      let d = write_u32-Deaf os wire_header s in
      ground (
        arith,
        fails-Deaf (text "Could not send message header") s t d,
        Deaf-trans os s t (send_size os pb m t) d (send_size-Deaf m t),
      )

module _ {M : Type 0} (os : Os) where
  pub check_connection_state-Deaf : (s : Connection M) → Deaf os s (check_connection_state os s)
  unfolding check_connection_state
  check_connection_state-Deaf s =
      let t = record s { platform_socket = PlatformSocket.happens Event.now s.platform_socket } in
      let d : Deaf os s t = (append-nil _, refl, refl, refl) in
      let u = (write_u32 os 0 t).1 in
      let e = Deaf-trans os s t u d (write_u32-Deaf os 0 t) in
      let f =
        Deaf-trans os s u
          (error ErrorCode.connection_reset_error (text "Connection reset by peer") u) e
          (error-Deaf os ErrorCode.connection_reset_error (text "Connection reset by peer") u) in
      ground (arith, d, e, f)
