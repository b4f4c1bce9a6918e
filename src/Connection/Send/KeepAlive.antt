-- ===== src/Connection/Send/KeepAlive.antt =====
-- Keep-alives: when they are sent, what a failure leads to, and what the receiver makes of them.
use lib_arcus.Prelude.{
  ℕ, ◌+◌, ◌-◌, ◌*◌, ◌/◌, ◌<◌, ◌≤◌, ◌≡◌, refl, true, ◌∷◌, arith, ltb, Bool-cases, inl, inr,
}
use lib_arcus.Types.{SocketState, ErrorCode}
use lib_arcus.ByteOrder.{htonl}
use lib_arcus.Environment.{Os, Event, Call, Outcome, done, failed}
use lib_arcus.PlatformSocket.{PlatformSocket, answered, syscall}
use lib_arcus.PlatformSocket
use lib_arcus.Connection.{Connection, error, write_u32, tell_all, with_log}
use lib_arcus.Connection.Send.{check_connection_state, keep_alive_rate}
use lib_arcus.Connection.Receive.Delivery.{log_of}

module _ {M : Type 0} (os : Os) (s : Connection M) where
  -- The clock when the method looks at it.
  abbrev pub time : ℕ
  time = os.clock (log_of s)

  -- More than 500 whole milliseconds after the last keep-alive, by a clock in nanoseconds.
  abbrev pub due_time : ℕ
  due_time = s.last_keep_alive_sent + 501 * 1000000

  abbrev pub keep_alive : Call
  keep_alive = Call.send s.platform_socket.socket_id (htonl 0)

  -- What the system answers to the keep-alive, and what `checkConnectionState` leaves behind.
  pub data ChecksConnection : Outcome → Connection M → Type 0 where
    early : {o : Outcome} → time < due_time → ChecksConnection o (with_log (Event.now ∷ log_of s) s)
    alive :
        {n : ℕ}
        → due_time ≤ time
        → ChecksConnection
            (done n)
            (record (with_log (Event.call keep_alive ∷ Event.now ∷ log_of s) s) {
              last_keep_alive_sent = time;
            })
    lost :
        {errno : ℕ} {t : Connection M}
        → due_time ≤ time
        → t.next_state ≡ SocketState.closing
        → t.last_error.error_code ≡ ErrorCode.connection_reset_error
        → t.last_keep_alive_sent ≡ time
        → t.received_close ≡ s.received_close
        → t.send_queue ≡ s.send_queue
        → ChecksConnection (failed errno) t

  check_connection_state_of :
      (o : Outcome)
      → os.answer (Event.now ∷ log_of s) keep_alive ≡ o
      → due_time ≤ time
      → ChecksConnection o (check_connection_state os s)
  unfolding check_connection_state write_u32 error tell_all PlatformSocket.write_u32 syscall
      answered
  check_connection_state_of (done n) e due =
      let yes : ltb keep_alive_rate ((time - s.last_keep_alive_sent) / 1000000) ≡ true =
        ground arith in
      rw (yes, e) (alive due)
  check_connection_state_of (failed n) e due =
      let yes : ltb keep_alive_rate ((time - s.last_keep_alive_sent) / 1000000) ≡ true =
        ground arith in
      rw (yes, e) (lost due refl refl refl refl refl)

  -- `checkConnectionState` sends nothing until 501 milliseconds have passed since the last
  -- keep-alive; then it sends the word 0 and remembers the time. Where the system refuses the word,
  -- the error is ConnectionResetError and the next state Closing; else nothing more changes.
  pub check_connection_state-ChecksConnection :
      ChecksConnection (os.answer (Event.now ∷ log_of s) keep_alive) (check_connection_state os s)
  unfolding check_connection_state
  check_connection_state-ChecksConnection =
      elim (Bool-cases (ltb keep_alive_rate ((time - s.last_keep_alive_sent) / 1000000))) [
        | inl over ↦ check_connection_state_of _ refl (ground arith)
        | inr not_yet ↦ let before : time < due_time = ground arith in rw not_yet (early before)
      ]
