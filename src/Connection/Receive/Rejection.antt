-- ===== src/Connection/Receive/Rejection.antt =====
-- What is not a message of this version of the protocol.
use lib_arcus.Prelude.{
  ℕ, ◌/◌, ◌%◌, ◌^◌, ◌<◌, ◌≡◌, ◌≢◌, refl, ◌∙◌, ◌++◌, false, ◌==◌, none, Bool-cases, inl, inr,
  eq_of_beq, arith, Bytes, text,
}
use lib_arcus.Types.{ErrorCode}
use lib_arcus.ByteOrder.{htonl, length-htonl}
use lib_arcus.Environment.{Os, Log, Protobuf}
use lib_arcus.Link.{Delivers}
use lib_arcus.WireMessage.{new_wire_message, WireMessage}
use lib_arcus.PlatformSocket.Io.{flush-eq}
use lib_arcus.Connection.{
  Connection, socket_close, arcus_signature, version_major, version_minor, error,
}
use lib_arcus.Connection.Send.{wire_header}
use lib_arcus.Connection.Receive.{receive_next_message, receive_header, check_header, reject}
use lib_arcus.Connection.Receive.Queue.{pending-tell}
use lib_arcus.Connection.Receive.Delivery.{
  log_of, IsIdle, after_recv, read_u32-word, pending-after_recv,
}

-- A word with the signature and both version numbers is the header that `sendMessage` writes.
header-eq :
    (w : ℕ)
    → w < 2 ^ 32
    → w / 2 ^ 16 % 2 ^ 16 ≡ arcus_signature
    → w / 2 ^ 8 % 2 ^ 8 ≡ version_major
    → w % 2 ^ 8 ≡ version_minor
    → w ≡ wire_header
header-eq w h a b c = omega arith

ne_false : (a b : ℕ) → a ≢ b → (a == b) ≡ false
ne_false a b h = ground arith

module _ {M : Type 0} (os : Os) where
  check_header-reject :
      (w : ℕ) (m : WireMessage) (s : Connection M)
      → w < 2 ^ 32
      → w ≢ 0
      → w ≢ socket_close
      → w ≢ wire_header
      → (message : Bytes) × (check_header os w m s ≡ reject os message s)
  unfolding check_header
  check_header-reject w m s h zero_word close_word header_word =
      let a = ne_false w 0 zero_word in
      let b = ne_false w socket_close close_word in
      elim (Bool-cases (w / 2 ^ 16 % 2 ^ 16 == arcus_signature)) [
        | inr other ↦ (text "Header mismatch", rw (a, b, other) refl)
        | inl signed ↦ elim (Bool-cases (w / 2 ^ 8 % 2 ^ 8 == version_major)) [
          | inr other ↦ (text "Protocol version mismatch", rw (a, b, signed, other) refl)
          | inl major ↦ elim (Bool-cases (w % 2 ^ 8 == version_minor)) [
            | inr other ↦ (text "Protocol version mismatch", rw (a, b, signed, major, other) refl)
            | inl minor ↦ absurd (
                header_word (
                  header-eq w h (eq_of_beq _ _ signed) (eq_of_beq _ _ major) (eq_of_beq _ _ minor)))
          ]
        ]
      ]

module _ {M : Type 0} (os : Os) (pb : Protobuf M) (pending : Log → Bytes)
    (delivers : Delivers os pending) where
  rejected : Bytes → Connection M → Connection M
  rejected message s = record (error ErrorCode.receive_failed_error message s) {
    current_message = none;
  }

  receive-reject :
      (w : ℕ) (s : Connection M) (rest message : Bytes)
      → w < 2 ^ 32
      → IsIdle s
      → pending (log_of s) ≡ htonl w ++ rest
      → check_header os w new_wire_message (after_recv 4 s) ≡ reject os message (after_recv 4 s)
      → receive_next_message os pb s ≡ rejected message (after_recv 4 s)
  unfolding receive_next_message receive_header reject rejected new_wire_message
  receive-reject w s rest message h idle e rejects =
      rw (idle, read_u32-word os pending delivers w 0 s rest h e, rejects, flush-eq) refl

  pending-rejected :
      (message : Bytes) (s : Connection M)
      → pending (log_of (rejected message s)) ≡ pending (log_of s)
  unfolding rejected error
  pending-rejected message s = pending-tell delivers _ s.listeners s.platform_socket (λ l. refl)

  code-rejected :
      (message : Bytes) (s : Connection M)
      → (rejected message s).last_error.error_code ≡ ErrorCode.receive_failed_error
  unfolding rejected error
  code-rejected message s = refl

  -- A word between messages that is neither 0, SOCKET_CLOSE nor the header of this version is
  -- reported as ReceiveFailedError and forgotten; the connection goes on, and what follows the word
  -- is left to be read as the next header.
  pub receive-other_word :
      (w : ℕ) (s : Connection M) (rest : Bytes)
      → w < 2 ^ 32
      → w ≢ 0
      → w ≢ socket_close
      → w ≢ wire_header
      → IsIdle s
      → pending (log_of s) ≡ htonl w ++ rest
      → let t = receive_next_message os pb s in
        (t.last_error.error_code ≡ ErrorCode.receive_failed_error)
        × (t.next_state ≡ s.next_state)
        × (t.receive_queue ≡ s.receive_queue)
        × (t.current_message ≡ none)
        × (pending (log_of t) ≡ rest)
  unfolding rejected error
  receive-other_word w s rest h zero_word close_word header_word idle e =
      let (message, rejects) =
        check_header-reject os w new_wire_message (after_recv 4 s) h zero_word close_word
          header_word in
      let left =
        pending-rejected message (after_recv 4 s)
        ∙ (rw length-htonl at (pending-after_recv os pending delivers s (htonl w) rest e)) in
      rw (receive-reject w s rest message h idle e rejects)
        (code-rejected message (after_recv 4 s), refl, refl, refl, left)
