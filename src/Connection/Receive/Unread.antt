-- ===== src/Connection/Receive/Unread.antt =====
-- Reads of a header that bring no word.
use lib_arcus.Prelude.{ℕ, ◌≡◌, refl, Bool, false, some, length, ◌==◌, arith, ℤ}
use lib_arcus.Environment.{Os, Received, got, recv_failed, Protobuf, IsPosix}
use lib_arcus.WireMessage.{new_wire_message}
use lib_arcus.PlatformSocket.{PlatformSocket}
use lib_arcus.PlatformSocket
use lib_arcus.PlatformSocket.Io.{ReadsWord, read_u32-ReadsWord}
use lib_arcus.Connection.{Connection, read_u32}
use lib_arcus.Connection.Receive.{receive_next_message, receive_header, check_header}
use lib_arcus.Connection.Receive.Delivery.{log_of, IsIdle}

-- Whether a read of four bytes brought all of them.
abbrev pub is_word : Received → Bool
is_word (got bs) = length bs == 4
is_word (recv_failed e) = false

no_word-output :
    (os : Os) (p : PlatformSocket) (output : ℕ) (r : Received) (v : ℤ × ℕ × PlatformSocket)
    → is_word r ≡ false
    → PlatformSocket.Io.ReadsWord os p output r v
    → v.1 ≡ output
no_word-output os p output _ _ h (ReadsWord.word bs four) = absurd (ground arith)
no_word-output os p output _ _ h (ReadsWord.timeout e same) = refl
no_word-output os p output _ _ h (ReadsWord.short bs other) = refl
no_word-output os p output _ _ h (ReadsWord.failure e other) = refl

module _ {M : Type 0} (os : Os) (posix : IsPosix os) (pb : Protobuf M) where
  -- Between messages, a read that brings no whole word is not noticed, whether nothing came in time,
  -- the other side has ended its stream, or the read failed: neither next state, error nor queue
  -- changes, no error is reported, and the next call starts with a header again.
  pub receive-no_word :
      (s : Connection M)
      → IsIdle s
      → is_word (os.receive (log_of s) s.platform_socket.socket_id 4) ≡ false
      → receive_next_message os pb s ≡ record s {
        platform_socket = (PlatformSocket.read_u32 os 0 s.platform_socket).2;
        current_message = some new_wire_message;
      }
  unfolding receive_next_message receive_header check_header new_wire_message read_u32
  receive-no_word s idle none_came =
      let zero_read : (PlatformSocket.read_u32 os 0 s.platform_socket).1 ≡ 0 =
        no_word-output os s.platform_socket 0 _ _ none_came
          (read_u32-ReadsWord os s.platform_socket posix 0) in
      rw (idle, zero_read) refl
