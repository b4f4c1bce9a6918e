-- ===== src/Connection/Receive/Deaf.antt =====
-- Calls of src/Socket_p.h that do not receive, as to what is read.
use lib_arcus.Prelude.{◌≡◌, refl, ◌∙◌, Bytes, append-nil, ℕ}
use lib_arcus.Types.{ErrorCode}
use lib_arcus.Environment.{Os, Call, Outcome, done, failed}
use lib_arcus.PlatformSocket.{PlatformSocket, syscall}
use lib_arcus.PlatformSocket
use lib_arcus.Connection.{Connection, error, fatal_error, write_u32}
use lib_arcus.Connection.Receive.Arrivals.{arrived, arrived-tell}
use lib_arcus.Connection.Receive.Delivery.{log_of}

-- From the one connection to the other nothing was read, and the message under way, the receive queue
-- and the message types are the same.
abbrev pub Deaf : {M : Type 0} → Os → Connection M → Connection M → Type 0
Deaf os s t =
    (arrived os (log_of t) ≡ arrived os (log_of s))
    × (t.current_message ≡ s.current_message)
    × (t.receive_queue ≡ s.receive_queue)
    × (t.message_types ≡ s.message_types)

log-answered : (p : PlatformSocket) (o : Outcome) → (PlatformSocket.answered p o).1.log ≡ p.log
unfolding PlatformSocket.answered
log-answered p (done n) = refl
log-answered p (failed e) = refl

pub arrived-syscall :
    (os : Os) (c : Call) (p : PlatformSocket) → arrived os (syscall os c p).1.log ≡ arrived os p.log
unfolding syscall
arrived-syscall os c p = rw log-answered (append-nil _)

module _ {M : Type 0} (os : Os) where
  pub Deaf-trans : (s t u : Connection M) → Deaf os s t → Deaf os t u → Deaf os s u
  Deaf-trans s t u a b = (b.0 ∙ a.0, b.1 ∙ a.1, b.2 ∙ a.2, b.3 ∙ a.3)

  pub error-Deaf :
      (code : ErrorCode) (message : Bytes) (s : Connection M) → Deaf os s (error code message s)
  unfolding error
  error-Deaf code message s =
      (arrived-tell os _ s.listeners s.platform_socket (λ l h. refl), refl, refl, refl)

  pub fatal_error-Deaf :
      (code : ErrorCode) (message : Bytes) (s : Connection M)
      → Deaf os s (fatal_error os code message s)
  unfolding fatal_error PlatformSocket.close
  fatal_error-Deaf code message s = (
    arrived-tell os _ s.listeners _ (λ l h. refl)
        ∙ arrived-syscall os (Call.close s.platform_socket.socket_id) s.platform_socket,
    refl,
    refl,
    refl,
  )

  pub write_u32-Deaf : (w : ℕ) (s : Connection M) → Deaf os s (write_u32 os w s).1
  unfolding write_u32
  write_u32-Deaf w s = (arrived-syscall os _ s.platform_socket, refl, refl, refl)
