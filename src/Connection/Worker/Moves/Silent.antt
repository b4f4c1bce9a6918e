-- ===== src/Connection/Worker/Moves/Silent.antt =====
-- The moves that send nothing.
use lib_arcus.Prelude.{ℕ, ◌≡◌, refl, ap, ◌∙◌, inr, ◌++◌, [], Bytes, append-nil, arith, text}
use lib_arcus.Types.{ErrorCode}
use lib_arcus.Environment.{Os, Call, Event, Protobuf}
use lib_arcus.PlatformSocket.{PlatformSocket, syscall}
use lib_arcus.PlatformSocket
use lib_arcus.Link.{sent, sent_by}
use lib_arcus.Connection.{Connection, fatal_error, error, tell_all}
use lib_arcus.Connection.Receive.Quiet.{Quiet, Quiet-trans, fatal_error-Quiet, read_u32-Quiet}
use lib_arcus.Connection.Worker.{finish_closing, commit, on_platform, receive_timeout}
use lib_arcus.Connection.Worker.Farewell.{sent-tell, sent-syscall, sent-finish_closing}
use lib_arcus.Connection.Worker.Moves.{Pc, creates, connects, binds, accepts, sets_timeout, waits}

module _ {M : Type 0} (os : Os) (pb : Protobuf M) where
  pub syscall-Quiet :
      (c : Call) (s : Connection M)
      → sent_by (Event.call c) ≡ []
      → Quiet s (record s { platform_socket = (syscall os c s.platform_socket).1 })
  syscall-Quiet c s silent =
      (sent-syscall os s.platform_socket c ∙ ap (◌++◌ _) silent ∙ append-nil _, refl, inr refl)

  fails-Quiet :
      (code : ErrorCode) (why : Bytes) (s t : Connection M)
      → Quiet s t
      → Quiet s (fatal_error os code why t)
  fails-Quiet code why s t q =
      Quiet-trans s t (fatal_error os code why t) q (fatal_error-Quiet os code why t)

  pub creates-Quiet : (p : Pc) (s : Connection M) → Quiet s (creates os pb p s).1
  unfolding creates PlatformSocket.create
  creates-Quiet p s =
      let t = (on_platform (PlatformSocket.create os) s).1 in
      let q : Quiet s t =
        (sent-syscall os s.platform_socket Call.socket ∙ append-nil _, refl, inr refl) in
      ground
        (arith, q, fails-Quiet ErrorCode.creation_error (text "Could not create a socket") s t q)

  pub connects-Quiet : (s : Connection M) → Quiet s (connects os pb s).1
  unfolding connects PlatformSocket.connect
  connects-Quiet s =
      let t = (on_platform (PlatformSocket.connect os s.address s.port) s).1 in
      let q : Quiet s t = syscall-Quiet _ s refl in
      let failed =
        fails-Quiet ErrorCode.connect_failed_error (text "Could not connect to the given address") s
          t q in
      ground (arith, q, failed)

  pub binds-Quiet : (s : Connection M) → Quiet s (binds os pb s).1
  unfolding binds PlatformSocket.bind
  binds-Quiet s =
      let t = (on_platform (PlatformSocket.bind os s.address s.port) s).1 in
      let q : Quiet s t = syscall-Quiet _ s refl in
      let failed =
        fails-Quiet ErrorCode.bind_failed_error
          (text "Could not bind to the given address and port") s t q in
      ground (arith, q, failed)

  pub sets_timeout-Quiet :
      (code : ErrorCode) (why : Bytes) (s : Connection M)
      → Quiet s (sets_timeout os pb code why s).1
  unfolding sets_timeout PlatformSocket.set_receive_timeout
  sets_timeout-Quiet code why s =
      let t = (on_platform (PlatformSocket.set_receive_timeout os receive_timeout) s).1 in
      let q : Quiet s t = syscall-Quiet _ s refl in ground (arith, q, fails-Quiet code why s t q)

  sent-accept : (p : PlatformSocket) → sent (PlatformSocket.accept os p).1.log ≡ sent p.log
  unfolding PlatformSocket.accept
  sent-accept p =
      let q = (syscall os (Call.accept p.socket_id) p).1 in
      ground (
        arith,
        sent-syscall os p (Call.accept p.socket_id),
        sent-syscall os q (Call.close q.socket_id),
        append-nil (sent p.log),
      )

  pub accepts-Quiet : (s : Connection M) → Quiet s (accepts os pb s).1
  unfolding accepts
  accepts-Quiet s =
      let t = (on_platform (PlatformSocket.accept os) s).1 in
      let q : Quiet s t = (sent-accept s.platform_socket, refl, inr refl) in
      let failed =
        fails-Quiet ErrorCode.accept_failed_error (text "Could not accept the incoming connection")
          s t q in
      ground (arith, q, failed)

  pub waits-Quiet : (word : ℕ) (s : Connection M) → Quiet s (waits os pb word s).1
  unfolding waits
  waits-Quiet word s = ground (arith, read_u32-Quiet os word s)

  pub commit-Quiet : (s : Connection M) → Quiet s (commit os s)
  unfolding commit tell_all
  commit-Quiet s =
      let told =
        sent-tell (λ l. Event.state_changed l s.next_state) s.listeners s.platform_socket
          (λ l. refl) in
      ground (arith, told)

  pub finish_closing-Quiet : (s : Connection M) → Quiet s (finish_closing os s)
  unfolding finish_closing error
  finish_closing-Quiet s = (sent-finish_closing os s, refl, inr refl)
