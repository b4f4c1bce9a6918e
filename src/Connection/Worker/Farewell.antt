-- ===== src/Connection/Worker/Farewell.antt =====
-- What is sent last on a connection.
use lib_arcus.Prelude.{
  ℕ, zero, suc, ◌≡◌, refl, ap, ◌∙◌, ◌++◌, inl, inr, some, List, [], ◌∷◌, Bytes, arith, Bool-cases,
  Option-cases, append-nil, append_assoc, if◌then◌else◌,
}
use lib_arcus.Types.{ErrorCode}
use lib_arcus.ByteOrder.{htonl}
use lib_arcus.Environment.{Os, Event, Call, Outcome, done, failed, ShutdownDirection, Protobuf}
use lib_arcus.PlatformSocket.{PlatformSocket}
use lib_arcus.PlatformSocket
use lib_arcus.Link.{SendsAll, sent, sent_by, frames}
use lib_arcus.Connection.{Connection, read_u32, write_u32, socket_close, tell, error}
use lib_arcus.Connection.Send.Wire.{sent-send_messages}
use lib_arcus.Connection.Receive.Delivery.{log_of}
use lib_arcus.Connection.Worker.{
  await_close, confirm_close, finish_closing, perform_closing, request_close, flush_send_queue,
}

pub sent-tell :
    (callback : ℕ → Event) (ls : List ℕ) (p : PlatformSocket)
    → ((l : ℕ) → sent_by (callback l) ≡ [])
    → sent (tell callback ls p).log ≡ sent p.log
unfolding tell
sent-tell callback [] p h = refl
sent-tell callback (l ∷ ls) p h =
    sent-tell callback ls (PlatformSocket.happens (callback l) p) h
    ∙ ap (◌++◌ (sent p.log)) (h l)
    ∙ append-nil (sent p.log)

log-answered : (p : PlatformSocket) (o : Outcome) → (PlatformSocket.answered p o).1.log ≡ p.log
unfolding PlatformSocket.answered
log-answered p (done n) = refl
log-answered p (failed e) = refl

module _ (os : Os) (p : PlatformSocket) where
  pub sent-syscall :
      (c : Call) → sent (PlatformSocket.syscall os c p).1.log ≡ sent p.log ++ sent_by (Event.call c)
  unfolding PlatformSocket.syscall
  sent-syscall c = rw log-answered

  pub sent-close : sent (PlatformSocket.close os p).1.log ≡ sent p.log
  unfolding PlatformSocket.close
  sent-close = sent-syscall (Call.close p.socket_id) ∙ append-nil (sent p.log)

  pub sent-shutdown :
      (d : ShutdownDirection) → sent (PlatformSocket.shutdown os d p).1.log ≡ sent p.log
  unfolding PlatformSocket.shutdown
  sent-shutdown d = sent-syscall (Call.shutdown p.socket_id d) ∙ append-nil (sent p.log)

pub sent-error :
    {M : Type 0} (code : ErrorCode) (message : Bytes) (s : Connection M)
    → sent (log_of (error code message s)) ≡ sent (log_of s)
unfolding error
sent-error code message s = sent-tell _ s.listeners s.platform_socket (λ l. refl)

module _ {M : Type 0} (os : Os) where
  pub sent-read_u32 :
      (word : ℕ) (s : Connection M) → sent (log_of (read_u32 os word s).2) ≡ sent (log_of s)
  unfolding read_u32
  sent-read_u32 word s = ground (arith, append-nil (sent (log_of s)))

  sent-await_close :
      (fuel word : ℕ) (s t : Connection M)
      → await_close os fuel word s ≡ some t
      → (sent (log_of t) ≡ sent (log_of s))
  unfolding await_close
  sent-await_close zero word s t e = cc
  sent-await_close (suc f) word s t e = ground (
    arith,
    sent-read_u32 word s,
    sent-await_close f (read_u32 os word s).1 (read_u32 os word s).2 t,
  )

  sent-write_u32 :
      (w : ℕ) (s : Connection M) → sent (log_of (write_u32 os w s).1) ≡ sent (log_of s) ++ htonl w
  unfolding write_u32
  sent-write_u32 w s =
      sent-syscall os s.platform_socket (Call.send s.platform_socket.socket_id (htonl w))

  pub sent-finish_closing :
      (s : Connection M) → sent (log_of (finish_closing os s)) ≡ sent (log_of s)
  unfolding finish_closing
  sent-finish_closing s = sent-close os _ ∙ sent-error _ _ s

  pub sent-confirm_close :
      (s : Connection M)
      → sent (log_of (confirm_close os s)) ≡ sent (log_of s) ++ htonl socket_close
  unfolding confirm_close
  sent-confirm_close s =
      sent-shutdown os _ _ ∙ sent-write_u32 socket_close (record s { send_queue = [] })

  pub sent-request_close :
      (s : Connection M)
      → sent (log_of (request_close os s)) ≡ sent (log_of s) ++ htonl socket_close
  unfolding request_close
  sent-request_close s = sent-shutdown os _ _ ∙ sent-error _ _ _ ∙ sent-write_u32 socket_close s

  queue-await_close :
      (fuel word : ℕ) (s t : Connection M)
      → await_close os fuel word s ≡ some t
      → t.send_queue ≡ s.send_queue
  unfolding await_close read_u32
  queue-await_close zero word s t e = cc
  queue-await_close (suc f) word s t e =
      ground (arith, queue-await_close f (read_u32 os word s).1 (read_u32 os word s).2 t)

  queue-finish_closing : (s : Connection M) → (finish_closing os s).send_queue ≡ s.send_queue
  unfolding finish_closing error
  queue-finish_closing s = refl

  queue-confirm_close : (s : Connection M) → (confirm_close os s).send_queue ≡ []
  unfolding confirm_close write_u32
  queue-confirm_close s = refl

  queue-request_close : (s : Connection M) → (request_close os s).send_queue ≡ s.send_queue
  unfolding request_close error write_u32
  queue-request_close s = refl

  pub flushed :
      SendsAll os
      → (pb : Protobuf M) (s : Connection M)
      → (sent (log_of (flush_send_queue os pb s)) ≡ sent (log_of s) ++ frames os pb s.send_queue)
        × ((flush_send_queue os pb s).send_queue ≡ [])
  unfolding flush_send_queue
  flushed sends pb s =
      let (bytes, keeps) =
        sent-send_messages os pb sends s.send_queue (record s { send_queue = [] }) in
      (bytes, ap (λ t. t.send_queue) keeps)

  -- What is still sent of the queue.
  abbrev pub last_words : Protobuf M → Connection M → Bytes
  last_words pb s = if s.received_close then [] else frames os pb s.send_queue

  -- A case of Closing that ends leaves the send queue empty and has sent SOCKET_CLOSE last. Before it
  -- the frames of the messages that were queued are sent, where this side asked to close; where the
  -- other side had asked, none of them is. Every `send` is taken to accept all its bytes.
  pub sent-perform_closing :
      SendsAll os
      → (pb : Protobuf M) (fuel : ℕ) (s t : Connection M) → perform_closing os pb fuel s ≡ some t
      → (sent (log_of t) ≡ sent (log_of s) ++ (last_words pb s ++ htonl socket_close))
        × (t.send_queue ≡ [])
  unfolding perform_closing
  sent-perform_closing sends pb fuel s t e = elim (Bool-cases s.received_close) [
    | inl theirs ↦
        let same : t ≡ finish_closing os (confirm_close os s) = ground arith in
        simp (same, theirs)
          (
            sent-finish_closing _ ∙ sent-confirm_close s,
            queue-finish_closing _ ∙ queue-confirm_close s,
          )
    | inr ours ↦
        let u = flush_send_queue os pb s in
        let r = request_close os u in
        elim (Option-cases (await_close os fuel 0 r)) [
          | inl out ↦ ground arith
          | inr (v, ended) ↦
              let same : t ≡ finish_closing os v = ground arith in
              simp (same, ours)
                (
                  sent-finish_closing v
                      ∙ sent-await_close fuel 0 r v ended
                      ∙ sent-request_close u
                      ∙ ap (λ bs. bs ++ htonl socket_close) (flushed sends pb s).0
                      ∙ append_assoc (sent (log_of s)) (frames os pb s.send_queue)
                          (htonl socket_close),
                  queue-finish_closing v
                      ∙ queue-await_close fuel 0 r v ended
                      ∙ queue-request_close u
                      ∙ (flushed sends pb s).1,
                )
        ]
  ]
