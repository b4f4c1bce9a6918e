-- ===== src/Session/Application.antt =====
-- From the application on one side to the application on the other.
use lib_arcus.Prelude.{
  ℕ, zero, suc, ◌≡◌, refl, ap, ◌∙◌, ◌++◌, Option, none, some, List, [], ◌∷◌, length, append_assoc,
  append-nil, Bytes,
}
use lib_arcus.Environment.{Os, Log, Protobuf}
use lib_arcus.Link.{sent, SendsAll}
use lib_arcus.Connection.{Connection}
use lib_arcus.Connection.Worker.{flush_send_queue}
use lib_arcus.Connection.Receive.Delivery.{log_of, IsIdle}
use lib_arcus.Connection.Receive.Queue.{Stream}
use lib_arcus.Socket.{Taken, taken, waiting, nothing, take_next_message}
use lib_arcus.Socket
use lib_arcus.Session.{receive_times, Agrees, send_messages-receive}

module _ {M : Type 0} where
  -- The application hands over several messages.
  unfoldable pub send_all : List M → Connection M → Connection M
  send_all [] s = s
  send_all (m ∷ ms) s = send_all ms (Socket.send_message (some m) s)

  -- The application takes `n` messages; `none` where a call has to wait.
  unfoldable pub take_times : ℕ → Connection M → Option (List M × Connection M)
  take_times zero s = some ([], s)
  take_times (suc n) s = elim (take_next_message s) [
    | taken m t ↦ elim (take_times n t) [ none ↦ none | some (ms, u) ↦ some (m ∷ ms, u) ]
    | waiting t ↦ none
    | nothing t ↦ none
  ]

  send_all-eq :
      (ms : List M) (s : Connection M)
      → send_all ms s ≡ record s { send_queue = s.send_queue ++ ms }
  unfolding send_all Socket.send_message
  send_all-eq [] s = rw append-nil refl
  send_all-eq (m ∷ ms) s =
      send_all-eq ms _
      ∙ ap (λ q. record s { send_queue = q }) (append_assoc s.send_queue (m ∷ []) ms)

  take_times-eq :
      (ms rest : List M) (s : Connection M)
      → s.receive_queue ≡ ms ++ rest
      → take_times (length ms) s ≡ some (ms, record s { receive_queue = rest })
  unfolding take_times take_next_message
  take_times-eq [] rest s e = rw (← e) refl
  take_times-eq (m ∷ ms) rest s e =
      rw (e, take_next_message)
        (rw (take_times-eq ms rest (record s { receive_queue = ms ++ rest }) refl) refl)

-- Messages that one application hands to its socket, whose queue was empty, come out of the other
-- socket, whose receive queue was empty, in their order: the first's worker sends its queue, every
-- `send` taking all its bytes, and pending at the second is just what was sent; the second's worker
-- makes one call for each message, and the application takes them without waiting.
pub send_all-take_times :
    {M : Type 0} (os os' : Os) (pb : Protobuf M) {pending : Log → Bytes}
    → SendsAll os
    → Stream os' pending
    → (ms ms' : List M) (s r : Connection M) → s.send_queue ≡ []
    → r.receive_queue ≡ []
    → Agrees os' pb r.message_types ms ms'
    → IsIdle r
    → sent (log_of (flush_send_queue os pb (send_all ms s))) ≡ sent (log_of s) ++ pending (log_of r)
    → (u : Connection M) × (take_times (length ms') (receive_times os' pb (length ms) r)
        ≡ some (ms', u))
      × (u.receive_queue ≡ [])
unfolding flush_send_queue
send_all-take_times os os' pb sends stream ms ms' s r unsent unread agree idle arrived =
    let t = record s { send_queue = [] } in
    let start : r.receive_queue ++ ms' ≡ ms' ++ [] = rw (unread, append-nil) refl in
    let queued : send_all ms s ≡ record s { send_queue = ms } =
      rw (send_all-eq ms s, unsent) refl in
    let (queue, _, _) =
      send_messages-receive os os' pb sends stream ms ms' t r agree idle (rw queued at arrived) in
    (_, take_times-eq ms' [] (receive_times os' pb (length ms) r) (queue ∙ start), refl)
