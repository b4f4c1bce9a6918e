-- ===== src/Session/Goodbye.antt =====
-- A connection that one side closes, from both sides.
use lib_arcus.Prelude.{
  ℕ, zero, suc, ◌≡◌, refl, sym, ap, ◌∙◌, ◌++◌, true, false, some, List, [], Bytes, length,
  append-nil, drop, drop-length-append,
}
use lib_arcus.Types.{SocketState}
use lib_arcus.ByteOrder.{htonl}
use lib_arcus.Environment.{Os, Log, Protobuf}
use lib_arcus.Link.{frames, sent, SendsAll}
use lib_arcus.Connection.{Connection, socket_close}
use lib_arcus.Connection.Worker.{perform_closing}
use lib_arcus.Connection.Worker.Farewell.{sent-perform_closing, last_words}
use lib_arcus.Connection.Receive.{receive_next_message}
use lib_arcus.Connection.Receive.Delivery.{log_of, IsIdle}
use lib_arcus.Connection.Receive.Control.{receive-socket_close}
use lib_arcus.Connection.Receive.Queue.{Stream}
use lib_arcus.Session.{receive_times, Agrees, receive-frames, frames-eq}

receive_times-suc :
    {M : Type 0} (os : Os) (pb : Protobuf M) (n : ℕ) (s : Connection M)
    → receive_times os pb (suc n) s ≡ receive_next_message os pb (receive_times os pb n s)
unfolding receive_times
receive_times-suc os pb zero s = refl
receive_times-suc os pb (suc n) s = receive_times-suc os pb n (receive_next_message os pb s)

last_words-ours :
    {M : Type 0} (os : Os) (pb : Protobuf M) (s : Connection M)
    → s.received_close ≡ false
    → last_words os pb s ≡ frames os pb s.send_queue
last_words-ours os pb s ours = rw ours

-- A side that closes by itself, every `send` of which takes all its bytes, loses none of the messages
-- that are queued when its case of Closing begins: once the other side, to which is pending just
-- what the case has sent, has been called once for each of them and once more, its receive queue
-- holds them in their order, its next state is Closing, it knows that it was asked to close, and it
-- has read the whole stream.
pub perform_closing-receive :
    {M : Type 0} (os os' : Os) (pb : Protobuf M) {pending : Log → Bytes}
    → SendsAll os
    → Stream os' pending
    → (fuel : ℕ) (s t r : Connection M) (ms : List M) → s.received_close ≡ false
    → perform_closing os pb fuel s ≡ some t
    → Agrees os' pb r.message_types s.send_queue ms
    → IsIdle r
    → sent (log_of t) ≡ sent (log_of s) ++ pending (log_of r)
    → let u = receive_times os' pb (suc (length s.send_queue)) r in
      (u.receive_queue ≡ r.receive_queue ++ ms)
      × (u.next_state ≡ SocketState.closing)
      × (u.received_close ≡ true)
      × (pending (log_of u) ≡ [])
perform_closing-receive os os' pb {pending} sends stream fuel s t r ms ours ended agree idle
      arrived =
    let n = length (sent (log_of s)) in
    let (bytes, _) = sent-perform_closing os sends pb fuel s t ended in
    let same : last_words os pb s ++ htonl socket_close ≡ pending (log_of r) =
      sym (drop-length-append n _ _ refl)
      ∙ ap (drop n) (sym bytes ∙ arrived)
      ∙ drop-length-append n _ _ refl in
    let words : last_words os pb s ≡ frames os' pb s.send_queue =
      last_words-ours os pb s ours ∙ frames-eq os os' pb r.message_types s.send_queue ms agree in
    let whole =
      sym same
      ∙ ap (◌++◌ _) (sym (append-nil (htonl socket_close)))
      ∙ ap (λ bs. bs ++ (htonl socket_close ++ [])) words in
    let (queue, left, idle', _, _) =
      receive-frames os' pb stream s.send_queue ms r (htonl socket_close ++ []) agree idle whole in
    let (asked, empty) =
      receive-socket_close os' pb pending stream.delivers
        (receive_times os' pb (length s.send_queue) r) idle' [] left in
    rw (receive_times-suc os' pb (length s.send_queue) r, asked) (queue, refl, refl, empty)
