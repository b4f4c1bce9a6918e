-- ===== src/Connection/Worker/Moves/Writes.antt =====
-- What each move of the worker sends.
use lib_arcus.Prelude.{
  ◌≡◌, refl, sym, ap, ◌∙◌, ◌⊎◌, inl, inr, ◌++◌, true, Bool-cases, List, [], ◌∷◌, append-nil,
  append_assoc, arith, ltb, ◌-◌, ◌/◌,
}
use lib_arcus.Types.{SocketState, same_state}
use lib_arcus.ByteOrder.{htonl}
use lib_arcus.Environment.{Os, Call, Protobuf}
use lib_arcus.PlatformSocket.{PlatformSocket, syscall}
use lib_arcus.PlatformSocket
use lib_arcus.Link.{SendsAll, sent}
use lib_arcus.Connection.{Connection, error, write_u32}
use lib_arcus.Connection.Send.{check_connection_state, keep_alive_rate}
use lib_arcus.Connection.Send.Wire.{sent-send_messages}
use lib_arcus.Connection.Receive.Delivery.{log_of}
use lib_arcus.Connection.Receive.Quiet.{Quiet, receive_next_message-Quiet}
use lib_arcus.Connection.Worker.{is_over, request_close, confirm_close, flush_send_queue}
use lib_arcus.Connection.Worker.Farewell.{sent-request_close, sent-confirm_close}
use lib_arcus.Connection.Worker.Moves.{Pc, move, enters}
use lib_arcus.Connection.Worker.Moves.Outputs.{
  Output, outputs, messages_in, outputs-append, messages_in-append, framed, outputs-framed,
  messages_in-framed,
}
use lib_arcus.Connection.Worker.Moves.Silent.{
  syscall-Quiet, creates-Quiet, connects-Quiet, binds-Quiet, sets_timeout-Quiet, accepts-Quiet,
  waits-Quiet, commit-Quiet, finish_closing-Quiet,
}

-- What is written between two states of a connection: nothing is lost of the send queue, unless it
-- has become known that the other side asks to close.
pub record Writes {M : Type 0} (os : Os) (pb : Protobuf M) (s t : Connection M) : Type 0 where
  pub wrote : List (Output M)
  pub bytes : sent (log_of t) ≡ sent (log_of s) ++ outputs os pb wrote
  pub kept :
      (t.received_close ≡ true)
      ⊎ ((t.received_close ≡ s.received_close) × (messages_in wrote ++ t.send_queue ≡ s.send_queue))

module _ {M : Type 0} (os : Os) (pb : Protobuf M) where
  Quiet-Writes : (s t : Connection M) → Quiet s t → Writes os pb s t
  unfolding outputs messages_in
  Quiet-Writes s t q = record {
    wrote = [];
    bytes = q.0 ∙ sym (append-nil (sent (log_of s)));
    kept = ground (arith, q);
  }

  module _ (sends : SendsAll os) where
    flush_send_queue-Writes : (s : Connection M) → Writes os pb s (flush_send_queue os pb s)
    unfolding flush_send_queue
    flush_send_queue-Writes s =
        let t = flush_send_queue os pb s in
        let (bytes, same) =
          sent-send_messages os pb sends s.send_queue (record s { send_queue = [] }) in
        let empty : t.send_queue ≡ [] = ap (λ t. t.send_queue) same in
        record {
          wrote = framed s.send_queue;
          bytes = bytes ∙ ap (◌++◌ _) (sym (outputs-framed os pb s.send_queue));
          kept = inr (
            ap (λ t. t.received_close) same,
            rw (empty, append-nil) (messages_in-framed s.send_queue),
          );
        }

    request_close-Writes : (s : Connection M) → Writes os pb s (request_close os s)
    unfolding outputs messages_in request_close error write_u32 htonl
    request_close-Writes s = record {
      wrote = Output.goodbye ∷ [];
      bytes = sent-request_close os s;
      kept = inr (refl, refl);
    }

    confirm_close-Writes :
        (s : Connection M) → s.received_close ≡ true → Writes os pb s (confirm_close os s)
    unfolding outputs confirm_close write_u32 htonl
    confirm_close-Writes s asked = record {
      wrote = Output.goodbye ∷ [];
      bytes = sent-confirm_close os s;
      kept = inl asked;
    }

    Writes-trans : (s t u : Connection M) → Writes os pb s t → Writes os pb t u → Writes os pb s u
    Writes-trans s t u a b = record {
      wrote = a.wrote ++ b.wrote;
      bytes =
          b.bytes
          ∙ ap (λ bs. bs ++ outputs os pb b.wrote) a.bytes
          ∙ append_assoc (sent (log_of s)) (outputs os pb a.wrote) (outputs os pb b.wrote)
          ∙ ap (◌++◌ _) (sym (outputs-append os pb a.wrote b.wrote));
      kept = elim b.kept [
        | inl asked ↦ inl asked
        | inr (same, eq) ↦ elim a.kept [
          | inl asked ↦ inl (same ∙ asked)
          | inr (same', eq') ↦ inr (same ∙ same', rw (messages_in-append, append_assoc, eq) eq')
        ]
      ];
    }

    check_connection_state-Writes :
        (s : Connection M) → Writes os pb s (check_connection_state os s)
    unfolding check_connection_state outputs messages_in htonl
    check_connection_state-Writes s =
        elim (Bool-cases
          (ltb keep_alive_rate ((os.clock (log_of s) - s.last_keep_alive_sent) / 1000000))) [
            | inl over ↦ record {
              wrote = Output.keep_alive ∷ [];
              bytes = rw over (simp (sends, append-nil) refl);
              kept = rw over (simp sends (inr (refl, refl)));
            }
            | inr early ↦ record {
              wrote = [];
              bytes = rw early refl;
              kept = rw early (inr (refl, refl));
            }
          ]

    enters-Writes : (st : SocketState) (s : Connection M) → Writes os pb s (enters os pb st s).1
    unfolding enters PlatformSocket.listen
    enters-Writes SocketState.connecting s = Quiet-Writes s _ (creates-Quiet os pb Pc.created s)
    enters-Writes SocketState.opening s = Quiet-Writes s _ (creates-Quiet os pb Pc.binding s)
    enters-Writes SocketState.listening s =
        Quiet-Writes s _ (syscall-Quiet os pb (Call.listen s.platform_socket.socket_id 1) s refl)
    enters-Writes SocketState.connected s = flush_send_queue-Writes s
    enters-Writes SocketState.closing s = elim (Bool-cases s.received_close) [
      | inl theirs ↦ simp theirs (confirm_close-Writes s theirs)
      | inr ours ↦
          let t = flush_send_queue os pb s in
          simp ours (
            Writes-trans s t (request_close os t) (flush_send_queue-Writes s)
              (request_close-Writes t))
    ]
    enters-Writes SocketState.initial s = Quiet-Writes s s (refl, refl, inr refl)
    enters-Writes SocketState.closed s = Quiet-Writes s s (refl, refl, inr refl)
    enters-Writes SocketState.error s = Quiet-Writes s s (refl, refl, inr refl)

    same-Writes : (s : Connection M) → Writes os pb s s
    same-Writes s = Quiet-Writes s s (refl, refl, inr refl)

    -- Whatever the worker does next, it writes whole packets, and takes the messages in them from the
    -- front of the send queue.
    pub move-Writes : (p : Pc) (s : Connection M) → Writes os pb s (move os pb p s).1
    unfolding move
    move-Writes Pc.absent s = same-Writes s
    move-Writes Pc.looping s = elim (Bool-cases (is_over s.state)) [
      | inl over ↦ simp over (Quiet-Writes s _ (append-nil _, refl, inr refl))
      | inr going ↦ simp going (enters-Writes s.state s)
    ]
    move-Writes Pc.created s = Quiet-Writes s _ (connects-Quiet os pb s)
    move-Writes Pc.binding s = Quiet-Writes s _ (binds-Quiet os pb s)
    move-Writes Pc.accepting s = Quiet-Writes s _ (accepts-Quiet os pb s)
    move-Writes (Pc.timing code why) s = Quiet-Writes s _ (sets_timeout-Quiet os pb code why s)
    move-Writes (Pc.assigning st) s = Quiet-Writes s _ (refl, refl, inr refl)
    move-Writes Pc.flushed s = Quiet-Writes s _ (receive_next_message-Quiet os pb s)
    move-Writes Pc.received s = elim (Bool-cases (same_state s.next_state SocketState.error)) [
      | inl broken ↦ simp broken (same-Writes s)
      | inr fine ↦ simp fine (check_connection_state-Writes s)
    ]
    move-Writes (Pc.waiting word) s = Quiet-Writes s _ (waits-Quiet os pb word s)
    move-Writes Pc.finishing s = Quiet-Writes s _ (finish_closing-Quiet os pb s)
    move-Writes Pc.switched s = Quiet-Writes s _ (commit-Quiet os pb s)
    move-Writes Pc.ended s = same-Writes s
