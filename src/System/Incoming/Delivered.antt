-- ===== src/System/Incoming/Delivered.antt =====
-- A socket in use, and the packets that come in.
use lib_arcus.Prelude.{
  ℕ, ◌≤◌, ◌≡◌, ◌≢◌, refl, sym, ap, ◌∙◌, inl, inr, List, [], ◌∷◌, ◌++◌, append_assoc, append-nil,
  arith, Bytes, length-append, length,
}
use mathlib.Core.List.{append_cancel_left}
use mathlib.Core.Path.{subst}
use lib_arcus.Types.{SocketState}
use lib_arcus.ByteOrder.{htonl, length-htonl}
use lib_arcus.Environment.{Os, Protobuf}
use lib_arcus.PlatformSocket.{PlatformSocket}
use lib_arcus.MessageTypeStore.{MessageTypeStore}
use lib_arcus.WireMessage.{WireMessage, new_wire_message}
use lib_arcus.Connection.{Connection, socket_close}
use lib_arcus.Connection.Send.{wire_header}
use lib_arcus.Link.{frame}
use lib_arcus.Connection.Receive.{message_at_hand}
use lib_arcus.Connection.Receive.Arrivals.{Steady, arrived}
use lib_arcus.Connection.Receive.Delivery.{log_of, IsIdle}
use lib_arcus.Connection.Worker.Moves.Ranks.{rank}
use lib_arcus.Connection.Worker.Moves.Outputs.{Output, bytes_of, outputs, messages_in}
use lib_arcus.Session.{Agrees}
use lib_arcus.Session.Tracking.{InStep, Follows, Stage, idle, sizing, typing, filling}
use lib_arcus.System.{System, Reach}
use lib_arcus.System.Taking.{through}
use lib_arcus.System.Incoming.Keeping.{Onward, Held-left, Onward-Held}

module _ {M : Type 0} (os : Os) (pb : Protobuf M) where
  bytes_of-word : (w : Output M) → (v : ℕ) × ((r : Bytes) × (bytes_of os pb w ≡ htonl v ++ r))
  unfolding bytes_of frame
  bytes_of-word Output.keep_alive = (0, ([], sym (append-nil _)))
  bytes_of-word (Output.message m) = (wire_header, (_, refl))
  bytes_of-word Output.goodbye = (socket_close, ([], sym (append-nil _)))

  -- No bytes are no packets.
  outputs-nil : (ws : List (Output M)) → outputs os pb ws ≡ [] → ws ≡ []
  unfolding outputs
  outputs-nil [] e = refl
  outputs-nil (w ∷ ws) e =
      let (v, (r, begins)) = bytes_of-word w in
      let n : length ((htonl v ++ r) ++ outputs os pb ws) ≡ 0 =
        ap (λ b. length (b ++ outputs os pb ws)) (sym begins) ∙ ap length e in
      let split = length-append (htonl v ++ r) (outputs os pb ws) in
      absurd (omega (arith, n, split, length-append (htonl v) r, length-htonl v))

  Agrees-nil :
      (types : MessageTypeStore M) (l : List (Output M)) (ms : List M)
      → l ≡ []
      → Agrees os pb types (messages_in l) ms
      → ms ≡ []
  unfolding messages_in
  Agrees-nil types l [] none_left agree = refl
  Agrees-nil types l (m ∷ ms) none_left agree =
      absurd (subst (λ l. Agrees os pb types (messages_in l) (m ∷ ms)) none_left agree)

  -- Where no message is begun and all was read, no packet is left.
  nothing-left :
      (total : Bytes) (pre all : List M) (s : Connection M) (track : InStep os pb total pre all s)
      → IsIdle s
      → arrived os (log_of s) ≡ total
      → track.ms ≡ []
  unfolding message_at_hand new_wire_message
  nothing-left total pre all s track none_begun all_read =
      let here = ap (λ (m : WireMessage). m.state) none_begun in
      elim track.stage [
        | idle new none_read ↦
            let read = track.read ∙ ap (◌++◌ track.before) none_read in
            let over =
              append_cancel_left track.before (outputs os pb track.rest) []
                (sym track.whole ∙ sym all_read ∙ read) in
            Agrees-nil s.message_types track.rest track.ms (outputs-nil track.rest over)
              track.agrees
        | sizing x r is_next read m_eq ↦
            absurd (ground (arith, here, ap (λ (m : WireMessage). m.state) m_eq))
        | typing x r is_next read m_eq ↦
            absurd (ground (arith, here, ap (λ (m : WireMessage). m.state) m_eq))
        | filling x r p is_next read state valid type size holds ↦
            absurd (ground (arith, here, state))
      ]

  module _ (steady : Steady os) {p : PlatformSocket} {x : System M} (reach : Reach os pb p x)
      (up : x.conn.state ≢ SocketState.initial) (unbegun : IsIdle x.conn) (ws : List (Output M))
      (ms : List M) (follows : Follows os pb (arrived os (log_of x.conn) ++ outputs os pb ws))
      (agrees : Agrees os pb x.conn.message_types (messages_in ws) ms) where
    begin-InStep :
        InStep os pb
          (arrived os (log_of x.conn) ++ outputs os pb ws)
          x.taken
          (through x ++ ms)
          x.conn
    unfolding through message_at_hand
    begin-InStep = record {
      rest = ws;
      ms = ms;
      before = arrived os (log_of x.conn);
      part = [];
      read = sym (append-nil _);
      whole = refl;
      stage = Stage.idle unbegun refl;
      agrees = agrees;
      queue = sym (append_assoc x.taken x.conn.receive_queue ms);
    }

    -- What is received is a beginning of what is sent.
    pub Onward-through :
        {y : System M} → Onward os pb x y → (left : List M) × (through y ++ left ≡ through x ++ ms)
    Onward-through {y} on =
        Held-left os pb _ _ y (Onward-Held os pb _ _ steady follows reach up (inl begin-InStep) on)

    -- Once all of it is read, and no message is begun, nothing is missing.
    pub Onward-all :
        {y : System M}
        → Onward os pb x y
        → rank y.conn.state ≤ 3
        → IsIdle y.conn
        → arrived os (log_of y.conn) ≡ arrived os (log_of x.conn) ++ outputs os pb ws
        → through y ≡ through x ++ ms
    unfolding through
    Onward-all {y} on going none_begun all_read =
        elim (Onward-Held os pb _ _ steady follows reach up (inl begin-InStep) on) [
          | inl track ↦
              let none_left = nothing-left _ _ _ y.conn track none_begun all_read in
              let queue =
                subst (λ ms. y.taken ++ (y.conn.receive_queue ++ ms) ≡ _) none_left track.queue in
              ap (◌++◌ y.taken) (sym (append-nil y.conn.receive_queue)) ∙ queue
          | inr (closing, left) ↦ absurd (omega (arith, going, closing))
        ]
