-- ===== src/Session/Conversation.antt =====
-- Two sockets with their threads, one of which reads what the other sends.
use lib_arcus.Prelude.{
  ◌≤◌, ◌≡◌, ◌≢◌, refl, sym, ap, ◌∙◌, false, List, [], ◌∷◌, ◌++◌, append_assoc, append-nil, Bytes,
}
use mathlib.Core.List.{append_cancel_left}
use mathlib.Core.Path.{subst}
use lib_arcus.Types.{SocketState}
use lib_arcus.Environment.{Os, Protobuf}
use lib_arcus.Hash.Ascii.{hash-ascii}
use lib_arcus.PlatformSocket.{PlatformSocket}
use lib_arcus.MessageTypeStore.{MessageTypeStore, get_message_type_id}
use lib_arcus.Link.{SendsAll, sent, frame}
use lib_arcus.Connection.Receive.Arrivals.{Steady, arrived}
use lib_arcus.Connection.Receive.Delivery.{log_of, IsIdle}
use lib_arcus.Connection.Worker.Moves.Ranks.{rank}
use lib_arcus.Connection.Worker.Moves.Outputs.{Output, outputs, messages_in, bytes_of}
use lib_arcus.Session.{Agrees}
use lib_arcus.Session.Tracking.{Follows}
use lib_arcus.System.{System, Reach}
use lib_arcus.System.Outgoing.{Reach-sent}
use lib_arcus.System.Taking.{through}
use lib_arcus.System.Incoming.Keeping.{Onward}
use lib_arcus.System.Incoming.Delivered.{Onward-through, Onward-all}

module _ {M : Type 0} (os : Os) (pb : Protobuf M) (types : MessageTypeStore M) where
  -- What is read of the first messages, and of the others.
  record Split (l l' ms : List M) : Type 0 where
    first : List M
    others : List M
    whole : first ++ others ≡ ms
    agrees : Agrees os pb types l first
    agrees' : Agrees os pb types l' others

  Agrees-Split : (l l' ms : List M) → Agrees os pb types (l ++ l') ms → Split l l' ms
  Agrees-Split [] l' ms agree = record {
    first = [];
    others = ms;
    whole = refl;
    agrees = tt;
    agrees' = agree;
  }
  Agrees-Split (m ∷ l) l' [] agree = absurd agree
  Agrees-Split (m ∷ l) l' (m' ∷ ms) (ser, under, agree) =
      let s = Agrees-Split l l' ms agree in
      record {
        first = m' ∷ s.first;
        others = s.others;
        whole = ap (◌∷◌ m') s.whole;
        agrees = (ser, under, s.agrees);
        agrees' = s.agrees';
      }

  Agrees-nil : (ms : List M) → Agrees os pb types [] ms → ms ≡ []
  Agrees-nil [] agree = refl
  Agrees-nil (m ∷ ms) agree = absurd agree

  -- Both sides give the packets the same bytes.
  outputs-eq :
      (os' : Os) (ws : List (Output M)) (ms : List M)
      → Agrees os pb types (messages_in ws) ms
      → outputs os' pb ws ≡ outputs os pb ws
  unfolding outputs messages_in bytes_of frame get_message_type_id
  outputs-eq os' [] ms agree = refl
  outputs-eq os' (Output.keep_alive ∷ ws) ms agree = rw (outputs-eq os' ws ms agree) refl
  outputs-eq os' (Output.goodbye ∷ ws) ms agree = rw (outputs-eq os' ws ms agree) refl
  outputs-eq os' (Output.message m ∷ ws) [] agree = absurd agree
  outputs-eq os' (Output.message m ∷ ws) (m' ∷ ms) (ser, under, agree) =
      rw
        (
          hash-ascii os'.char_is_signed os.char_is_signed (pb.type_name m) ser.name_ascii,
          outputs-eq os' ws ms agree,
        )
        refl

module _ {M : Type 0} (os os' : Os) (pb : Protobuf M) (sends : SendsAll os) (steady : Steady os')
    {p p' : PlatformSocket} {a x y : System M} (reach : Reach os pb p a)
    (unasked : a.conn.received_close ≡ false) (bytes : Bytes)
    (wire : sent (log_of a.conn) ≡ sent p.log ++ bytes) (reach' : Reach os' pb p' x)
    (up : x.conn.state ≢ SocketState.initial) (unbegun : IsIdle x.conn)
    (follows : Follows os' pb (arrived os' (log_of x.conn) ++ bytes)) (on : Onward os' pb x y)
    (ms : List M) (agrees : Agrees os' pb x.conn.message_types a.handed ms) where
  -- The packets on the wire.
  record Carried : Type 0 where
    ws : List (Output M)
    split : Split os' pb x.conn.message_types (messages_in ws) a.conn.send_queue ms
    same : bytes ≡ outputs os' pb ws

  carried : Carried
  carried =
      let (ws, packets, handed) = Reach-sent os pb sends p reach unasked in
      let types = x.conn.message_types in
      let split =
        Agrees-Split os' pb types (messages_in ws) a.conn.send_queue ms (rw handed agrees) in
      record {
        ws = ws;
        split = split;
        same =
            append_cancel_left (sent p.log) bytes (outputs os pb ws) (sym wire ∙ packets)
            ∙ outputs-eq os' pb types os ws split.first split.agrees;
      }

  -- Let one socket put what it is given on the wire, not be asked to close, and have sent `bytes`
  -- since it was made. Let another one, which is in use, has no message half read and knows the types
  -- of what the first was handed, read nothing but a beginning of these bytes from then on, in pieces of
  -- whatever length, where only the four bytes of a word come together. However the threads of the two
  -- interleave, as long as it is not reset, the messages that it has received since, those that
  -- `takeNextMessage` has returned and then those in its queue, are a beginning of the messages that
  -- the first one's `sendMessage` was given, in that order.
  pub conversation : (left : List M) × (through y ++ left ≡ through x ++ ms)
  conversation =
      let c = carried in
      let (left, eq) =
        Onward-through os' pb steady reach' up unbegun c.ws c.split.first (rw (← c.same) follows)
          c.split.agrees on in
      (
        left ++ c.split.others,
        sym (append_assoc (through y) left c.split.others)
            ∙ ap (λ l. l ++ c.split.others) eq
            ∙ append_assoc (through x) c.split.first c.split.others
            ∙ ap (◌++◌ (through x)) c.split.whole,
      )

  -- Under the conditions of `conversation`: once the first socket has no message in its send queue, and
  -- the other one has read all the bytes, has no message half read and is not closing, this one has
  -- received every message that the first one's `sendMessage` was given.
  pub conversation_complete :
      a.conn.send_queue ≡ []
      → rank y.conn.state ≤ 3
      → IsIdle y.conn
      → arrived os' (log_of y.conn) ≡ arrived os' (log_of x.conn) ++ bytes
      → through y ≡ through x ++ ms
  conversation_complete flushed going unbegun' all_read =
      let c = carried in
      let none_left = Agrees-nil os' pb x.conn.message_types c.split.others (
        subst (λ l. Agrees os' pb x.conn.message_types l c.split.others) flushed c.split.agrees') in
      Onward-all os' pb steady reach' up unbegun c.ws c.split.first (rw (← c.same) follows)
        c.split.agrees on going unbegun' (rw (← c.same) all_read)
      ∙ ap (◌++◌ (through x))
          (sym (append-nil c.split.first) ∙ ap (◌++◌ c.split.first) (sym none_left) ∙ c.split.whole)
