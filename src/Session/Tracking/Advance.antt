-- ===== src/Session/Tracking/Advance.antt =====
-- Steps of a receiver in a stream that comes in pieces.
use lib_arcus.Prelude.{
  ℕ, ◌≡◌, refl, sym, ap, ◌∙◌, ◌++◌, some, List, [], ◌∷◌, Bytes, length, take, append_assoc,
  append-nil, take-length-append,
}
use mathlib.Core.List.{append_cancel_left}
use lib_arcus.ByteOrder.{htonl, length-htonl}
use lib_arcus.Environment.{Os, Protobuf}
use lib_arcus.WireMessage.{WireMessage, new_wire_message}
use lib_arcus.Connection.{Connection}
use lib_arcus.Connection.Receive.{message_at_hand, keep}
use lib_arcus.Connection.Receive.Arrivals.{arrived}
use lib_arcus.Connection.Receive.Ensures.{Ensures}
use lib_arcus.Connection.Receive.Delivery.{log_of}
use lib_arcus.Connection.Worker.Moves.Outputs.{Output, outputs, messages_in}
use lib_arcus.Session.Tracking.{Stage, idle, Track, InStep, Follows}

-- The word at the beginning of a stream.
pub word-first :
    (bs tail rest : Bytes) (w : ℕ) → length bs ≡ 4 → bs ++ tail ≡ htonl w ++ rest → bs ≡ htonl w
word-first bs tail rest w four e =
    sym (take-length-append 4 bs tail (sym four))
    ∙ ap (take 4) e
    ∙ take-length-append 4 (htonl w) rest (sym (length-htonl w))

module _ {M : Type 0} (os : Os) (pb : Protobuf M) (total : Bytes) (pre all : List M) where
  abbrev pub T : WireMessage → Connection M → Type 0
  T m s = Track os pb total pre all m s

  abbrev pub P : Connection M → Type 0
  P s = InStep os pb total pre all s

  -- The bytes that come next are those of the packets that are left.
  pub next-bytes :
      Follows os pb total
      → (m : WireMessage) (s : Connection M) (track : T m s) (t : Connection M) (bs : Bytes)
      → arrived os (log_of t) ≡ arrived os (log_of s) ++ bs
      → (tail : Bytes) × (track.part ++ (bs ++ tail) ≡ outputs os pb track.rest)
  next-bytes follows m s track t bs more =
      let (tail, eq) = follows (log_of t) in
      (
        tail,
        append_cancel_left track.before _ _ (
            sym (append_assoc track.before track.part (bs ++ tail))
            ∙ sym (append_assoc (track.before ++ track.part) bs tail)
            ∙ ap (λ x. (x ++ bs) ++ tail) (sym track.read)
            ∙ ap (λ x. x ++ tail) (sym more)
            ∙ eq
            ∙ track.whole),
      )

  -- The same track, where the stage is another one and what was read has grown.
  pub further :
      (m m' : WireMessage) (s t : Connection M) (track : T m s) (bs : Bytes)
      → arrived os (log_of t) ≡ arrived os (log_of s) ++ bs
      → t.receive_queue ≡ s.receive_queue
      → t.message_types ≡ s.message_types
      → Stage os pb m' track.rest (track.part ++ bs)
      → T m' t
  further m m' s t track bs more queue types stage = record {
    rest = track.rest;
    ms = track.ms;
    before = track.before;
    part = track.part ++ bs;
    read = more ∙ ap (λ x. x ++ bs) track.read ∙ append_assoc track.before track.part bs;
    whole = track.whole;
    stage = stage;
    agrees = rw types track.agrees;
    queue = rw queue track.queue;
  }

  -- Nothing was read.
  pub waiting :
      (m : WireMessage) (s t : Connection M)
      → arrived os (log_of t) ≡ arrived os (log_of s)
      → t.receive_queue ≡ s.receive_queue
      → t.message_types ≡ s.message_types
      → T m s
      → T m t
  waiting m s t same queue types track = record {
    rest = track.rest;
    ms = track.ms;
    before = track.before;
    part = track.part;
    read = same ∙ track.read;
    whole = track.whole;
    stage = track.stage;
    agrees = rw types track.agrees;
    queue = rw queue track.queue;
  }

  -- A packet without a message was read whole.
  pub past :
      (m : WireMessage) (s t : Connection M) (track : T m s) (w : Output M) (r : List (Output M))
      (bs : Bytes)
      → m ≡ new_wire_message
      → track.part ≡ []
      → track.rest ≡ w ∷ r
      → messages_in (w ∷ r) ≡ messages_in r
      → outputs os pb (w ∷ r) ≡ bs ++ outputs os pb r
      → arrived os (log_of t) ≡ arrived os (log_of s) ++ bs
      → t.receive_queue ≡ s.receive_queue
      → t.message_types ≡ s.message_types
      → T m t
  past m s t track w r bs new none_read here silent begins more queue types = record {
    rest = r;
    ms = track.ms;
    before = track.before ++ bs;
    part = [];
    read =
        more
        ∙ ap (λ x. x ++ bs)
            (track.read ∙ ap (◌++◌ track.before) none_read ∙ append-nil track.before)
        ∙ sym (append-nil _);
    whole =
        track.whole
        ∙ ap (λ x. track.before ++ outputs os pb x) here
        ∙ ap (◌++◌ track.before) begins
        ∙ sym (append_assoc track.before bs (outputs os pb r));
    stage = idle new refl;
    agrees = rw types (rw (← silent) (rw (← here) track.agrees));
    queue = rw queue track.queue;
  }

  pub kept : (m : WireMessage) (t : Connection M) → T m t → Ensures P T (keep m t)
  unfolding message_at_hand
  kept m t track = waiting m t (record t { current_message = some m }) refl refl refl track
