-- ===== src/Session/Tracking.antt =====
-- Where a receiver stands in a stream of packets that comes in pieces.
pub mod Advance
pub mod Data
pub mod Header
pub mod Queueing
pub mod Typing
pub mod Words
use lib_arcus.Prelude.{
  ℕ, ◌%◌, ◌^◌, ◌≡◌, refl, sym, ap, ◌∙◌, ◌++◌, true, some, none, List, [], ◌∷◌, Bytes, length, take,
  append_assoc, append-nil,
}
use lib_arcus.ByteOrder.{htonl}
use lib_arcus.Environment.{Os, Log, Protobuf}
use lib_arcus.MessageTypeStore.{get_message_type_id}
use lib_arcus.WireMessage.{WireMessage, MessageState, new_wire_message}
use lib_arcus.Link.{frame}
use lib_arcus.Connection.{Connection}
use lib_arcus.Connection.Send.{wire_header}
use lib_arcus.Connection.Receive.{message_at_hand, bytes_of}
use lib_arcus.Connection.Receive.Arrivals.{Steady, arrived}
use lib_arcus.Connection.Receive.Chunks.{Holds}
use lib_arcus.Connection.Receive.Delivery.{log_of}
use lib_arcus.Connection.Worker.Moves.Outputs.{Output, outputs, messages_in}
use lib_arcus.Session.{Agrees}

module _ {M : Type 0} (os : Os) (pb : Protobuf M) where
  -- The first words of a message's frame.
  abbrev pub words_of : M → Bytes
  words_of x =
      htonl wire_header ++ (htonl (pb.byte_size x % 2 ^ 32) ++ htonl (get_message_type_id os pb x))

  -- How far the receiver has come with the packets `rest`: it has read the bytes `part` of them.
  pub data Stage (m : WireMessage) (rest : List (Output M)) (part : Bytes) : Type 0 where
    idle : m ≡ new_wire_message → part ≡ [] → Stage m rest part
    sizing :
        (x : M) (r : List (Output M))
        → rest ≡ Output.message x ∷ r
        → part ≡ htonl wire_header
        → m ≡ record new_wire_message { state = MessageState.size }
        → Stage m rest part
    typing :
        (x : M) (r : List (Output M))
        → rest ≡ Output.message x ∷ r
        → part ≡ htonl wire_header ++ htonl (pb.byte_size x % 2 ^ 32)
        → m ≡ record new_wire_message { state = MessageState.type; size = pb.byte_size x % 2 ^ 32 }
        → Stage m rest part
    filling :
        (x : M) (r : List (Output M)) (p : Bytes)
        → rest ≡ Output.message x ∷ r
        → part ≡ words_of x ++ p
        → m.state ≡ MessageState.data_
        → m.valid ≡ true
        → m.type ≡ get_message_type_id os pb x
        → m.size ≡ pb.byte_size x
        → Holds m p
        → Stage m rest part

  -- A receiver with the message `m` under way, in the stream `total`: what it has read is `before` and
  -- a part of the packets `rest`; the messages in these, as the receiver reads them, are `ms`, and with
  -- those that were taken (`pre`) and those in its queue they are `all`.
  pub record Track (total : Bytes) (pre all : List M) (m : WireMessage) (s : Connection M)
      : Type 0 where
    pub rest : List (Output M)
    pub ms : List M
    pub before : Bytes
    pub part : Bytes
    pub read : arrived os (log_of s) ≡ before ++ part
    pub whole : total ≡ before ++ outputs os pb rest
    pub stage : Stage m rest part
    pub agrees : Agrees os pb s.message_types (messages_in rest) ms
    pub queue : pre ++ (s.receive_queue ++ ms) ≡ all

  -- A message that has arrived whole, and is to be put into the queue.
  pub record Ready (total : Bytes) (pre all : List M) (m : WireMessage) (s : Connection M)
      : Type 0 where
    pub rest : List (Output M)
    pub ms : List M
    pub message : M
    pub read : total ≡ arrived os (log_of s) ++ outputs os pb rest
    pub agrees : Agrees os pb s.message_types (message ∷ messages_in rest) ms
    pub queue : pre ++ (s.receive_queue ++ ms) ≡ all
    pub state : m.state ≡ MessageState.dispatch
    pub type : m.type ≡ get_message_type_id os pb message
    pub size : m.size ≡ pb.byte_size message
    pub content : take m.size (bytes_of m.buffer) ≡ pb.serialize message

  -- Between two calls.
  abbrev pub InStep : Bytes → List M → List M → Connection M → Type 0
  InStep total pre all s = Track total pre all (message_at_hand s.current_message) s

  -- Whatever was read is a beginning of the stream.
  abbrev pub Follows : Bytes → Type 0
  Follows total = (h : Log) → (tail : Bytes) × (arrived os h ++ tail ≡ total)

  pub outputs-message :
      (x : M) (r : List (Output M))
      → outputs os pb (Output.message x ∷ r)
        ≡ htonl wire_header
          ++ (htonl (pb.byte_size x % 2 ^ 32)
              ++ (htonl (get_message_type_id os pb x) ++ (pb.serialize x ++ outputs os pb r)))
  unfolding outputs frame
  outputs-message x r = simp append_assoc refl
