-- ===== src/Link.antt =====
-- The stream between two sockets: the bytes of a message (README.md, "Using the Socket"), what a log
-- shows as sent, and what TCP promises of calls that succeed.
use lib_arcus.Prelude.{
  ℕ, suc, ◌%◌, ◌^◌, ◌≤◌, ◌<◌, ◌≡◌, ◌++◌, Bool, true, false, List, [], ◌∷◌, Bytes, length, take,
  drop, ℤ,
}
use lib_arcus.ByteOrder.{htonl}
use lib_arcus.Environment.{Os, Log, Event, Call, done, got, Protobuf}
use lib_arcus.Hash.Ascii.{IsAscii}
use lib_arcus.MessageTypeStore.{get_message_type_id}
use lib_arcus.Connection.Send.{wire_header}

-- A header, the size, the type id, and the message as Protobuf serializes it.
unfoldable pub frame : {M : Type 0} → Os → Protobuf M → M → Bytes
frame os pb m =
    htonl wire_header
    ++ (htonl (pb.byte_size m % 2 ^ 32) ++ (htonl (get_message_type_id os pb m) ++ pb.serialize m))

unfoldable pub frames : {M : Type 0} → Os → Protobuf M → List M → Bytes
frames os pb [] = []
frames os pb (m ∷ ms) = frame os pb m ++ frames os pb ms

-- The bytes of one event's `send`.
abbrev pub sent_by : Event → Bytes
sent_by (Event.call (Call.send fd bs)) = bs
sent_by _ = []

-- The bytes handed to `send`, in order.
abbrev pub sent : Log → Bytes
sent [] = []
sent (e ∷ h) = sent h ++ sent_by e

-- How often the condition variable was signalled.
abbrev pub signals : Log → ℕ
signals [] = 0
signals (Event.notify_all ∷ h) = suc (signals h)
signals (_ ∷ h) = signals h

-- Every `send` takes all its bytes.
abbrev pub SendsAll : Os → Type 0
SendsAll os = (h : Log) (fd : ℤ) (bs : Bytes) → os.answer h (Call.send fd bs) ≡ done (length bs)

abbrev pub is_recv : Event → Bool
is_recv (Event.recv fd n) = true
is_recv _ = false

-- `pending h` is what has arrived and was not read before the moment `h`: a `recv` for no more than
-- that gives its beginning, and removes it.
pub record Delivers (os : Os) (pending : Log → Bytes) : Type 0 where
  pub gives :
      (h : Log) (fd : ℤ) (n : ℕ)
      → n ≤ length (pending h)
      → os.receive h fd n ≡ got (take n (pending h))
  pub removes :
      (h : Log) (fd : ℤ) (n : ℕ)
      → n ≤ length (pending h)
      → pending (Event.recv fd n ∷ h) ≡ drop n (pending h)
  pub spares : (h : Log) (e : Event) → is_recv e ≡ false → pending (e ∷ h) ≡ pending h

-- What Protobuf documents of a message: `ByteSize` is the length of its serialization, which is less
-- than 2 GiB, and the full names of types are in ASCII.
pub record Serializes {M : Type 0} (pb : Protobuf M) (m : M) : Type 0 where
  pub size_eq : pb.byte_size m ≡ length (pb.serialize m)
  pub size_lt : pb.byte_size m < 2 ^ 31
  pub name_ascii : IsAscii (pb.type_name m)
