-- ===== src/Connection/Receive/Chunks.antt =====
-- Data that arrives in several pieces.
use lib_arcus.Prelude.{
  ◌+◌, ◌%◌, ◌^◌, ◌≤◌, ◌≡◌, ◌++◌, Bytes, length, take, length-append, take-length-append, arith,
}
use lib_arcus.WireMessage.{WireMessage, get_remaining_size, store_at}
use lib_arcus.Connection.Receive.{take_in, bytes_of}
use lib_arcus.Connection.Receive.Buffer.{IsFilling, get_remaining_size-IsFilling, take_in-IsFilling}

-- The data received so far are `p`, at the beginning of the buffer.
pub record Holds (m : WireMessage) (p : Bytes) : Type 0 where
  pub filling : IsFilling m
  pub count : m.received_size ≡ length p
  pub content : take (length p) (bytes_of m.buffer) ≡ p

take-store_at :
    (p c buffer : Bytes)
    → take (length p) buffer ≡ p
    → take (length p + length c) (store_at (length p) c buffer) ≡ p ++ c
unfolding store_at
take-store_at p c buffer e =
    rw e (take-length-append _ (p ++ c) _ (omega (arith, length-append p c)))

module _ (m : WireMessage) (p c : Bytes) (holds : Holds m p) where
  -- The stored data grow by the piece.
  pub take_in-Holds : length p + length c ≤ m.size → Holds (take_in (length c) c m) (p ++ c)
  unfolding take_in
  take_in-Holds le =
      let sum : (m.received_size + length c) % 2 ^ 32 ≡ length p + length c =
        omega (arith, holds.count, holds.filling.size_lt) in
      let room : length c ≤ get_remaining_size m = omega (
        arith,
        get_remaining_size-IsFilling m holds.filling,
        holds.count,
        holds.filling.buffer_size,
      ) in
      record {
        filling = take_in-IsFilling m c holds.filling room;
        count = rw (sum, length-append p c);
        content =
            rw (length-append p c, holds.count)
              (take-store_at p c (bytes_of m.buffer) holds.content);
      }
