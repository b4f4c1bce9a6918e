-- ===== src/PlatformSocket/Io.antt =====
-- What reading and flushing do, on every answer of the system.
use lib_arcus.Prelude.{
  negsuc, ℕ, zero, suc, ◌≡◌, refl, ◌≢◌, ◌⊎◌, inl, inr, ◌∷◌, Bytes, length, ℤ, pos, negsuc, ◌≤◌,
  arith, ◌==◌, Bool-cases, eq_of_beq, false,
}
use lib_arcus.ByteOrder.{ntohl}
use lib_arcus.Environment.{Os, Event, Received, got, recv_failed, IsPosix}
use lib_arcus.PlatformSocket.{PlatformSocket, flush, read_u32, read_bytes}

module _ (os : Os) (p : PlatformSocket) where
  -- `flush` reads nothing: whatever its fuel, it leaves the socket and its log as they were.
  pub flush-eq : (fuel : ℕ) → flush os fuel p ≡ p
  unfolding flush
  flush-eq zero = refl
  flush-eq (suc fuel) = refl

  -- The socket after one `recv` for four bytes.
  abbrev after : ℕ → PlatformSocket
  after errno = record p { errno = errno; log = Event.recv p.socket_id 4 ∷ p.log }

  -- What the system gave to a read of a word, and what `readUInt32` makes of it.
  pub data ReadsWord (output : ℕ) : Received → ℤ × ℕ × PlatformSocket → Type 0 where
    word : (bs : Bytes) → length bs ≡ 4 → ReadsWord output (got bs) (pos 4, ntohl bs, after 0)
    timeout : (e : ℕ) → e ≡ os.eagain → ReadsWord output (recv_failed e) (pos 0, output, after e)
    short : (bs : Bytes) → length bs ≢ 4 → ReadsWord output (got bs) (negsuc 0, output, after 0)
    failure : (e : ℕ) → e ≢ os.eagain → ReadsWord output (recv_failed e) (negsuc 0, output, after e)

  zero_ne_eagain : IsPosix os → (0 == os.eagain) ≡ false
  zero_ne_eagain posix = ground (arith, posix.eagain_ne_zero)

  read_u32-ReadsWord_of :
      (output : ℕ) (r : Received)
      → IsPosix os
      → os.receive p.log p.socket_id 4 ≡ r
      → ReadsWord output r (read_u32 os output p)
  unfolding read_u32
  read_u32-ReadsWord_of output (got bs) posix e = elim (Bool-cases (length bs == 4)) [
    | inl four ↦ rw (e, four) (rw (eq_of_beq _ _ four) (word bs (eq_of_beq _ _ four)))
    | inr other ↦ rw (e, other, zero_ne_eagain posix) (short bs (ground arith))
  ]
  read_u32-ReadsWord_of output (recv_failed n) posix e = elim (Bool-cases (n == os.eagain)) [
    | inl again ↦ rw (e, again) (timeout n (eq_of_beq _ _ again))
    | inr other ↦ rw (e, other) (failure n (ground arith))
  ]

  -- `readUInt32` returns 4 with the word of exactly four bytes; 0 with the output untouched where
  -- nothing came in time; and else -1 with the output untouched, also where fewer than four bytes
  -- were read, which are lost.
  pub read_u32-ReadsWord :
      IsPosix os
      → (output : ℕ) → ReadsWord output (os.receive p.log p.socket_id 4) (read_u32 os output p)
  read_u32-ReadsWord posix output = read_u32-ReadsWord_of output _ posix refl

  read_bytes-bounded_of :
      (n : ℕ) (r : Received)
      → IsPosix os
      → os.receive p.log p.socket_id n ≡ r
      → let (result, bs, _) = read_bytes os n p in
        (result ≡ negsuc 0) ⊎ ((result ≡ pos (length bs)) × (length bs ≤ n))
  unfolding read_bytes
  read_bytes-bounded_of n (got bs) posix e = ground (arith, posix.recv_bounded _ _ n bs e)
  read_bytes-bounded_of n (recv_failed x) posix e = ground arith

  -- `readBytes` returns -1, or gives as many bytes as it says, and no more than were asked for.
  pub read_bytes-bounded :
      IsPosix os
      → (n : ℕ)
      → let (result, bs, _) = read_bytes os n p in
        (result ≡ negsuc 0) ⊎ ((result ≡ pos (length bs)) × (length bs ≤ n))
  read_bytes-bounded posix n = read_bytes-bounded_of n _ posix refl
