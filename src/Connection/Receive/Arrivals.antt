-- ===== src/Connection/Receive/Arrivals.antt =====
-- What arrives, however it is cut into pieces.
use lib_arcus.Prelude.{
  ℕ, ◌≤◌, ◌≡◌, refl, ap, ◌∙◌, ◌⊎◌, inl, inr, ◌++◌, some, List, [], ◌∷◌, Bytes, length, append-nil,
  arith, pos, ℤ,
}
use lib_arcus.ByteOrder.{ntohl}
use lib_arcus.Environment.{Os, Log, Event, Received, got, recv_failed, IsPosix}
use lib_arcus.PlatformSocket.{PlatformSocket}
use lib_arcus.PlatformSocket
use lib_arcus.Connection.{Connection, read_u32, tell}
use lib_arcus.Connection.Receive.Delivery.{log_of}

abbrev pub given : Received → Bytes
given (got bs) = bs
given (recv_failed e) = []

-- The bytes of one event's `recv`, in the state that the log before it shows.
abbrev pub arrived_by : Os → Log → Event → Bytes
arrived_by os h (Event.recv fd n) = given (os.receive h fd n)
arrived_by os h _ = []

-- All bytes that were read, in order.
abbrev pub arrived : Os → Log → Bytes
arrived os [] = []
arrived os (e ∷ h) = arrived os h ++ arrived_by os h e

-- A stream that does not break: a `recv` brings a piece of whatever length, or finds nothing in time;
-- the four bytes of a word come together; and memory can be had.
pub record Steady (os : Os) : Type 0 where
  pub posix : IsPosix os
  pub brings :
      (h : Log) (fd : ℤ) (n : ℕ)
      → (os.receive h fd n ≡ recv_failed os.eagain) ⊎ ((bs : Bytes) × (os.receive h fd n ≡ got bs))
  pub words : (h : Log) (fd : ℤ) (bs : Bytes) → os.receive h fd 4 ≡ got bs → length bs ≡ 4
  pub memory : (h : Log) (n : ℕ) → (bs : Bytes) × (os.fresh_memory h n ≡ some bs)

pub arrived-tell :
    (os : Os) (callback : ℕ → Event) (ls : List ℕ) (p : PlatformSocket)
    → ((l : ℕ) (h : Log) → arrived_by os h (callback l) ≡ [])
    → arrived os (tell callback ls p).log ≡ arrived os p.log
unfolding tell
arrived-tell os callback [] p h = refl
arrived-tell os callback (l ∷ ls) p h =
    arrived-tell os callback ls (PlatformSocket.happens (callback l) p) h
    ∙ ap (◌++◌ (arrived os p.log)) (h l p.log)
    ∙ append-nil (arrived os p.log)

module _ (os : Os) (steady : Steady os) where
  -- A word comes whole, or not yet.
  pub read_u32_steady :
      {M : Type 0} (output : ℕ) (s : Connection M)
      → let (result, word, t) = read_u32 os output s in
        ((result ≡ pos 0) × (word ≡ output) × (arrived os (log_of t) ≡ arrived os (log_of s)))
        ⊎ ((bs : Bytes) × (result ≡ pos 4)
            × (word ≡ ntohl bs)
            × (length bs ≡ 4)
            × (arrived os (log_of t) ≡ arrived os (log_of s) ++ bs))
  unfolding read_u32
  read_u32_steady output s =
      let h = log_of s in
      let fd = s.platform_socket.socket_id in
      elim (steady.brings h fd 4) [
        | inl late ↦ inl (
          ground (arith, late),
          ground (arith, late),
          ground (arith, late, append-nil (arrived os h)),
        )
        | inr (bs, came) ↦
            let four = steady.words h fd bs came in
            inr (
              bs,
              ground (arith, came, four),
              ground (arith, came, four),
              four,
              ground (arith, came, four),
            )
      ]

  -- Data come in a piece that may be empty.
  pub read_bytes_steady :
      (n : ℕ) (p : PlatformSocket)
      → let (result, bs, q) = PlatformSocket.read_bytes os n p in
        (result ≡ pos (length bs)) × (length bs ≤ n) × (arrived os q.log ≡ arrived os p.log ++ bs)
  unfolding PlatformSocket.read_bytes
  read_bytes_steady n p = elim (steady.brings p.log p.socket_id n) [
    | inl late ↦ ground (arith, late, append-nil (arrived os p.log))
    | inr (bs, came) ↦
        ground (
          arith,
          came,
          steady.posix.recv_bounded p.log p.socket_id n bs,
          steady.posix.eagain_ne_zero,
        )
  ]
