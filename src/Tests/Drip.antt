-- ===== src/Tests/Drip.antt =====
-- A system whose stream comes in drops: the four bytes of a word together, all else one by one.
use lib_arcus.Prelude.{
  ℕ, zero, suc, ◌≤◌, ◌≡◌, refl, sym, ap, ◌∙◌, ◌⊎◌, inl, inr, [], ◌∷◌, ◌++◌, Bytes, length, drop,
  if◌then◌else◌, ◌==◌, append_assoc, append-nil, arith, ◌≢◌,
}
use lib_arcus.Types.{SocketState}
use lib_arcus.Environment.{Os, Log, Event, Received, got, recv_failed, IsPosix, Protobuf}
use lib_arcus.PlatformSocket.{PlatformSocket}
use lib_arcus.Connection.Receive.Arrivals.{Steady, arrived, given}
use lib_arcus.Connection.Worker.Moves.{move}
use lib_arcus.Connection.Worker.Moves.Ranks.{rank, move-Ascends}
use lib_arcus.Session.Tracking.{Follows}
use lib_arcus.System.{System, Reach, later, worked, works}
use lib_arcus.System.Order.{Reach-IsOrdered}
use lib_arcus.System.Incoming.Keeping.{Onward, goes_on}
use lib_arcus.Tests.Demo.{demo_os, posix, demo_os-Stream}

word : Bytes → Bytes
word (a ∷ b ∷ c ∷ d ∷ rest) = a ∷ b ∷ c ∷ d ∷ []
word _ = []

drop_of : Bytes → Bytes
drop_of [] = []
drop_of (b ∷ bs) = b ∷ []

piece : ℕ → Bytes → Bytes
unfolding word drop_of
piece n bs = if n == 4 then word bs else (if n == 0 then [] else drop_of bs)

piece-split : (n : ℕ) (bs : Bytes) → piece n bs ++ drop (length (piece n bs)) bs ≡ bs
unfolding piece word drop_of
piece-split n [] = ground arith
piece-split n (a ∷ []) = ground arith
piece-split n (a ∷ b ∷ []) = ground arith
piece-split n (a ∷ b ∷ c ∷ []) = ground arith
piece-split n (a ∷ b ∷ c ∷ d ∷ rest) = ground arith

length-piece : (n : ℕ) (bs : Bytes) → length (piece n bs) ≤ n
unfolding piece word drop_of
length-piece n [] = ground arith
length-piece n (a ∷ []) = ground arith
length-piece n (a ∷ b ∷ []) = ground arith
length-piece n (a ∷ b ∷ c ∷ []) = ground arith
length-piece n (a ∷ b ∷ c ∷ d ∷ rest) = ground arith

brought : Bytes → Received
brought [] = recv_failed 11
brought (b ∷ bs) = got (b ∷ bs)

given-brought : (bs : Bytes) → given (brought bs) ≡ bs
unfolding brought
given-brought [] = refl
given-brought (b ∷ bs) = refl

brought-cases :
    (bs : Bytes) → (brought bs ≡ recv_failed 11) ⊎ ((cs : Bytes) × (brought bs ≡ got cs))
unfolding brought
brought-cases [] = inl refl
brought-cases (b ∷ bs) = inr (b ∷ bs, refl)

brought-got : (bs cs : Bytes) → brought bs ≡ got cs → bs ≡ cs
unfolding brought
brought-got [] cs e = absurd cc
brought-got (b ∷ bs) cs e = cc

word-four : (bs cs : Bytes) → brought (piece 4 bs) ≡ got cs → length cs ≡ 4
unfolding piece word brought
word-four (a ∷ b ∷ c ∷ d ∷ rest) cs e =
    let same : a ∷ b ∷ c ∷ d ∷ [] ≡ cs = cc in ap length (sym same)
word-four [] cs e = absurd cc
word-four (a ∷ []) cs e = absurd cc
word-four (a ∷ b ∷ []) cs e = absurd cc
word-four (a ∷ b ∷ c ∷ []) cs e = absurd cc

module _ (stream : Bytes) where
  remaining : Log → Bytes
  remaining [] = stream
  remaining (Event.recv fd n ∷ h) = drop (length (piece n (remaining h))) (remaining h)
  remaining (_ ∷ h) = remaining h

  unfoldable pub drip_os : Os
  unfolding remaining piece brought
  drip_os = record (demo_os stream) { receive = λ h fd n. brought (piece n (remaining h)) }

  drip_os-IsPosix : IsPosix drip_os
  unfolding drip_os demo_os
  drip_os-IsPosix = record {
    recv_bounded = λ h fd n bs e.
        let same = brought-got (piece n (remaining h)) bs e in
        ground (arith, same, length-piece n (remaining h));
    eagain_ne_zero = (posix stream).eagain_ne_zero;
    fresh_length = (posix stream).fresh_length;
  }

  pub drip_os-Steady : Steady drip_os
  unfolding drip_os demo_os
  drip_os-Steady = record {
    posix = drip_os-IsPosix;
    brings = λ h fd n. brought-cases (piece n (remaining h));
    words = λ h fd bs e. word-four (remaining h) bs e;
    memory = (demo_os-Stream stream).memory;
  }

  arrived-remaining : (h : Log) → arrived drip_os h ++ remaining h ≡ stream
  unfolding drip_os
  arrived-remaining [] = refl
  arrived-remaining (Event.recv fd n ∷ h) =
      let bs = piece n (remaining h) in
      let rest = drop (length bs) (remaining h) in
      ap (λ b. (arrived drip_os h ++ b) ++ rest) (given-brought bs)
      ∙ append_assoc (arrived drip_os h) bs rest
      ∙ ap (◌++◌ (arrived drip_os h)) (piece-split n (remaining h))
      ∙ arrived-remaining h
  arrived-remaining (_ ∷ h) =
      ap (λ b. b ++ remaining h) (append-nil (arrived drip_os h)) ∙ arrived-remaining h

  -- What is read is a beginning of the stream.
  pub drip_os-Follows : {M : Type 0} (pb : Protobuf M) → Follows drip_os pb stream
  drip_os-Follows pb h = (remaining h, arrived-remaining h)

rank-zero : (st : SocketState) → rank st ≡ 0 → st ≡ SocketState.initial
rank-zero st e = ground arith

-- The worker alone takes steps.
module _ {M : Type 0} (os : Os) (pb : Protobuf M) where
  unfoldable pub worked_times : ℕ → System M → System M
  worked_times zero y = y
  worked_times (suc n) y = worked_times n (worked os pb y (move os pb y.pc y.conn))

  pub Reach-worked_times :
      {p : PlatformSocket} (n : ℕ) (y : System M)
      → Reach os pb p y
      → Reach os pb p (worked_times n y)
  unfolding worked_times
  Reach-worked_times zero y r = r
  Reach-worked_times (suc n) y r = Reach-worked_times n _ (later r works)

  -- It leads no state to Initial.
  worked-up :
      {p : PlatformSocket} (y : System M)
      → Reach os pb p y
      → y.conn.state ≢ SocketState.initial
      → (worked os pb y (move os pb y.pc y.conn)).conn.state ≢ SocketState.initial
  worked-up y r up e =
      let o = Reach-IsOrdered os pb r in
      let (fits, ahead, le) = move-Ascends os pb y.pc y.conn o.fits o.ahead in
      up (rank-zero y.conn.state (omega (arith, le, ap rank e)))

  pub Onward-worked_times :
      {p : PlatformSocket} {x : System M} (n : ℕ) (y : System M)
      → Reach os pb p y
      → y.conn.state ≢ SocketState.initial
      → Onward os pb x y
      → Onward os pb x (worked_times n y)
  unfolding worked_times
  Onward-worked_times zero y r up on = on
  Onward-worked_times (suc n) y r up on =
      let up' = worked-up y r up in
      Onward-worked_times n _ (later r works) up' (goes_on on works up')
