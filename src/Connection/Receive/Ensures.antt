-- ===== src/Connection/Receive/Ensures.antt =====
-- What a part of `receiveNextMessage` ensures where it returns, and where it goes on.
use lib_arcus.WireMessage.{WireMessage}
use lib_arcus.Connection.{Connection}
use lib_arcus.Connection.Receive.{Flow, stop, go, and_then, outcome}

module _ {M : Type 0} (P : Connection M → Type 0) where
  abbrev pub Ensures : (WireMessage → Connection M → Type 0) → Flow M → Type 0
  Ensures Q (stop s) = P s
  Ensures Q (go m s) = Q m s

  pub Ensures-and_then :
      (Q R : WireMessage → Connection M → Type 0) (f : Flow M)
      (k : WireMessage → Connection M → Flow M)
      → Ensures Q f
      → ((m : WireMessage) (s : Connection M) → Q m s → Ensures R (k m s))
      → Ensures R (and_then f k)
  Ensures-and_then Q R (stop s) k e next = e
  Ensures-and_then Q R (go m s) k e next = next m s e

  pub Ensures-outcome : (f : Flow M) → Ensures (λ m s. P s) f → P (outcome f)
  Ensures-outcome (stop s) e = e
  Ensures-outcome (go m s) e = e
