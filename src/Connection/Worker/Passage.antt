-- ===== src/Connection/Worker/Passage.antt =====
-- The way to Closed.
use lib_arcus.Prelude.{
  ℕ, ◌≡◌, refl, ◌⊎◌, inl, inr, Bool-cases, Bool, true, false, ◌||◌, List, [], ◌∷◌, some, arith,
}
use lib_arcus.Types.{SocketState, same_state}
use lib_arcus.Environment.{Os, Protobuf}
use lib_arcus.Connection.{Connection}
use lib_arcus.Connection.Worker.{run}
use lib_arcus.Connection.Worker.Transitions.{Step}
use lib_arcus.Connection.Worker.Runs.{same_state-eq, Steps, visited, run-Steps}

abbrev pub visits : SocketState → List SocketState → Bool
visits st [] = false
visits st (a ∷ path) = same_state a st || visits st path

into_closed :
    {a b : SocketState}
    → Step a b
    → b ≡ SocketState.closed
    → (a ≡ SocketState.closed) ⊎ (same_state a SocketState.closing ≡ true)
into_closed Step.ends e = inr refl
into_closed Step.stays_closed e = inl refl
into_closed _ e = absurd cc

into_closing :
    {a b : SocketState}
    → Step a b
    → b ≡ SocketState.closing
    → same_state a SocketState.connected ≡ true
into_closing Step.closes e = refl
into_closing _ e = absurd cc

-- A path to Closed that does not begin there visits Closing.
Steps-closing :
    {a c : SocketState} {path : List SocketState}
    → Steps a path c
    → c ≡ SocketState.closed
    → (a ≡ SocketState.closed) ⊎ (visits SocketState.closing path ≡ true)
Steps-closing Steps.here e = inl e
Steps-closing {a} (Steps.next st rest) e = elim (Steps-closing rest e) [
  | inl b ↦ elim (into_closed st b) [ inl b' ↦ inl b' | inr b' ↦ inr (rw b' refl) ]
  | inr later ↦ inr (ground (arith, later))
]

-- A path that visits Closing and does not begin there visits Connected.
Steps-connected :
    {a c : SocketState} {path : List SocketState}
    → Steps a path c
    → visits SocketState.closing path ≡ true
    → (same_state a SocketState.closing ≡ true) ⊎ (visits SocketState.connected path ≡ true)
Steps-connected Steps.here e = inl (ground arith)
Steps-connected {a} (Steps.next st rest) e = elim (Bool-cases (same_state a SocketState.closing)) [
  | inl at_once ↦ inl at_once
  | inr later ↦ elim (Steps-connected rest (ground arith)) [
    | inl b ↦ inr (rw (into_closing st (same_state-eq _ _ b)) refl)
    | inr c ↦ inr (ground (arith, c))
  ]
]

module _ {M : Type 0} (os : Os) (pb : Protobuf M) where
  -- A run that begins in Connecting or Opening and ends in Closed had a round in Connected and one in
  -- Closing, where no other thread asked for a state meanwhile.
  pub run-visits :
      (rounds fuel : ℕ) (s t : Connection M)
      → (same_state s.state SocketState.connecting || same_state s.state SocketState.opening) ≡ true
      → s.next_state ≡ s.state
      → run os pb rounds fuel s ≡ some t
      → t.state ≡ SocketState.closed
      → (visits SocketState.connected (visited os pb rounds fuel s) ≡ true)
        × (visits SocketState.closing (visited os pb rounds fuel s) ≡ true)
  run-visits rounds fuel s t start idle ran closed =
      let (steps, _) = run-Steps os pb rounds fuel s t idle ran in
      let through : visits SocketState.closing (visited os pb rounds fuel s) ≡ true =
        elim (Steps-closing steps closed) [ inl e ↦ absurd (ground arith) | inr v ↦ v ] in
      elim (Steps-connected steps through) [ inl e ↦ absurd (ground arith) | inr v ↦ (v, through) ]
