-- ===== src/Connection/Worker/Runs.antt =====
-- Whole runs of the worker.
use lib_arcus.Prelude.{
  List, [], ◌∷◌, if◌then◌else◌, none, ℕ, zero, suc, ◌≡◌, refl, sym, ap, ◌∙◌, inl, inr, true, false,
  some, Bool-cases, Option-cases, arith,
}
use mathlib.Core.Path.{subst}
use lib_arcus.Types.{SocketState, same_state}
use lib_arcus.Environment.{Os, Protobuf, Event}
use lib_arcus.PlatformSocket.{happens}
use lib_arcus.Connection.{Connection}
use lib_arcus.Connection.Worker.{
  perform, perform_in, perform_closing, commit, run, is_over, confirm_close, finish_closing,
}
use lib_arcus.Connection.Worker.Transitions.{Step, perform-Step}

-- States, one to a round, each of which follows the one before by the table of the `switch`.
pub data Steps : SocketState → List SocketState → SocketState → Type 0 where
  here : {a : SocketState} → Steps a (a ∷ []) a
  next :
      {a b c : SocketState} {path : List SocketState}
      → Step a b
      → Steps b path c
      → Steps a (a ∷ path) c

pub same_state-eq : (a b : SocketState) → same_state a b ≡ true → a ≡ b
same_state-eq a b h = ground arith

finish_closing-next :
    {M : Type 0} (os : Os) (s : Connection M)
    → (finish_closing os s).next_state ≡ SocketState.closed
unfolding finish_closing
finish_closing-next os s = refl

module _ {M : Type 0} (os : Os) (pb : Protobuf M) where
  -- Afterwards the state is the next state, whatever it was.
  pub commit-state :
      (s : Connection M)
      → ((commit os s).state ≡ s.next_state) × ((commit os s).next_state ≡ s.next_state)
  unfolding commit
  commit-state s = ground (arith, same_state-eq s.next_state s.state)

  -- The states of the rounds of a run.
  unfoldable pub visited : ℕ → ℕ → Connection M → List SocketState
  visited zero fuel s = s.state ∷ []
  visited (suc rounds) fuel s =
      let rest : List SocketState = elim (perform os pb fuel s) [
        | none ↦ []
        | some t ↦ visited rounds fuel (commit os t)
      ] in
      if is_over s.state then s.state ∷ [] else s.state ∷ rest

  -- The states of the rounds of a run that ends follow one another by the table `Step`, and the last
  -- is the state that the run ends in, Closed or Error; where no other thread asked for a state
  -- meanwhile.
  pub run-Steps :
      (rounds fuel : ℕ) (s t : Connection M)
      → s.next_state ≡ s.state
      → run os pb rounds fuel s ≡ some t
      → Steps s.state (visited rounds fuel s) t.state × (is_over t.state ≡ true)
  unfolding run visited
  run-Steps zero fuel s t idle e = cc
  run-Steps (suc rounds) fuel s t idle e = elim (Bool-cases (is_over s.state)) [
    | inl over ↦
        let same : s.state ≡ t.state = ground arith in (rw (over, ← same) here, rw (← same) over)
    | inr more ↦ elim (Option-cases (perform os pb fuel s)) [
      | inl out ↦ ground arith
      | inr (u, performed) ↦
          let (keeps, st) = perform-Step os pb fuel s u idle performed in
          let (c, d) = commit-state u in
          let (steps, over) = run-Steps rounds fuel (commit os u) t (d ∙ sym c) (ground arith) in
          (
            rw (more, performed)
                (next st
                  (subst (λ st. Steps st (visited rounds fuel (commit os u)) t.state) c steps)),
            over,
          )
    ]
  ]

  pub visited-perform :
      (rounds fuel : ℕ) (s u : Connection M)
      → is_over s.state ≡ false
      → perform os pb fuel s ≡ some u
      → visited (suc rounds) fuel s ≡ s.state ∷ visited rounds fuel (commit os u)
  unfolding visited
  visited-perform rounds fuel s u going performed = rw (going, performed)

  pub run-perform :
      (rounds fuel : ℕ) (s u : Connection M)
      → is_over s.state ≡ false
      → perform os pb fuel s ≡ some u
      → run os pb (suc rounds) fuel s ≡ run os pb rounds fuel (commit os u)
  unfolding run
  run-perform rounds fuel s u going performed = rw (going, performed)

  run-over :
      (rounds fuel : ℕ) (s : Connection M)
      → is_over s.state ≡ true
      → run os pb (suc rounds) fuel s
        ≡ some (record s { platform_socket = happens Event.notify_all s.platform_socket })
  unfolding run
  run-over rounds fuel s over = rw over

  perform-confirm :
      (fuel : ℕ) (s : Connection M)
      → s.state ≡ SocketState.closing
      → s.received_close ≡ true
      → perform os pb fuel s ≡ some (finish_closing os (confirm_close os s))
  unfolding perform perform_in perform_closing
  perform-confirm fuel s closing theirs = ap (λ st. perform_in os pb st fuel s) closing ∙ confirms
    where
      confirms :
          perform_in os pb SocketState.closing fuel s
          ≡ some (finish_closing os (confirm_close os s))
      confirms = rw theirs

  -- Once the other side has asked to close, a worker in Closing ends in Closed within two rounds,
  -- whatever the system answers.
  pub run-received_close :
      (rounds fuel : ℕ) (s : Connection M)
      → s.state ≡ SocketState.closing
      → s.received_close ≡ true
      → (t : Connection M) × (run os pb (suc (suc rounds)) fuel s ≡ some t)
        × (t.state ≡ SocketState.closed)
  run-received_close rounds fuel s closing theirs =
      let u = finish_closing os (confirm_close os s) in
      let (c, _) = commit-state u in
      let closed : (commit os u).state ≡ SocketState.closed = c ∙ finish_closing-next os _ in
      (
        _,
        run-perform (suc rounds) fuel s u (rw closing) (perform-confirm fuel s closing theirs)
            ∙ run-over rounds fuel (commit os u) (rw closed),
        closed,
      )
