-- ===== src/Socket/Lifecycle.antt =====
-- Connecting, running, and starting over.
use lib_arcus.Prelude.{
  Option, none, List, ◌∷◌, ℕ, zero, suc, ◌≡◌, refl, sym, ap, ◌∙◌, true, false, some, Bytes, arith,
}
use mathlib.Core.Path.{subst}
use lib_arcus.Types.{SocketState}
use lib_arcus.Environment.{Os, Protobuf}
use lib_arcus.Connection.{Connection}
use lib_arcus.Connection.Worker.{perform, perform_in, commit, run, is_over}
use lib_arcus.Connection.Worker.Runs.{
  visited, visited-perform, Steps, run-Steps, commit-state, run-perform,
}
use lib_arcus.Connection.Worker.Memory.{run-Asked}
use lib_arcus.Socket.{clear_error, start, create_thread, ask, reset, closes_on_destruction, is_down}

-- The two states that the application can ask a new worker for.
pub data IsStart : SocketState → Type 0 where
  connecting : IsStart SocketState.connecting
  opening : IsStart SocketState.opening

module _ {M : Type 0} where
  start-started :
      (wanted : SocketState) (address : Bytes) (port : ℕ) (s : Connection M)
      → s.state ≡ SocketState.initial
      → s.thread ≡ false
      → start wanted address port s ≡ ask wanted (create_thread address port s)
  unfolding start
  start-started wanted address port s fresh free = rw (fresh, free) refl

  module _ (os : Os) (pb : Protobuf M) where
    perform-initial :
        (fuel : ℕ) (s : Connection M)
        → s.state ≡ SocketState.initial
        → perform os pb fuel s ≡ some s
    unfolding perform perform_in
    perform-initial fuel s fresh = ap (λ st. perform_in os pb st fuel s) fresh

    visited-initial :
        (rounds fuel : ℕ) (s : Connection M)
        → s.state ≡ SocketState.initial
        → visited os pb (suc rounds) fuel s
          ≡ SocketState.initial ∷ visited os pb rounds fuel (commit os s)
    visited-initial rounds fuel s fresh =
        visited-perform os pb rounds fuel s s (rw fresh) (perform-initial fuel s fresh)
        ∙ ap (λ st. st ∷ visited os pb rounds fuel (commit os s)) fresh

    -- Passes of the loop of `run`, one after the other, each with what follows it.
    abbrev pub passes : ℕ → ℕ → Connection M → Option (Connection M)
    passes zero fuel s = some s
    passes (suc n) fuel s = elim (perform os pb fuel s) [
      | none ↦ none
      | some t ↦ passes n fuel (commit os t)
    ]

    -- In Initial a worker that is asked for nothing goes round and changes nothing.
    passes-initial :
        (n fuel : ℕ) (s : Connection M)
        → s.state ≡ SocketState.initial
        → s.next_state ≡ SocketState.initial
        → passes n fuel s ≡ some s
    unfolding commit
    passes-initial zero fuel s fresh idle = refl
    passes-initial (suc n) fuel s fresh idle =
        let same : commit os s ≡ s = simp (fresh, idle) refl in
        ap (λ o. elim o [ none ↦ none | some t ↦ passes n fuel (commit os t) ])
          (perform-initial fuel s fresh)
        ∙ ap (passes n fuel) same
        ∙ passes-initial n fuel s fresh idle

    -- A socket in Initial without a worker that asks for nothing, and is told to connect or to listen.
    -- However many passes its new worker makes before it is asked for the new state, they end and
    -- change nothing, and the socket is as after `start` once the worker is asked. From there, where
    -- the worker ends, the states of its rounds are Initial, then Connecting or Opening, as asked,
    -- and what follows by the table `Step`, up to Closed or Error. No other call of the application
    -- comes in between.
    pub start-run :
        (wanted : SocketState) (address : Bytes) (port : ℕ) (idle rounds fuel : ℕ)
        (s t : Connection M)
        → IsStart wanted
        → s.state ≡ SocketState.initial
        → s.next_state ≡ SocketState.initial
        → s.thread ≡ false
        → run os pb (suc rounds) fuel (start wanted address port s) ≡ some t
        → (u : Connection M) × (passes idle fuel (create_thread address port s) ≡ some u)
          × (ask wanted u ≡ start wanted address port s)
          × (path : List SocketState) × (visited os pb (suc rounds) fuel (ask wanted u)
              ≡ SocketState.initial ∷ path)
          × Steps wanted path t.state
          × (is_over t.state ≡ true)
    start-run wanted address port idle rounds fuel s t asked fresh quiet free ran =
        let made = create_thread address port s in
        let u = ask wanted made in
        let started = start-started wanted address port s fresh free in
        let first = run-perform os pb rounds fuel u u (rw fresh) (perform-initial fuel u fresh) in
        let ran' : run os pb rounds fuel (commit os u) ≡ some t =
          sym first ∙ ap (run os pb (suc rounds) fuel) (sym started) ∙ ran in
        let (c, d) = commit-state os pb u in
        let (steps, over) = run-Steps os pb rounds fuel (commit os u) t (d ∙ sym c) ran' in
        (
          made,
          passes-initial idle fuel made fresh quiet,
          sym started,
          visited os pb rounds fuel (commit os u),
          visited-initial rounds fuel u fresh,
          subst (λ st. Steps st (visited os pb rounds fuel (commit os u)) t.state) c steps,
          over,
        )

    reset-start :
        (wanted : SocketState) (address : Bytes) (port : ℕ) (s : Connection M)
        → is_down s ≡ true
        → s.received_close ≡ true
        → (start wanted address port (reset s)).received_close ≡ true
    unfolding reset start clear_error
    reset-start wanted address port s down asked = rw down asked

    -- A socket that was closed by the other side, is reset and started again, still takes itself to be
    -- closed by the other side wherever the new run of its worker ends.
    pub reset-start-run :
        (wanted : SocketState) (address : Bytes) (port : ℕ) (rounds fuel : ℕ) (s t : Connection M)
        → is_down s ≡ true
        → s.received_close ≡ true
        → run os pb rounds fuel (start wanted address port (reset s)) ≡ some t
        → t.received_close ≡ true
    reset-start-run wanted address port rounds fuel s t down asked ran =
        run-Asked os pb rounds fuel (start wanted address port (reset s)) t
          (reset-start wanted address port s down asked) ran

  -- The destructor calls `close` whenever there is a worker: its test of the state excludes neither
  -- Closed nor Error.
  closes_on_destruction-eq : (s : Connection M) → closes_on_destruction s ≡ s.thread
  unfolding closes_on_destruction
  closes_on_destruction-eq s = ground arith
