-- ===== src/Socket/Destructor/Outcomes.antt =====
-- How the destructor of src/Socket.cpp ends.
use lib_arcus.Prelude.{
  ℕ, ◌≡◌, refl, ◌||◌, ◌⊎◌, inl, inr, true, false, [], Bool, if◌then◌else◌, Bool-cases, arith,
}
use lib_arcus.Types.{SocketState, same_state}
use lib_arcus.Environment.{Os}
use lib_arcus.Connection.{Connection, error}
use lib_arcus.Socket.{close, close_joined, closes_on_destruction, is_down, abort, notify_waiting}
use lib_arcus.SocketListener.{Listeners}
use lib_arcus.SocketListener.Ownership.{
  Attached, Frees, Uses, Uses-Attached, Attached-delete_listeners,
}
use lib_arcus.Socket.Destructor.{Destroyed, destroy, destroy_joined, delete_parts}

module _ {M : Type 0} (os : Os) where
  -- `close` does not wait for a worker in these states.
  abbrev pub is_idle : Connection M → Bool
  is_idle s = is_down s || same_state s.state SocketState.initial

  destroy-free :
      (s : Connection M) (store : Listeners)
      → s.thread ≡ false
      → destroy os s store ≡ delete_parts s store
  unfolding destroy
  destroy-free s store free = ground (arith, free)

  pub destroy-idle :
      (s : Connection M) (store : Listeners)
      → s.thread ≡ true
      → is_idle s ≡ true
      → destroy os s store ≡ Destroyed.terminated
  unfolding destroy close closes_on_destruction delete_parts error notify_waiting
  destroy-idle s store worker idle = ground (arith, worker, idle)

  -- How `close` makes the worker end.
  abbrev asks : Connection M → Connection M
  unfolding abort
  asks s =
      if same_state s.state SocketState.connected
      then record s { next_state = SocketState.closing }
      else abort os s

  destroy-busy :
      (s : Connection M) (store : Listeners)
      → s.thread ≡ true
      → is_idle s ≡ false
      → destroy os s store ≡ Destroyed.joining (asks s)
  unfolding destroy close closes_on_destruction abort
  destroy-busy s store worker busy = ground (arith, worker, busy)

  asks-listeners : (s : Connection M) → (asks s).listeners ≡ s.listeners
  unfolding abort
  asks-listeners s = ground arith

  module _ (this : ℕ) where
    -- What is left of the destructor with the worker gone.
    abbrev pub Ends : Connection M → Listeners → Destroyed M → Type 0
    Ends s store d =
        (store' : Listeners) × (d ≡ Destroyed.destroyed store') × Frees this s store store'

    delete_parts-Ends :
        (s u : Connection M) (store : Listeners)
        → Attached this s store
        → u.listeners ≡ s.listeners
        → u.thread ≡ false
        → Ends s store (delete_parts u store)
    unfolding delete_parts
    delete_parts-Ends s u store a same free =
        let (store', e, frees) = Attached-delete_listeners this s store a in
        (store', rw (free, same, e) refl, frees)

    -- Let a socket that was made without listeners have been given only listeners that live and that
    -- were not listed yet, and be destroyed. Without a worker, its destructor deletes each listener in
    -- its list, which is there once and knows the socket, uses none that was deleted, and leaves
    -- the others as they are. With a worker that was not joined, it calls `std::terminate` in Initial,
    -- Closed and Error; and in every other state it waits for the worker, and does with a connection `u`
    -- that has the same listeners, as the worker may leave it, what it does without a worker.
    pub Uses-destroy :
        {s : Connection M} {store : Listeners} {t : Connection M} {store' : Listeners}
        → s.listeners ≡ []
        → Uses this s store t store'
        → (u : Connection M) → u.listeners ≡ t.listeners
        → ((t.thread ≡ false) × Ends t store' (destroy os t store'))
          ⊎ ((t.thread ≡ true) × (is_idle t ≡ true) × (destroy os t store' ≡ Destroyed.terminated))
          ⊎ ((t.thread ≡ true)
              × (is_idle t ≡ false)
              × ((asked : Connection M) × (destroy os t store' ≡ Destroyed.joining asked)
                  × (asked.listeners ≡ t.listeners)
                  × Ends t store' (destroy_joined u store')))
    unfolding destroy_joined close_joined notify_waiting
    Uses-destroy {s} {store} {t} {store'} none_yet uses u same =
        let a = Uses-Attached this none_yet uses in
        elim (Bool-cases t.thread) [
          | inr free ↦
              inl (free, rw (destroy-free t store' free) (delete_parts-Ends t t store' a refl free))
          | inl worker ↦ elim (Bool-cases (is_idle t)) [
            | inl idle ↦ inr (inl (worker, idle, destroy-idle t store' worker idle))
            | inr busy ↦ inr (
                inr (
                  worker,
                  busy,
                  (
                    asks t,
                    destroy-busy t store' worker busy,
                    asks-listeners t,
                    delete_parts-Ends t (close_joined u) store' a same refl,
                  ),
                ))
          ]
        ]
