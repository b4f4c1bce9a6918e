-- ===== src/Tests/Listening.antt =====
-- A socket and its listeners.
use lib_arcus.Prelude.{◌≡◌, refl, ◌⊎◌, true, false, some, none, [], ◌∷◌, Bytes, pos}
use lib_arcus.Connection.{Connection, new_connection}
use lib_arcus.Socket.{add_listener, remove_listener}
use lib_arcus.Socket.Listeners.{erase_first}
use lib_arcus.SocketListener.{
  SocketListener, alive, deleted, Listeners, get_socket, put, delete_listeners, set_socket,
  new_listener,
}
use lib_arcus.SocketListener
use lib_arcus.SocketListener.Deletion.{count}
use lib_arcus.SocketListener.Ownership.{Uses, begins, adds, removes}
use lib_arcus.Socket.Destructor.{Destroyed, destroy, destroy_joined}
use lib_arcus.Socket.Destructor.Outcomes.{Ends, is_idle, Uses-destroy}
use lib_arcus.Tests.Demo.{demo_os}
use lib_arcus.Environment.{Os}

abbrev made : Connection Bytes
made = new_connection (record { socket_id = pos 3; errno = 0; log = [] })

abbrev os : Os
os = demo_os []

-- Two listeners that no socket knows, and others that were deleted.
abbrev store : Listeners
store = put 7 new_listener (put 8 new_listener (λ l. SocketListener.deleted))

abbrev with_first : Connection Bytes
with_first = add_listener 7 made

abbrev with_both : Connection Bytes
with_both = add_listener 8 with_first

abbrev known : Listeners
known = put 8 (SocketListener.alive (some 1)) (put 7 (SocketListener.alive (some 1)) store)

abbrev without : Connection Bytes
without = record with_both { listeners = 8 ∷ [] }

-- Both are added, and the first is removed again.
uses : Uses 1 made store without known
unfolding new_connection add_listener remove_listener SocketListener.add_listener new_listener put
    set_socket count erase_first
uses =
    removes {t = with_both} 7
      (adds {t = with_first} 8 none (adds {t = made} 7 none begins refl refl refl) refl refl refl)
      refl

Uses-destroy_example :
    ((without.thread ≡ false) × Ends os 1 without known (destroy os without known))
    ⊎ ((without.thread ≡ true)
        × (is_idle os without ≡ true)
        × (destroy os without known ≡ Destroyed.terminated))
    ⊎ ((without.thread ≡ true)
        × (is_idle os without ≡ false)
        × ((asked : Connection Bytes) × (destroy os without known ≡ Destroyed.joining asked)
            × (asked.listeners ≡ without.listeners)
            × Ends os 1 without known (destroy_joined without known)))
unfolding new_connection
Uses-destroy_example = Uses-destroy os 1 refl uses without refl
