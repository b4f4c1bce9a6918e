-- ===== src/SocketListener.antt =====
-- src/SocketListener.cpp: the listeners of a socket as objects of the application, which know the
-- socket that they listen to, and which the socket's destructor in src/Socket.cpp deletes.
pub mod Deletion
pub mod Ownership
use lib_arcus.Prelude.{ℕ, Option, none, some, List, [], ◌∷◌, ◌==◌, if◌then◌else◌}
use lib_arcus.Connection.{Connection}
use lib_arcus.Socket.{not_initial}
use lib_arcus.Socket

-- A listener with its `_socket`, the address of a socket or null.
pub data SocketListener : Type 0 where
  alive : Option ℕ → SocketListener
  deleted : SocketListener

-- The listeners by their addresses.
abbrev pub Listeners : Type 0
Listeners = ℕ → SocketListener

unfoldable pub new_listener : SocketListener
new_listener = SocketListener.alive none

-- `none` stands for the use of a listener that was deleted.
unfoldable pub get_socket : SocketListener → Option (Option ℕ)
get_socket (SocketListener.alive socket) = some socket
get_socket SocketListener.deleted = none

unfoldable pub set_socket : Option ℕ → SocketListener → Option SocketListener
set_socket socket (SocketListener.alive _) = some (SocketListener.alive socket)
set_socket socket SocketListener.deleted = none

unfoldable pub put : ℕ → SocketListener → Listeners → Listeners
put l x store k = if k == l then x else store k

module _ {M : Type 0} where
  attached :
      ℕ → Connection M → Listeners → Option SocketListener → Option (Connection M × Listeners)
  unfolding put Socket.add_listener
  attached l s store none = none
  attached l s store (some x) = some (Socket.add_listener l s, put l x store)

  -- `Socket::addListener` of the socket at the address `this`.
  unfoldable pub add_listener : ℕ → ℕ → Connection M → Listeners → Option (Connection M × Listeners)
  unfolding attached set_socket Socket.add_listener
  add_listener this l s store =
      if not_initial s
      then some (Socket.add_listener l s, store)
      else attached l s store (set_socket (some this) (store l))

-- `delete`.
delete : SocketListener → Option SocketListener
delete (SocketListener.alive _) = some SocketListener.deleted
delete SocketListener.deleted = none

-- The destructor's body for one listener: `_socket = nullptr`, and `delete`.
unfoldable pub delete_listener : SocketListener → Option SocketListener
unfolding set_socket delete
delete_listener x = elim (set_socket none x) [ none ↦ none | some y ↦ delete y ]

-- The destructor's loop over the listeners.
unfoldable pub delete_listeners : List ℕ → Listeners → Option Listeners
unfolding delete_listener put
delete_listeners [] store = some store
delete_listeners (l ∷ ls) store = elim (delete_listener (store l)) [
  | none ↦ none
  | some x ↦ delete_listeners ls (put l x store)
]
