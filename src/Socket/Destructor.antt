-- ===== src/Socket/Destructor.antt =====
-- The destructor of src/Socket.cpp.
pub mod Outcomes
use lib_arcus.Prelude.{Option, none, some, if◌then◌else◌}
use lib_arcus.Environment.{Os}
use lib_arcus.Connection.{Connection}
use lib_arcus.Socket.{Closed, close, close_joined, closes_on_destruction}
use lib_arcus.SocketListener.{Listeners, delete_listeners}

-- Where the destructor stands when it gives up control.
pub data Destroyed (M : Type 0) : Type 0 where
  -- It has returned.
  destroyed : Listeners → Destroyed M
  -- It waits in `thread->join()`, called by `close`.
  joining : Connection M → Destroyed M
  -- `delete` of a thread that was not joined has called `std::terminate`.
  terminated : Destroyed M
  -- It has used a listener that was deleted.
  undefined : Destroyed M

module _ {M : Type 0} where
  abbrev finished : Option Listeners → Destroyed M
  finished none = Destroyed.undefined
  finished (some store) = Destroyed.destroyed store

  -- `delete d->thread`, where null is deleted in vain, and the loop over the listeners.
  unfoldable pub delete_parts : Connection M → Listeners → Destroyed M
  unfolding delete_listeners
  delete_parts s store =
      if s.thread then Destroyed.terminated else finished (delete_listeners s.listeners store)

  abbrev behind_close : Closed M → Listeners → Destroyed M
  behind_close (Closed.returned t) store = delete_parts t store
  behind_close (Closed.joining t) store = Destroyed.joining t

  unfoldable pub destroy : Os → Connection M → Listeners → Destroyed M
  unfolding close closes_on_destruction delete_parts
  destroy os s store =
      if s.thread
      then (if closes_on_destruction s
          then behind_close (close os s) store
          else delete_parts s store)
      else delete_parts s store

  -- What follows the join: the end of `close`, and the rest of the destructor.
  unfoldable pub destroy_joined : Connection M → Listeners → Destroyed M
  unfolding close_joined delete_parts
  destroy_joined s store = delete_parts (close_joined s) store
