-- ===== src/SocketListener/Ownership.antt =====
-- Which listeners a socket owns: addListener and removeListener of src/Socket.cpp.
use lib_arcus.Prelude.{ℕ, ◌≡◌, ap, ◌∙◌, Option, some, [], ◌∷◌, ◌++◌, ◌⊎◌, inl, inr, arith}
use lib_arcus.Connection.{Connection, error}
use lib_arcus.Socket
use lib_arcus.Socket.{not_initial}
use lib_arcus.Socket.Listeners.{erase_first}
use lib_arcus.SocketListener.Deletion.{
  count, lives, delete-lives, delete-enough, delete-others, count-append, count-erase_first,
}
use lib_arcus.SocketListener.{
  SocketListener, Listeners, set_socket, get_socket, put, add_listener, delete_listeners,
}

lives-zero : (x : SocketListener) → lives x ≡ 0 → x ≡ SocketListener.deleted
lives-zero x e = ground (arith, e)

module _ {M : Type 0} (this : ℕ) where
  -- Every listener of the socket is one that lives, is listed once, and knows the socket.
  abbrev pub Attached : Connection M → Listeners → Type 0
  Attached s store =
      (l : ℕ)
      → (count l s.listeners ≡ 0)
        ⊎ ((count l s.listeners ≡ 1) × (store l ≡ SocketListener.alive (some this)))

  -- What the application does with a socket and its listeners: it adds one that lives and is not among
  -- them, or removes one; nothing else that a socket does changes its list.
  pub data Uses (s : Connection M) (store : Listeners) : Connection M → Listeners → Type 0 where
    begins : Uses s store s store
    adds :
        {t u : Connection M} {store' store'' : Listeners} (l : ℕ) (o : Option ℕ)
        → Uses s store t store'
        → store' l ≡ SocketListener.alive o
        → count l t.listeners ≡ 0
        → add_listener this l t store' ≡ some (u, store'')
        → Uses s store u store''
    removes :
        {t u : Connection M} {store' : Listeners} (l : ℕ)
        → Uses s store t store'
        → Socket.remove_listener l t ≡ some u
        → Uses s store u store'
    goes_on :
        {t u : Connection M} {store' : Listeners}
        → Uses s store t store'
        → u.listeners ≡ t.listeners
        → Uses s store u store'

  add_listener-cases :
      (l : ℕ) (o : Option ℕ) (t u : Connection M) (store store' : Listeners)
      → store l ≡ SocketListener.alive o
      → add_listener this l t store ≡ some (u, store')
      → ((u.listeners ≡ t.listeners) × (store' ≡ store))
        ⊎ ((u.listeners ≡ t.listeners ++ l ∷ [])
            × (store' ≡ put l (SocketListener.alive (some this)) store))
  unfolding add_listener Socket.add_listener set_socket error
  add_listener-cases l o t u store store' live e = ground (arith, live, e)

  remove_listener-cases :
      (l : ℕ) (t u : Connection M)
      → Socket.remove_listener l t ≡ some u
      → (u.listeners ≡ t.listeners) ⊎ (erase_first l t.listeners ≡ some u.listeners)
  unfolding Socket.remove_listener error
  remove_listener-cases l t u e = ground (arith, e)

  add_listener-Attached :
      (l : ℕ) (o : Option ℕ) (t u : Connection M) (store store' : Listeners)
      → store l ≡ SocketListener.alive o
      → count l t.listeners ≡ 0
      → add_listener this l t store ≡ some (u, store')
      → Attached t store
      → Attached u store'
  unfolding put
  add_listener-Attached l o t u store store' live new e a k =
      elim (add_listener-cases l o t u store store' live e) [
        | inl (same, kept) ↦ rw (same, kept) (a k)
        | inr (more, set) ↦
            let counted = ap (count k) more ∙ count-append k l t.listeners in
            ground (arith, counted, ap (λ (s : Listeners). s k) set, a k, new)
      ]

  remove_listener-Attached :
      (l : ℕ) (t u : Connection M) (store : Listeners)
      → Socket.remove_listener l t ≡ some u
      → Attached t store
      → Attached u store
  remove_listener-Attached l t u store e a k = elim (remove_listener-cases l t u e) [
    | inl same ↦ rw same (a k)
    | inr erased ↦ ground (arith, count-erase_first k l t.listeners u.listeners erased, a k)
  ]

  pub Uses-Attached :
      {s : Connection M} {store : Listeners} {t : Connection M} {store' : Listeners}
      → s.listeners ≡ []
      → Uses s store t store'
      → Attached t store'
  unfolding count
  Uses-Attached none_yet begins = λ l. inl (ap (count l) none_yet)
  Uses-Attached none_yet (adds {t} {u} {store'} {store''} l o before live new e) =
      add_listener-Attached l o t u store' store'' live new e (Uses-Attached none_yet before)
  Uses-Attached none_yet (removes {t} {u} {store'} l before e) =
      remove_listener-Attached l t u store' e (Uses-Attached none_yet before)
  Uses-Attached none_yet (goes_on before same) =
      λ l. ground (arith, ap (count l) same, Uses-Attached none_yet before l)

  -- The listeners of the socket are deleted, once each, and the others stay.
  abbrev pub Frees : Connection M → Listeners → Listeners → Type 0
  Frees t store store' =
      (l : ℕ)
      → ((count l t.listeners ≡ 0) × (store' l ≡ store l))
        ⊎ ((count l t.listeners ≡ 1)
            × (get_socket (store l) ≡ some (some this))
            × (store' l ≡ SocketListener.deleted))

  pub Attached-delete_listeners :
      (t : Connection M) (store : Listeners)
      → Attached t store
      → (store' : Listeners) × (delete_listeners t.listeners store ≡ some store')
        × Frees t store store'
  unfolding get_socket
  Attached-delete_listeners t store a =
      let (store', e) = delete-enough t.listeners store (λ l. ground (arith, a l)) in
      (
        store',
        e,
        λ l. elim (a l) [
          | inl absent ↦ inl (absent, delete-others t.listeners store store' e l absent)
          | inr (once, here) ↦
              let left = delete-lives t.listeners store store' e l in
              inr
                (once, ap get_socket here, lives-zero (store' l) (ground (arith, left, once, here)))
        ],
      )
