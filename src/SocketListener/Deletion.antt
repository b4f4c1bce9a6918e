-- ===== src/SocketListener/Deletion.antt =====
-- The loop over the listeners in the destructor of src/Socket.cpp.
use lib_arcus.Prelude.{
  ℕ, ◌≤◌, ◌+◌, ◌≡◌, refl, sym, ap, ◌∙◌, Option, none, some, List, [], ◌∷◌, ◌++◌, ◌==◌, ==-refl, ◌⊎◌,
  inl, inr, Bool-cases, false, if◌then◌else◌, arith,
}
use lib_arcus.Socket.Listeners.{erase_first, behind}
use lib_arcus.SocketListener.{SocketListener, Listeners, put, delete_listener, delete_listeners}

-- How often a listener stands in a list.
unfoldable pub count : ℕ → List ℕ → ℕ
count l [] = 0
count l (k ∷ ks) = (if l == k then 1 else 0) + count l ks

-- How often a listener can be deleted.
abbrev pub lives : SocketListener → ℕ
lives (SocketListener.alive _) = 1
lives SocketListener.deleted = 0

listener-cases :
    (x : SocketListener)
    → ((o : Option ℕ) × (x ≡ SocketListener.alive o)) ⊎ (x ≡ SocketListener.deleted)
listener-cases (SocketListener.alive o) = inl (o, refl)
listener-cases SocketListener.deleted = inr refl

-- A listener that is deleted has one life less, and no other has.
lives-put :
    (k : ℕ) (o : Option ℕ) (store : Listeners)
    → store k ≡ SocketListener.alive o
    → (l : ℕ)
    → lives (put k SocketListener.deleted store l) + (if l == k then 1 else 0) ≡ lives (store l)
unfolding put
lives-put k o store live l = ground (arith, live)

put-other :
    (k : ℕ) (store : Listeners) (l : ℕ)
    → (l == k) ≡ false
    → put k SocketListener.deleted store l ≡ store l
unfolding put
put-other k store l other = ground (arith, other)

module _ (k : ℕ) (ks : List ℕ) (store : Listeners) where
  delete-alive :
      (o : Option ℕ)
      → store k ≡ SocketListener.alive o
      → delete_listeners (k ∷ ks) store ≡ delete_listeners ks (put k SocketListener.deleted store)
  unfolding delete_listeners delete_listener
  delete-alive o live = rw (delete_listeners, live) refl

  delete-deleted : store k ≡ SocketListener.deleted → delete_listeners (k ∷ ks) store ≡ none
  unfolding delete_listeners delete_listener
  delete-deleted dead = rw (delete_listeners, dead) refl

-- The destructor's loop takes one life of each listener for each time that it is listed.
pub delete-lives :
    (ls : List ℕ) (store store' : Listeners)
    → delete_listeners ls store ≡ some store'
    → (l : ℕ) → lives (store' l) + count l ls ≡ lives (store l)
unfolding delete_listeners count
delete-lives [] store store' e l =
    let e' : some store ≡ some store' = e in
    let same : store ≡ store' = cc in omega (arith, ap (λ (s : Listeners). lives (s l)) same)
delete-lives (k ∷ ks) store store' e l = elim (listener-cases (store k)) [
  | inl (o, live) ↦
      let ih =
        delete-lives ks (put k SocketListener.deleted store) store'
          (sym (delete-alive k ks store o live) ∙ e) l in
      omega (arith, ih, lives-put k o store live l)
  | inr dead ↦ absurd (let none_left = sym (delete-deleted k ks store dead) ∙ e in cc)
]

-- It ends without a use of a deleted listener where each is listed at most as often as it can be deleted.
pub delete-enough :
    (ls : List ℕ) (store : Listeners)
    → ((l : ℕ) → count l ls ≤ lives (store l))
    → (store' : Listeners) × (delete_listeners ls store ≡ some store')
unfolding delete_listeners count
delete-enough [] store owned = (store, refl)
delete-enough (k ∷ ks) store owned = elim (listener-cases (store k)) [
  | inl (o, live) ↦
      let (store', e) =
        delete-enough ks (put k SocketListener.deleted store)
          (λ l. omega (arith, owned l, lives-put k o store live l)) in
      (store', delete-alive k ks store o live ∙ e)
  | inr dead ↦ absurd (ground (arith, owned k, dead, ==-refl k))
]

pub count-append :
    (l k : ℕ) (ls : List ℕ) → count l (ls ++ k ∷ []) ≡ count l ls + (if l == k then 1 else 0)
unfolding count
count-append l k [] = omega arith
count-append l k (x ∷ ls) = omega (arith, count-append l k ls)

behind-some :
    (x : ℕ) (o : Option (List ℕ)) (rest : List ℕ)
    → behind x o ≡ some rest
    → (r : List ℕ) × (o ≡ some r) × (x ∷ r ≡ rest)
behind-some x none rest e = absurd cc
behind-some x (some r) rest e = (r, refl, cc)

pub count-erase_first :
    (l k : ℕ) (ls rest : List ℕ)
    → erase_first k ls ≡ some rest
    → count l rest + (if l == k then 1 else 0) ≡ count l ls
unfolding count erase_first
count-erase_first l k [] rest e = absurd cc
count-erase_first l k (x ∷ ls) rest e = elim (Bool-cases (x == k)) [
  | inl here ↦
      let same : ls ≡ rest = ground (arith, here, e) in ground (arith, here, ap (count l) same)
  | inr other ↦
      let (r, found, eq) = behind-some x (erase_first k ls) rest (ground (arith, other, e)) in
      omega (arith, count-erase_first l k ls r found, ap (count l) eq)
]

-- A listener that is not listed stays as it is.
pub delete-others :
    (ls : List ℕ) (store store' : Listeners)
    → delete_listeners ls store ≡ some store'
    → (l : ℕ) → count l ls ≡ 0
    → store' l ≡ store l
unfolding delete_listeners count
delete-others [] store store' e l absent =
    let e' : some store ≡ some store' = e in
    let same : store ≡ store' = cc in ap (λ (s : Listeners). s l) (sym same)
delete-others (k ∷ ks) store store' e l absent = elim (listener-cases (store k)) [
  | inl (o, live) ↦
      let ih =
        delete-others ks (put k SocketListener.deleted store) store'
          (sym (delete-alive k ks store o live) ∙ e) l (omega arith) in
      ih ∙ put-other k store l (ground (arith, absent))
  | inr dead ↦ absurd (let none_left = sym (delete-deleted k ks store dead) ∙ e in cc)
]
