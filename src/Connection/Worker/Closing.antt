-- ===== src/Connection/Worker/Closing.antt =====
-- The two ways of closing a connection.
use lib_arcus.Prelude.{
  ℕ, zero, suc, ◌<◌, ◌≤◌, ◌≡◌, refl, ap, ◌∙◌, ◌≢◌, inl, inr, true, false, none, some, ◌∷◌, ◌*◌,
  Bytes, length, length-drop, arith, ℤ, pos, negsuc, Bool-cases, ◌==◌, not, ◌&&◌, take, length-take,
  ltb,
}
use lib_arcus.Types.{SocketState, same_state}
use lib_arcus.ByteOrder.{ntohl}
use lib_arcus.Environment.{Os, Log, Event, got, recv_failed, IsPosix}
use lib_arcus.Link.{Delivers}
use lib_arcus.Connection.{Connection, read_u32, socket_close}
use lib_arcus.Connection.Receive.Delivery.{log_of}
use lib_arcus.Connection.Worker.{await_close}

-- A peer that stays silent: every `recv` runs into the timeout.
abbrev pub IsSilent : Os → Type 0
IsSilent os = (h : Log) (fd : ℤ) (n : ℕ) → os.receive h fd n ≡ recv_failed os.eagain

-- A peer that has ended its stream: `recv` gives what is left, if at least what it is asked for, and
-- else fewer bytes than that, at the end none.
pub record IsEnded (os : Os) (pending : Log → Bytes) : Type 0 where
  pub delivers : Delivers os pending
  pub ends :
      (h : Log) (fd : ℤ) (n : ℕ) → length (pending h) < n → os.receive h fd n ≡ got (pending h)

module _ {M : Type 0} (os : Os) where
  read_u32-silent :
      (word : ℕ) (s : Connection M)
      → IsSilent os
      → read_u32 os word s ≡ (
        pos 0,
        word,
        record s {
          platform_socket = record s.platform_socket {
            errno = os.eagain;
            log = Event.recv s.platform_socket.socket_id 4 ∷ log_of s;
          };
        },
      )
  unfolding read_u32
  read_u32-silent word s silent = ground (arith, silent (log_of s) s.platform_socket.socket_id 4)

  -- While the peer is silent the wait for its confirmation does not end, however long it is, in a
  -- connection that is closing and has not read SOCKET_CLOSE yet: there is no limit on the wait.
  pub await_close_silent :
      (fuel word : ℕ) (s : Connection M)
      → IsSilent os
      → s.next_state ≡ SocketState.closing
      → word ≢ socket_close
      → await_close os fuel word s ≡ none
  unfolding await_close
  await_close_silent zero word s silent closing other = refl
  await_close_silent (suc f) word s silent closing other =
      let more : (not (word == socket_close) && same_state s.next_state SocketState.closing)
          ≡ true =
        ground arith in
      rw (more, read_u32-silent word s silent)
        (await_close_silent f word
          (record s {
            platform_socket = record s.platform_socket {
              errno = os.eagain;
              log = Event.recv s.platform_socket.socket_id 4 ∷ log_of s;
            };
          })
          silent closing other)

  after_recv4 : ℕ → Connection M → Connection M
  after_recv4 e s = record s {
    platform_socket = record s.platform_socket {
      errno = e;
      log = Event.recv s.platform_socket.socket_id 4 ∷ log_of s;
    };
  }

  read_u32-full :
      (word : ℕ) (s : Connection M) (bs : Bytes)
      → os.receive (log_of s) s.platform_socket.socket_id 4 ≡ got bs
      → length bs ≡ 4
      → read_u32 os word s ≡ (pos 4, ntohl bs, after_recv4 0 s)
  unfolding read_u32 after_recv4
  read_u32-full word s bs given four = rw given (simp four)

  read_u32-short :
      (word : ℕ) (s : Connection M) (bs : Bytes)
      → IsPosix os
      → os.receive (log_of s) s.platform_socket.socket_id 4 ≡ got bs
      → length bs < 4
      → read_u32 os word s ≡ (negsuc 0, word, after_recv4 0 s)
  unfolding read_u32 after_recv4
  read_u32-short word s bs posix given short =
      let other : (length bs == 4) ≡ false = ground arith in
      let good : (0 == os.eagain) ≡ false = ground (arith, posix.eagain_ne_zero) in
      rw given (rw (other, good))

  module _ {pending : Log → Bytes} (posix : IsPosix os) (ended : IsEnded os pending) where
    open ended use {delivers, ends}

    -- Once the peer has ended its stream the wait for its confirmation ends, with fuel for one
    -- round to every four bytes that are left and one more.
    pub await_close_ended :
        (fuel word : ℕ) (s : Connection M)
        → length (pending (log_of s)) < 4 * fuel
        → (t : Connection M) × (await_close os fuel word s ≡ some t)
    unfolding await_close after_recv4
    await_close_ended zero word s h = absurd (omega arith)
    await_close_ended (suc f) word s h =
        elim (Bool-cases
          (not (word == socket_close) && same_state s.next_state SocketState.closing)) [
            | inr over ↦ (s, rw over)
            | inl more ↦ elim (Bool-cases (ltb (length (pending (log_of s))) 4)) [
              | inl short ↦
                  let less : length (pending (log_of s)) < 4 = ground arith in
                  (after_recv4 0 s, rw (more, read_u32-short word s _ posix (ends _ _ 4 less) less))
              | inr long ↦
                  let enough : 4 ≤ length (pending (log_of s)) = ground arith in
                  let bs = take 4 (pending (log_of s)) in
                  let left =
                    ap length (delivers.removes (log_of s) s.platform_socket.socket_id 4 enough)
                    ∙ length-drop 4 (pending (log_of s)) in
                  let (t, e) = await_close_ended f (ntohl bs) (after_recv4 0 s) (omega arith) in
                  (
                    t,
                    rw
                        (
                          more,
                          read_u32-full word s bs (delivers.gives _ _ 4 enough)
                              (length-take 4 _ enough),
                        )
                        e,
                  )
            ]
          ]
