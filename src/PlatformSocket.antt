-- ===== src/PlatformSocket.antt =====
-- src/PlatformSocket.cpp as it is built for POSIX: the wrapper around the socket calls.
pub mod Io
use lib_arcus.Prelude.{
  ℕ, zero, suc, ◌*◌, Bool, true, false, not, ◌&&◌, [], ◌∷◌, Bytes, length, ◌==◌, equals,
  if◌then◌else◌, ℤ, pos, negsuc, is_minus_one, is_zero, is_positive, is_nonpositive,
}
use lib_arcus.ByteOrder.{htonl, ntohl, htons}
use lib_arcus.Environment.{
  Os, Log, Event, Call, Outcome, done, failed, Received, got, recv_failed, SockAddr,
  ShutdownDirection,
}

-- The descriptor, with the two things that its calls share with the system: `errno`, and the log of
-- what happened so far.
pub record PlatformSocket : Type 0 where
  pub socket_id : ℤ
  pub errno : ℕ
  pub log : Log

abbrev pub happens : Event → PlatformSocket → PlatformSocket
happens e p = record p { log = e ∷ p.log }

-- The return value of a call, which sets `errno` where it fails.
unfoldable pub answered : PlatformSocket → Outcome → ℤ × PlatformSocket
answered p (done n) = (pos n, p)
answered p (failed e) = (negsuc zero, record p { errno = e })

unfoldable pub received : PlatformSocket → Received → ℤ × Bytes × PlatformSocket
received p (got bs) = (pos (length bs), bs, p)
received p (recv_failed e) = (negsuc zero, [], record p { errno = e })

module _ (os : Os) where
  unfoldable pub syscall : Call → PlatformSocket → ℤ × PlatformSocket
  unfolding answered
  syscall c p = answered (happens (Event.call c) p) (os.answer p.log c)

  unfoldable pub recv_call : ℕ → PlatformSocket → ℤ × Bytes × PlatformSocket
  unfolding received
  recv_call n p = received (happens (Event.recv p.socket_id n) p) (os.receive p.log p.socket_id n)

  -- An address that cannot be read leaves `sin_addr` uninitialised: the result is not tested.
  unfoldable pub create_address : Bytes → ℕ → SockAddr
  unfolding htons
  create_address address port = record { sin_addr = os.inet_pton address; sin_port = htons port }

  unfoldable pub create : PlatformSocket → Bool × PlatformSocket
  unfolding syscall
  create p =
      let (fd, q) = syscall Call.socket p in (not (is_minus_one fd), record q { socket_id = fd })

  unfoldable pub connect : Bytes → ℕ → PlatformSocket → Bool × PlatformSocket
  unfolding syscall
  connect address port p =
      let (result, q) = syscall (Call.connect p.socket_id (create_address address port)) p in
      (is_zero result, q)

  unfoldable pub bind : Bytes → ℕ → PlatformSocket → Bool × PlatformSocket
  unfolding syscall
  bind address port p =
      let (result, q) = syscall (Call.bind p.socket_id (create_address address port)) p in
      (is_zero result, q)

  unfoldable pub listen : ℕ → PlatformSocket → Bool × PlatformSocket
  unfolding syscall
  listen backlog p =
      let (result, q) = syscall (Call.listen p.socket_id backlog) p in (is_zero result, q)

  unfoldable pub close : PlatformSocket → Bool × PlatformSocket
  unfolding syscall
  close p = let (result, q) = syscall (Call.close p.socket_id) p in (is_zero result, q)

  -- The listening descriptor is closed in either case, and kept where no connection came.
  unfoldable pub accept : PlatformSocket → Bool × PlatformSocket
  unfolding syscall
  accept p =
      let (new_socket, q) = syscall (Call.accept p.socket_id) p in
      let (_, r) = syscall (Call.close q.socket_id) q in
      if is_minus_one new_socket then (false, r) else (true, record r { socket_id = new_socket })

  unfoldable pub shutdown : ShutdownDirection → PlatformSocket → Bool × PlatformSocket
  unfolding syscall
  shutdown direction p =
      let (result, q) = syscall (Call.shutdown p.socket_id direction) p in (is_zero result, q)

  -- The loop of `flush` over its 256-byte buffer, `while(num > 0) num = recv(...)`, on fuel.
  flush_loop : ℕ → ℤ → PlatformSocket → PlatformSocket
  unfolding recv_call
  flush_loop zero num p = p
  flush_loop (suc f) num p =
      let (num', _, q) = recv_call 256 p in
      let rest = flush_loop f num' q in if is_positive num then rest else p

  -- The loop starts from `num = 0`.
  unfoldable pub flush : ℕ → PlatformSocket → PlatformSocket
  unfolding flush_loop
  flush fuel p = flush_loop fuel (pos 0) p

  unfoldable pub write_u32 : ℕ → PlatformSocket → ℤ × PlatformSocket
  unfolding syscall
  write_u32 w p = syscall (Call.send p.socket_id (htonl w)) p

  unfoldable pub write_bytes : Bytes → PlatformSocket → ℤ × PlatformSocket
  unfolding syscall
  write_bytes bs p = syscall (Call.send p.socket_id bs) p

  -- `output` is the word that the pointer leads to, given back changed or not.
  unfoldable pub read_u32 : ℕ → PlatformSocket → ℤ × ℕ × PlatformSocket
  unfolding recv_call
  read_u32 output p =
      let (num, buffer, q) = recv_call 4 (record p { errno = 0 }) in
      if equals num 4
      then (num, ntohl buffer, q)
      else if q.errno == os.eagain
      then (pos 0, output, q)
      else (negsuc zero, output, q)

  -- The bytes that the call stores, with its result.
  unfoldable pub read_bytes : ℕ → PlatformSocket → ℤ × Bytes × PlatformSocket
  unfolding recv_call
  read_bytes size p =
      let (num, bs, q) = recv_call size (record p { errno = 0 }) in
      if is_nonpositive num && (q.errno == os.eagain) then (pos 0, [], q) else (num, bs, q)

  unfoldable pub set_receive_timeout : ℕ → PlatformSocket → Bool × PlatformSocket
  unfolding syscall
  set_receive_timeout timeout p =
      let (result, q) = syscall (Call.set_receive_timeout p.socket_id 0 (timeout * 1000)) p in
      (is_zero result, q)

unfoldable pub get_native_error_code : PlatformSocket → ℤ
get_native_error_code p = pos p.errno
