-- ===== src/Tests/Demo.antt =====
-- A system and a Protocol Buffers library that meet the hypotheses: every call succeeds, `recv` reads
-- on in a fixed stream, and messages are texts of one type.
use lib_arcus.Prelude.{
  ℕ, zero, suc, ◌≤◌, ◌≡◌, refl, ap, true, false, some, [], ◌∷◌, Bytes, text, length, take, drop,
  arith, pos,
}
use lib_arcus.Environment.{Os, Log, Event, Call, Outcome, done, got, Protobuf, IsPosix}
use lib_arcus.Link.{Delivers, SendsAll, is_recv}
use lib_arcus.MessageTypeStore.{add_type, empty_store}
use lib_arcus.Connection.{Connection, new_connection}
use lib_arcus.Connection.Receive.Queue.{Stream}

-- A call that sends takes all, the others return 3 or 0.
answer : Log → Call → Outcome
answer h (Call.send fd bs) = done (length bs)
answer h Call.socket = done 3
answer h (Call.accept fd) = done 4
answer h _ = done 0

zeros : ℕ → Bytes
zeros zero = []
zeros (suc n) = 0 ∷ zeros n

length-zeros : (n : ℕ) → length (zeros n) ≡ n
unfolding zeros
length-zeros zero = refl
length-zeros (suc n) = ap suc (length-zeros n)

module _ (stream : Bytes) where
  unfoldable pub pending : Log → Bytes
  pending [] = stream
  pending (Event.recv fd n ∷ h) = drop n (pending h)
  pending (_ ∷ h) = pending h

  unfoldable pub demo_os : Os
  unfolding answer zeros pending
  demo_os = record {
    answer = answer;
    receive = λ h fd n. got (take n (pending h));
    clock = λ h. 0;
    fresh_memory = λ h n. some (zeros n);
    memory_behind = λ h. [];
    inet_pton = λ a. some 0;
    eagain = 11;
    char_is_signed = true;
  }

  pub sends : SendsAll demo_os
  unfolding demo_os
  sends h fd bs = refl

  length-take-le : (n : ℕ) (xs : Bytes) → length (take n xs) ≤ n
  length-take-le zero xs = omega arith
  length-take-le (suc n) [] = omega arith
  length-take-le (suc n) (x ∷ xs) = omega (arith, length-take-le n xs)

  recv_le : (h : Log) (n : ℕ) (bs : Bytes) → got (take n (pending h)) ≡ got bs → length bs ≤ n
  recv_le h n bs e =
      let same : take n (pending h) ≡ bs = cc in rw (← same) (length-take-le n (pending h))

  fresh_eq : (n : ℕ) (bs : Bytes) → some (zeros n) ≡ some bs → length bs ≡ n
  fresh_eq n bs e = let same : zeros n ≡ bs = cc in rw (← same) (length-zeros n)

  pending-spares : (h : Log) (e : Event) → is_recv e ≡ false → pending (e ∷ h) ≡ pending h
  unfolding pending
  pending-spares h (Event.recv fd n) r = cc
  pending-spares h _ r = refl

  pub posix : IsPosix demo_os
  unfolding demo_os
  posix = record {
    recv_bounded = λ h fd n bs e. recv_le h n bs e;
    eagain_ne_zero = omega arith;
    fresh_length = λ h n bs e. fresh_eq n bs e;
  }

  delivers : Delivers demo_os pending
  unfolding demo_os
  delivers = record {
    gives = λ h fd n l. refl;
    removes = λ h fd n l. refl;
    spares = pending-spares;
  }

  pub demo_os-Stream : Stream demo_os pending
  unfolding demo_os
  demo_os-Stream = record { posix = posix; delivers = delivers; memory = λ h n. (zeros n, refl) }

abbrev pub type_name : Bytes
unfolding text
type_name = text "a.B"

-- A prototype is the empty message.
unfoldable pub demo_pb : Protobuf Bytes
unfolding text
demo_pb = record {
  type_name = λ m. text "a.B";
  descriptor = λ m. 1;
  new_instance = λ m. [];
  byte_size = length;
  serialize = λ m. m;
  parse = λ m bs size limit. some bs;
  import_file = λ h f. record { errors = []; message_types = [] };
}

-- A connection that knows the type, with one listener.
unfoldable pub demo_connection : Connection Bytes
unfolding new_connection add_type
demo_connection = record (new_connection (record { socket_id = pos 3; errno = 0; log = [] })) {
  listeners = 7 ∷ [];
  message_types = add_type (demo_os []) demo_pb [] empty_store;
}
