-- ===== src/Connection/Receive/Buffer.antt =====
-- The buffer of a message that is being received: nothing is written outside it.
use lib_arcus.Prelude.{
  negsuc, is_negative, ap, ◌∙◌, ℕ, text, ◌+◌, ◌^◌, ◌≤◌, ◌<◌, ◌≡◌, refl, ◌∙◌, ◌++◌, true, false,
  Option, none, some, Option-cases, Bool-cases, inl, inr, Bytes, length, take, drop, length-append,
  length-take, length-drop, arith,
}
use mathlib.Core.Path.{subst}
use lib_arcus.ByteOrder.{ntohl-lt}
use lib_arcus.Integers.{to_int32, to_int32-id, to_int32-cases}
use lib_arcus.Environment.{Os, Protobuf, IsPosix}
use lib_arcus.PlatformSocket
use lib_arcus.PlatformSocket.Io.{read_bytes-bounded}
use lib_arcus.Types.{ErrorCode}
use lib_arcus.Connection.Receive.Delivery.{log_of}
use lib_arcus.WireMessage.{
  WireMessage, MessageState, new_wire_message, get_remaining_size, allocate_data, store_at,
}
use lib_arcus.Connection.{Connection, error, fatal_error, read_u32}
use lib_arcus.Connection.Receive.{
  receive_next_message, receive_header, check_header, reject, receive_size, receive_type, allocate,
  receive_data, take_in, dispatch, message_at_hand, bytes_of, in_state,
}
use lib_arcus.Connection.Receive.Ensures.{Ensures, Ensures-and_then, Ensures-outcome}

-- Before the buffer is made nothing has been received.
pub record IsEmpty (m : WireMessage) : Type 0 where
  pub size_lt : m.size < 2 ^ 32
  pub nothing : m.received_size ≡ 0

-- The buffer has the size of the message, and what was received fits into it.
pub record IsFilling (m : WireMessage) : Type 0 where
  pub size_lt : m.size < 2 ^ 32
  pub fits : m.received_size ≤ m.size
  pub buffer_size : length (bytes_of m.buffer) ≡ m.size

abbrev IsSoundIn : MessageState → WireMessage → Type 0
IsSoundIn MessageState.header m = IsEmpty m
IsSoundIn MessageState.size m = IsEmpty m
IsSoundIn MessageState.type m = IsEmpty m
IsSoundIn MessageState.data_ m = IsFilling m
IsSoundIn MessageState.dispatch m = IsFilling m

abbrev pub IsSound : WireMessage → Type 0
IsSound m = IsSoundIn m.state m

-- No message, or a sound one.
abbrev pub KeptIsSound : Option WireMessage → Type 0
KeptIsSound none = Unit {0}
KeptIsSound (some m) = IsSound m

length-store_at :
    (at : ℕ) (bs buffer : Bytes)
    → at + length bs ≤ length buffer
    → length (store_at at bs buffer) ≡ length buffer
unfolding store_at
length-store_at at bs buffer h = omega (
  arith,
  length-append (take at buffer) (bs ++ drop (at + length bs) buffer),
  length-append (take at buffer ++ bs) (drop (at + length bs) buffer),
  length-append (take at buffer) bs,
  length-append bs (drop (at + length bs) buffer),
  length-take at buffer,
  length-drop (at + length bs) buffer,
)

-- A message that is filling never asks for more than what is left of its buffer.
pub get_remaining_size-IsFilling :
    (m : WireMessage)
    → IsFilling m
    → m.received_size + get_remaining_size m ≡ length (bytes_of m.buffer)
unfolding get_remaining_size
get_remaining_size-IsFilling m f = omega arith

-- What `recv` gives for the rest of a buffer is stored inside it.
pub take_in-IsFilling :
    (m : WireMessage) (bs : Bytes)
    → IsFilling m
    → length bs ≤ get_remaining_size m
    → IsFilling (take_in (length bs) bs m)
unfolding take_in
take_in-IsFilling m bs f h =
    let room = get_remaining_size-IsFilling m f in
    record {
      size_lt = f.size_lt;
      fits = omega (arith, f.fits, f.size_lt, f.buffer_size);
      buffer_size =
          length-store_at m.received_size bs (bytes_of m.buffer) (omega arith) ∙ f.buffer_size;
    }

in_state-eq : (a b : MessageState) → in_state a b ≡ true → a ≡ b
in_state-eq a b h = ground arith

at_state : (m : WireMessage) (st : MessageState) → m.state ≡ st → IsSound m → IsSoundIn st m
at_state m st e = subst (λ st. IsSoundIn st m) e

sized-IsSound :
    (size : ℕ) (m : WireMessage)
    → size < 2 ^ 32
    → IsSound m
    → m.state ≡ MessageState.size
    → IsSound (record m { size = size; state = MessageState.type })
sized-IsSound size m lt sound here = record {
  size_lt = lt;
  nothing = (at_state m MessageState.size here sound).nothing;
}

at_hand-IsSound : (c : Option WireMessage) → KeptIsSound c → IsSound (message_at_hand c)
unfolding message_at_hand new_wire_message
at_hand-IsSound none h = record { size_lt = omega arith; nothing = refl }
at_hand-IsSound (some m) h = h

module _ {M : Type 0} (os : Os) (posix : IsPosix os) where
  abbrev P : Connection M → Type 0
  P s = KeptIsSound s.current_message

  abbrev Q : WireMessage → Connection M → Type 0
  Q m s = IsSound m

  check_header-IsSound :
      (header : ℕ) (m : WireMessage) (s : Connection M)
      → IsSound m
      → m.state ≡ MessageState.header
      → Ensures P Q (check_header os header m s)
  unfolding check_header reject
  check_header-IsSound header m s sound here =
      let e : IsEmpty m = at_state m MessageState.header here sound in ground arith

  read_u32-lt :
      (output : ℕ) (s : Connection M) → output < 2 ^ 32 → (read_u32 os output s).1 < 2 ^ 32
  unfolding read_u32
  read_u32-lt output s h = grind (arith, ntohl-lt)

  receive_header-IsSound :
      (m : WireMessage) (s : Connection M) → IsSound m → Ensures P Q (receive_header os m s)
  unfolding receive_header
  receive_header-IsSound m s sound = elim (Bool-cases (in_state m.state MessageState.header)) [
    | inl here ↦ simp here (check_header-IsSound _ m _ sound (in_state-eq _ _ here))
    | inr other ↦ simp other sound
  ]

  receive_size-IsSound :
      (m : WireMessage) (s : Connection M) → IsSound m → Ensures P Q (receive_size os m s)
  unfolding receive_size reject
  receive_size-IsSound m s sound = elim (Bool-cases (in_state m.state MessageState.size)) [
    | inl here ↦
        let sized =
          sized-IsSound (read_u32 os 0 s).1 m (read_u32-lt 0 s (omega arith)) sound
            (in_state-eq _ _ here) in
        ground (arith, sized)
    | inr other ↦ simp other sound
  ]

  allocate-IsSound :
      (type : ℕ) (m : WireMessage) (s : Connection M)
      → IsEmpty m
      → Ensures P Q (allocate os type m s)
  unfolding allocate allocate_data fatal_error
  allocate-IsSound type m s e = elim (Option-cases (os.fresh_memory (log_of s) m.size)) [
    | inl out ↦ rw (out, allocate) tt
    | inr (bs, made) ↦
        rw (made, allocate)
          (record {
            size_lt = e.size_lt;
            fits = omega (arith, e.nothing);
            buffer_size = posix.fresh_length _ _ bs made;
          })
  ]

  receive_type-IsSound :
      (m : WireMessage) (s : Connection M) → IsSound m → Ensures P Q (receive_type os m s)
  unfolding receive_type
  receive_type-IsSound m s sound = elim (Bool-cases (in_state m.state MessageState.type)) [
    | inl here ↦
        let e = at_state m MessageState.type (in_state-eq _ _ here) sound in
        let (result, type, t) = read_u32 os 0 s in
        ground (
          arith,
          allocate-IsSound type (record m { valid = false })
              (error ErrorCode.receive_failed_error (text "Receiving type failed") t)
              (record { size_lt = e.size_lt; nothing = e.nothing }),
          allocate-IsSound type m t e,
        )
    | inr other ↦ simp other sound
  ]

  receive_data-IsSound :
      (m : WireMessage) (s : Connection M) → IsSound m → Ensures P Q (receive_data os m s)
  unfolding receive_data
  receive_data-IsSound m s sound = elim (Bool-cases (in_state m.state MessageState.data_)) [
    | inl here ↦
        let f = at_state m MessageState.data_ (in_state-eq _ _ here) sound in
        elim (read_bytes-bounded os s.platform_socket posix (get_remaining_size m)) [
          | inl failed ↦
              let int = ap to_int32 failed ∙ to_int32-id (negsuc 0) (omega arith) in
              simp (here, int) tt
          | inr (count, le) ↦
              let filled =
                take_in-IsFilling m
                  (PlatformSocket.read_bytes os (get_remaining_size m) s.platform_socket).1 f le in
              let bs = (PlatformSocket.read_bytes os (get_remaining_size m) s.platform_socket).1 in
              let lt : length bs < 2 ^ 32 =
                omega (arith, le, get_remaining_size-IsFilling m f, f.buffer_size, f.size_lt) in
              elim (to_int32-cases (length bs) lt) [
                | inl same ↦
                    let int = ap to_int32 count ∙ same in simp (here, int) (ground (arith, filled))
                | inr wrapped ↦
                    let int = ap (λ z. is_negative (to_int32 z)) count ∙ wrapped in
                    simp (here, int) tt
              ]
        ]
    | inr other ↦ simp other sound
  ]

  dispatch-IsSound :
      (pb : Protobuf M) (m : WireMessage) (s : Connection M)
      → IsSound m
      → Ensures P (λ m. P) (dispatch os pb m s)
  unfolding dispatch
  dispatch-IsSound pb m s sound = ground arith

  -- Whatever the system answers, `receiveNextMessage` keeps the message that is being received sound:
  -- its buffer has the size that was announced, and what was received fits into it.
  pub receive_next_message-IsSound :
      (pb : Protobuf M) (s : Connection M) → P s → P (receive_next_message os pb s)
  unfolding receive_next_message
  receive_next_message-IsSound pb s sound = Ensures-outcome P _ (
      Ensures-and_then P Q _ _ _ (receive_header-IsSound _ s (at_hand-IsSound _ sound)) λ m s q.
        Ensures-and_then P Q _ _ _ (receive_size-IsSound m s q) λ m s q.
          Ensures-and_then P Q _ _ _ (receive_type-IsSound m s q)
            λ m s q. Ensures-and_then P Q _ _ _ (receive_data-IsSound m s q) (dispatch-IsSound pb))
