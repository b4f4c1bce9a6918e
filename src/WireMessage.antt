-- ===== src/WireMessage.antt =====
-- src/WireMessage_p.h: a message that is being received.
use lib_arcus.Prelude.{
  ℕ, ◌+◌, ◌-◌, ◌%◌, ◌^◌, ◌++◌, Bool, true, Option, none, some, Bytes, length, take, drop, leb,
}
use lib_arcus.Environment.{Os, Log}

-- enum class MessageState.
pub data MessageState : Type 0 where
  header size type data_ dispatch : MessageState

-- `data` is the buffer, `none` for the null pointer.
pub record WireMessage : Type 0 where
  pub state : MessageState
  pub size : ℕ
  pub received_size : ℕ
  pub valid : Bool
  pub type : ℕ
  pub buffer : Option Bytes

-- WireMessage().
unfoldable pub new_wire_message : WireMessage
new_wire_message = record {
  state = MessageState.header;
  size = 0;
  received_size = 0;
  valid = true;
  type = 0;
  buffer = none;
}

-- `size - received_size` in 32 bits.
unfoldable pub get_remaining_size : WireMessage → ℕ
get_remaining_size m = (m.size + 2 ^ 32 - m.received_size) % 2 ^ 32

-- `none` where `new` throws `std::bad_alloc`.
unfoldable pub allocate_data : Os → Log → WireMessage → Option WireMessage
allocate_data os h m = elim (os.fresh_memory h m.size) [
  | none ↦ none
  | some bs ↦ some (record m { buffer = some bs })
]

unfoldable pub is_complete : WireMessage → Bool
is_complete m = leb m.size m.received_size

-- The buffer after `bs` is stored from the offset `at` on.
unfoldable pub store_at : ℕ → Bytes → Bytes → Bytes
store_at at bs buffer = take at buffer ++ bs ++ drop (at + length bs) buffer
