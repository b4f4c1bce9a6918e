-- ===== src/Connection/Worker/Moves/Ranks.antt =====
-- Where the worker can stand in which state, and which states it asks for.
use lib_arcus.Prelude.{ℕ, ◌≤◌, ◌≡◌, refl, ◌⊎◌, inl, inr, true, false, arith, Bool-cases}
use lib_arcus.Types.{SocketState}
use lib_arcus.Environment.{Os, Protobuf}
use lib_arcus.Connection.{Connection, error, write_u32, read_u32}
use lib_arcus.Connection.Receive.Leads.{receive_next_message-Leads}
use lib_arcus.Connection.Worker.{is_over, request_close, confirm_close, flush_send_queue}
use lib_arcus.Connection.Worker.Transitions.{
  check_connection_state-next, flush_send_queue-next, finish_closing-state,
}
use lib_arcus.Connection.Worker.Runs.{commit-state}
use lib_arcus.Connection.Worker.Moves.{Pc, move, enters}

-- The order in which a socket goes through its states; Opening stands beside Connecting.
abbrev pub rank : SocketState → ℕ
rank SocketState.initial = 0
rank SocketState.connecting = 1
rank SocketState.opening = 1
rank SocketState.listening = 2
rank SocketState.connected = 3
rank SocketState.closing = 4
rank SocketState.closed = 5
rank SocketState.error = 5

-- Where the worker stands, it has found this state, and no thread but the worker leaves it.
abbrev pub Fits : Pc → SocketState → Type 0
Fits Pc.absent st = Unit {0}
Fits Pc.looping st = Unit {0}
Fits Pc.created st = st ≡ SocketState.connecting
Fits Pc.binding st = st ≡ SocketState.opening
Fits Pc.accepting st = st ≡ SocketState.listening
Fits (Pc.timing code message) st = (st ≡ SocketState.connecting) ⊎ (st ≡ SocketState.listening)
Fits (Pc.assigning next) st = (is_over st ≡ false) × (1 ≤ rank st) × (rank st ≤ rank next)
Fits Pc.flushed st = st ≡ SocketState.connected
Fits Pc.received st = st ≡ SocketState.connected
Fits (Pc.waiting word) st = st ≡ SocketState.closing
Fits Pc.finishing st = st ≡ SocketState.closing
Fits Pc.switched st = is_over st ≡ false
Fits Pc.ended st = is_over st ≡ true

-- The next state is no step back, while the worker may make it the state.
abbrev pub IsAhead : {M : Type 0} → Connection M → Type 0
IsAhead s = (is_over s.state ≡ true) ⊎ (rank s.state ≤ rank s.next_state)

-- A move keeps these, and the state does not go back.
abbrev pub Ascends : {M : Type 0} → Connection M → Pc × Connection M → Type 0
Ascends s (p, t) = Fits p t.state × IsAhead t × (rank s.state ≤ rank t.state)

module _ {M : Type 0} (os : Os) (pb : Protobuf M) where
  request_close-next :
      (s : Connection M)
      → ((request_close os s).state ≡ s.state) × ((request_close os s).next_state ≡ s.next_state)
  unfolding request_close error write_u32
  request_close-next s = (refl, refl)

  confirm_close-next :
      (s : Connection M)
      → ((confirm_close os s).state ≡ s.state) × ((confirm_close os s).next_state ≡ s.next_state)
  unfolding confirm_close write_u32
  confirm_close-next s = (refl, refl)

  read_u32-next :
      (word : ℕ) (s : Connection M)
      → let t = (read_u32 os word s).2 in (t.state ≡ s.state) × (t.next_state ≡ s.next_state)
  unfolding read_u32
  read_u32-next word s = (refl, refl)

  enters-Ascends :
      (s : Connection M) (st : SocketState)
      → s.state ≡ st
      → is_over st ≡ false
      → IsAhead s
      → Ascends s (enters os pb st s)
  unfolding enters
  enters-Ascends s SocketState.connecting here going ahead = ground arith
  enters-Ascends s SocketState.opening here going ahead = ground arith
  enters-Ascends s SocketState.listening here going ahead = ground arith
  enters-Ascends s SocketState.connected here going ahead =
      ground (arith, flush_send_queue-next os pb s)
  enters-Ascends s SocketState.closing here going ahead = ground (
    arith,
    flush_send_queue-next os pb s,
    request_close-next (flush_send_queue os pb s),
    confirm_close-next s,
  )
  enters-Ascends s SocketState.initial here going ahead = ground arith
  enters-Ascends s SocketState.closed here going ahead = ground arith
  enters-Ascends s SocketState.error here going ahead = ground arith

  pub move-Ascends :
      (p : Pc) (s : Connection M) → Fits p s.state → IsAhead s → Ascends s (move os pb p s)
  unfolding move
  move-Ascends Pc.absent s fits ahead = ground arith
  move-Ascends Pc.looping s fits ahead = elim (Bool-cases (is_over s.state)) [
    | inl over ↦ simp over (refl, inl refl, omega arith)
    | inr going ↦ simp going (enters-Ascends s s.state refl going ahead)
  ]
  move-Ascends Pc.created s fits ahead = ground arith
  move-Ascends Pc.binding s fits ahead = ground arith
  move-Ascends Pc.accepting s fits ahead = ground arith
  move-Ascends (Pc.timing code message) s fits ahead = ground arith
  move-Ascends (Pc.assigning st) s fits ahead = ground arith
  move-Ascends Pc.flushed s fits ahead = ground (arith, receive_next_message-Leads os pb s)
  move-Ascends Pc.received s fits ahead = ground (arith, check_connection_state-next os s)
  move-Ascends (Pc.waiting word) s fits ahead = ground (arith, read_u32-next word s)
  move-Ascends Pc.finishing s fits ahead = ground (arith, finish_closing-state os pb s)
  move-Ascends Pc.switched s fits ahead = ground (arith, commit-state os pb s)
  move-Ascends Pc.ended s fits ahead = ground arith
