-- ===== src/Connection/Worker/Opening.antt =====
-- The cases of the `switch` before a connection is there.
use lib_arcus.Prelude.{
  ℕ, ◌≡◌, ap, Bool, true, Option, none, some, List, [], ◌∷◌, if◌then◌else◌, arith,
}
use lib_arcus.Types.{SocketState, ErrorCode}
use lib_arcus.Environment.{Os, Protobuf}
use lib_arcus.PlatformSocket.{PlatformSocket}
use lib_arcus.PlatformSocket
use lib_arcus.Connection.{Connection}
use lib_arcus.Connection.Worker.{
  perform, perform_in, perform_connecting, perform_opening, perform_listening,
}

-- The states in which the connection is made, and the one that follows each.
pub data Makes : SocketState → SocketState → Type 0 where
  connects : Makes SocketState.connecting SocketState.connected
  opens : Makes SocketState.opening SocketState.listening
  listens : Makes SocketState.listening SocketState.connected

-- Something to do on the platform's socket, and the error if it fails.
pub record Attempt : Type 0 where
  pub call : PlatformSocket → Bool × PlatformSocket
  pub code : ErrorCode

abbrev attempt : (PlatformSocket → Bool × PlatformSocket) → ErrorCode → Attempt
attempt call code = record { call = call; code = code }

-- One thing after the other, up to the first that fails.
abbrev pub try_all : List Attempt → PlatformSocket → Option ErrorCode × PlatformSocket
try_all [] p = (none, p)
try_all (a ∷ rest) p =
    let (done, q) = a.call p in let r = try_all rest q in if done then r else (some a.code, q)

module _ {M : Type 0} where
  -- What has to be done in each state, in order. Listening goes on whether `listen` works or not.
  abbrev pub attempts : {st next : SocketState} → Makes st next → Os → Connection M → List Attempt
  attempts Makes.connects os s =
      attempt (PlatformSocket.create os) ErrorCode.creation_error
      ∷ attempt (PlatformSocket.connect os s.address s.port) ErrorCode.connect_failed_error
      ∷ attempt (PlatformSocket.set_receive_timeout os 250) ErrorCode.connect_failed_error
      ∷ []
  attempts Makes.opens os s =
      attempt (PlatformSocket.create os) ErrorCode.creation_error
      ∷ attempt (PlatformSocket.bind os s.address s.port) ErrorCode.bind_failed_error
      ∷ []
  attempts Makes.listens os s =
      attempt (λ p. PlatformSocket.accept os (PlatformSocket.listen os 1 p).1)
        ErrorCode.accept_failed_error
      ∷ attempt (PlatformSocket.set_receive_timeout os 250) ErrorCode.accept_failed_error
      ∷ []

  -- All went well and only the next state and the platform's socket are other than before, or the
  -- code is that of a fatal error.
  abbrev pub Advances :
      SocketState → Option ErrorCode × PlatformSocket → Connection M → Connection M → Type 0
  Advances next (none, p) s t = t ≡ record s { platform_socket = p; next_state = next }
  Advances next (some code, p) s t =
      (t.next_state ≡ SocketState.error)
      × (t.last_error.fatal_error ≡ true)
      × (t.last_error.error_code ≡ code)

  module _ (os : Os) (s : Connection M) where
    perform_connecting-Advances :
        Advances SocketState.connected
          (try_all (attempts Makes.connects os s) s.platform_socket)
          s
          (perform_connecting os s)
    unfolding perform_connecting
    perform_connecting-Advances = ground arith

    perform_opening-Advances :
        Advances SocketState.listening
          (try_all (attempts Makes.opens os s) s.platform_socket)
          s
          (perform_opening os s)
    unfolding perform_opening
    perform_opening-Advances = ground arith

    perform_listening-Advances :
        Advances SocketState.connected
          (try_all (attempts Makes.listens os s) s.platform_socket)
          s
          (perform_listening os s)
    unfolding perform_listening
    perform_listening-Advances = ground arith

    -- The pass of the `switch` in Connecting, Opening or Listening always ends. It makes the calls of
    -- its list in their order: creating, connecting with the address and the port, and setting the
    -- receive timeout; creating and binding; or listening and accepting, and setting the receive
    -- timeout. If all work, it goes on to Connected, Listening or Connected, and changes nothing but
    -- the next state and the platform's socket. Otherwise it goes to Error, and the last error is
    -- fatal and has the code that belongs to the first call that failed.
    pub perform-Advances :
        (pb : Protobuf M) (fuel : ℕ) {st next : SocketState} (way : Makes st next)
        → s.state ≡ st
        → (t : Connection M) × (perform os pb fuel s ≡ some t)
          × Advances next (try_all (attempts way os s) s.platform_socket) s t
    unfolding perform perform_in
    perform-Advances pb fuel Makes.connects here =
        (_, ap (λ st. perform_in os pb st fuel s) here, perform_connecting-Advances)
    perform-Advances pb fuel Makes.opens here =
        (_, ap (λ st. perform_in os pb st fuel s) here, perform_opening-Advances)
    perform-Advances pb fuel Makes.listens here =
        (_, ap (λ st. perform_in os pb st fuel s) here, perform_listening-Advances)
