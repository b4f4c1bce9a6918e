-- ===== src/Connection/Worker/Moves/Outputs.antt =====
-- The packets that a socket writes, and the messages in them.
use lib_arcus.Prelude.{◌≡◌, refl, ap, ◌++◌, List, [], ◌∷◌, Bytes, append_assoc}
use lib_arcus.ByteOrder.{htonl}
use lib_arcus.Environment.{Os, Protobuf}
use lib_arcus.Link.{frame, frames}
use lib_arcus.Connection.{socket_close}

-- What a socket writes in one piece.
pub data Output (M : Type 0) : Type 0 where
  keep_alive : Output M
  message : M → Output M
  goodbye : Output M

module _ {M : Type 0} where
  unfoldable pub bytes_of : Os → Protobuf M → Output M → Bytes
  bytes_of os pb Output.keep_alive = htonl 0
  bytes_of os pb (Output.message m) = frame os pb m
  bytes_of os pb Output.goodbye = htonl socket_close

  unfoldable pub outputs : Os → Protobuf M → List (Output M) → Bytes
  unfolding bytes_of
  outputs os pb [] = []
  outputs os pb (w ∷ ws) = bytes_of os pb w ++ outputs os pb ws

  unfoldable pub messages_in : List (Output M) → List M
  messages_in [] = []
  messages_in (Output.message m ∷ ws) = m ∷ messages_in ws
  messages_in (Output.keep_alive ∷ ws) = messages_in ws
  messages_in (Output.goodbye ∷ ws) = messages_in ws

  pub outputs-append :
      (os : Os) (pb : Protobuf M) (v w : List (Output M))
      → outputs os pb (v ++ w) ≡ outputs os pb v ++ outputs os pb w
  unfolding outputs
  outputs-append os pb [] w = refl
  outputs-append os pb (x ∷ v) w = rw (outputs-append os pb v w, append_assoc) refl

  pub messages_in-append :
      (v w : List (Output M)) → messages_in (v ++ w) ≡ messages_in v ++ messages_in w
  unfolding messages_in
  messages_in-append [] w = refl
  messages_in-append (Output.message m ∷ v) w = ap (◌∷◌ m) (messages_in-append v w)
  messages_in-append (Output.keep_alive ∷ v) w = messages_in-append v w
  messages_in-append (Output.goodbye ∷ v) w = messages_in-append v w

  unfoldable pub framed : List M → List (Output M)
  framed [] = []
  framed (m ∷ ms) = Output.message m ∷ framed ms

  pub outputs-framed :
      (os : Os) (pb : Protobuf M) (ms : List M) → outputs os pb (framed ms) ≡ frames os pb ms
  unfolding outputs framed frames
  outputs-framed os pb [] = refl
  outputs-framed os pb (m ∷ ms) = rw (outputs-framed os pb ms) refl

  pub messages_in-framed : (ms : List M) → messages_in (framed ms) ≡ ms
  unfolding messages_in framed
  messages_in-framed [] = refl
  messages_in-framed (m ∷ ms) = ap (◌∷◌ m) (messages_in-framed ms)
