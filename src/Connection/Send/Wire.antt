-- ===== src/Connection/Send/Wire.antt =====
-- What `sendMessage` puts on the wire.
use lib_arcus.Prelude.{◌≡◌, refl, ap, ◌∙◌, ◌++◌, List, [], ◌∷◌, append_assoc, append-nil}
use lib_arcus.Environment.{Os, Protobuf}
use lib_arcus.Link.{frame, frames, sent, SendsAll}
use lib_arcus.Connection.{Connection, with_log}
use lib_arcus.Connection.Send.{send_message}
use lib_arcus.Connection.Worker.{send_messages}

-- Where every `send` takes all its bytes, `sendMessage` adds exactly the message's frame to what was
-- sent, and changes nothing but the log.
pub sent-send_message :
    {M : Type 0} (os : Os) (pb : Protobuf M)
    → SendsAll os
    → (m : M) (s : Connection M)
    → let t = send_message os pb m s in
      (sent t.platform_socket.log ≡ sent s.platform_socket.log ++ frame os pb m)
      × (t ≡ with_log t.platform_socket.log s)
unfolding send_message frame
sent-send_message os pb sends m s = (simp (sends, append_assoc), simp sends)

-- Where every `send` takes all its bytes, sending several messages adds their frames in their order,
-- and changes nothing but the log.
pub sent-send_messages :
    {M : Type 0} (os : Os) (pb : Protobuf M)
    → SendsAll os
    → (ms : List M) (s : Connection M)
    → let t = send_messages os pb ms s in
      (sent t.platform_socket.log ≡ sent s.platform_socket.log ++ frames os pb ms)
      × (t ≡ with_log t.platform_socket.log s)
unfolding send_messages frames
sent-send_messages os pb sends [] s = (rw append-nil, refl)
sent-send_messages os pb sends (m ∷ ms) s =
    let (bytes, same) = sent-send_message os pb sends m s in
    let (bytes', same') = sent-send_messages os pb sends ms (send_message os pb m s) in
    (rw (bytes', bytes, append_assoc), same' ∙ ap (with_log _) same)
