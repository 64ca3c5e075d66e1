-- ===== src/Wire.antt =====
-- The packet format, 4 bytes of length in network order before the JSON body, and the read loop of
-- `ChatServer::onMessage` (ChatServer/src/server/chatserver.cpp). The read loop of the Qt client
-- (QtClient/Client/chatclient.cpp) takes the same decisions, and closes the socket on a bad length.
pub mod Frames
pub mod Stream
pub mod Bodies
use qt_chat.Base.{
  ℕ, zero, suc, ◌+◌, ◌*◌, ◌/◌, ◌%◌, ◌^◌, Bool, true, false, ◌||◌, List, [], ◌∷◌, ◌++◌,
}
use qt_chat.Base.Tests.{ltb, ◌==◌, if◌then◌else◌}
use qt_chat.Base.Lists.{Str, length, take, drop}

-- 1024 * 1024
abbrev pub max_body : ℕ
max_body = 1048576

-- The bytes of `htonl(n)` as they lie in memory.
unfoldable pub be32 : ℕ → Str
be32 n = (n / 2 ^ 24 % 256) ∷ (n / 2 ^ 16 % 256) ∷ (n / 2 ^ 8 % 256) ∷ (n % 256) ∷ []

-- What `sendJson` puts on the connection: the body's size as a `uint32_t`, and the body.
unfoldable pub packet : Str → Str
packet body = be32 (length body % 2 ^ 32) ++ body

-- What the loop finds at the front of the buffer.
pub data Frame : Type 0 where
  incomplete : Frame
  rejected : Frame
  frame : Str → Str → Frame

-- `ntohl` of the four bytes at the front.
unfoldable pub read32 : ℕ → ℕ → ℕ → ℕ → ℕ
read32 a b c d = a * 2 ^ 24 + b * 2 ^ 16 + c * 2 ^ 8 + d

-- The tests on the length, and the two `retrieve` calls.
unfoldable pub cut_frame : ℕ → Str → Frame
cut_frame n r =
    if ltb max_body n || n == 0
    then rejected
    else if ltb (length r) n
    then incomplete
    else frame (take n r) (drop n r)

-- One round of the loop, up to the handler.
unfoldable pub next_frame : Str → Frame
next_frame (a ∷ b ∷ c ∷ d ∷ r) = cut_frame (read32 a b c d) r
next_frame _ = incomplete

module _ {ℓ} {S : Type ℓ} (handle : Str → S → S) (refuse : S → S) where
  -- `refuse` is what the reader does on a bad length besides dropping the buffer.
  -- The loop on fuel: every round takes at least five bytes off the buffer.
  unfoldable pub serve : ℕ → Str → S → Str × S
  serve zero buf s = (buf, s)
  serve (suc fuel) buf s = elim (next_frame buf) [
    | incomplete ↦ (buf, s)
    | rejected ↦ ([], refuse s)
    | frame msg rest ↦ serve fuel rest (handle msg s)
  ]

  -- `ChatServer::onMessage`: what stays in the buffer, and the state after the handlers.
  unfoldable pub on_message : Str → S → Str × S
  unfolding serve
  on_message buf s = serve (length buf) buf s

  -- The connection's buffer grows by what the network delivers, one call for each delivery.
  unfoldable pub deliver : List Str → Str × S → Str × S
  deliver [] st = st
  deliver (chunk ∷ chunks) st = deliver chunks (on_message (st.0 ++ chunk) st.1)
