-- ===== src/Wire/Frames.antt =====
-- One packet against one round of the read loop.
use qt_chat.Base.{ℕ, ◌/◌, ◌%◌, ◌^◌, ◌≤◌, ◌<◌, ◌≡◌, refl, ap, [], ◌∷◌, ◌++◌, arith}
use qt_chat.Base.Lists.{
  Str, length, length-append, length-drop, take-append_length, drop-append_length,
}
use qt_chat.Wire.{max_body, be32, packet, rejected, frame, read32, cut_frame, next_frame}

-- A body that the peer accepts.
abbrev pub Fits : Str → Type 0
Fits body = (0 < length body) × (length body ≤ max_body)

pub read32-be32 :
    (n : ℕ)
    → n < 2 ^ 32
    → read32
        (n % 2 ^ 32 / 2 ^ 24 % 256)
        (n % 2 ^ 32 / 2 ^ 16 % 256)
        (n % 2 ^ 32 / 2 ^ 8 % 256)
        (n % 2 ^ 32 % 256)
      ≡ n
unfolding read32
read32-be32 n h = omega arith

next_frame-header :
    (body r : Str)
    → length body < 2 ^ 32
    → next_frame (packet body ++ r) ≡ cut_frame (length body) (body ++ r)
unfolding next_frame packet be32
next_frame-header body r h = ap (λ n. cut_frame n (body ++ r)) (read32-be32 (length body) h)

-- A packet with a body of 1 byte to 1 MiB comes out of the reader as it went in, whatever follows it.
pub next_frame-packet :
    (body rest : Str) → Fits body → next_frame (packet body ++ rest) ≡ frame body rest
unfolding cut_frame
next_frame-packet body rest h = rw (next_frame-header body rest (omega arith)) (
    ground (
      arith,
      length-append body rest,
      take-append_length (length body) body rest refl,
      drop-append_length (length body) body rest refl,
    ))

pub next_frame-packet_large :
    (body rest : Str)
    → max_body < length body
    → length body < 2 ^ 32
    → next_frame (packet body ++ rest) ≡ rejected
unfolding cut_frame
next_frame-packet_large body rest h k = rw (next_frame-header body rest k) (ground arith)

pub next_frame_shrinks :
    (buf msg rest : Str) → next_frame buf ≡ frame msg rest → length rest < length buf
unfolding next_frame cut_frame
next_frame_shrinks [] msg rest e = ground arith
next_frame_shrinks (a ∷ []) msg rest e = ground arith
next_frame_shrinks (a ∷ b ∷ []) msg rest e = ground arith
next_frame_shrinks (a ∷ b ∷ c ∷ []) msg rest e = ground arith
next_frame_shrinks (a ∷ b ∷ c ∷ d ∷ r) msg rest e = ground (arith, length-drop (read32 a b c d) r)
