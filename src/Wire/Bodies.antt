-- ===== src/Wire/Bodies.antt =====
-- The packets that the reader takes whole are those of bodies of 1 byte to 1 MiB.
use std.HLevel.{Σ_prop_path}
use mathlib.Core.Equiv.{Iso, IsEquiv, iso_to_equiv}
use qt_chat.Base.{
  ℕ, zero, suc, ◌+◌, ◌*◌, ◌/◌, ◌%◌, ◌^◌, ◌<◌, ◌≤◌, Bool, true, false, ◌&&◌, [], ◌∷◌, ◌≡◌, refl, sym,
  ap, ◌∙◌, append-nil, arith,
}
use qt_chat.Base.Tests.{ltb, leb}
use qt_chat.Base.Lists.{Str, length, take, drop, is_empty, length-drop}
use qt_chat.Wire.{
  max_body, be32, packet, Frame, incomplete, rejected, frame, read32, cut_frame, next_frame,
}
use qt_chat.Wire.Frames.{next_frame-packet}

unfoldable are_bytes : Str → Bool
are_bytes [] = true
are_bytes (c ∷ s) = ltb c 256 && are_bytes s

abbrev fits : Str → Bool
fits b = ltb 0 (length b) && leb (length b) max_body

-- One packet and nothing after it.
abbrev is_whole : Frame → Bool
is_whole incomplete = false
is_whole rejected = false
is_whole (frame b rest) = is_empty rest

abbrev body_of : Frame → Str
body_of incomplete = []
body_of rejected = []
body_of (frame b rest) = b

-- Bodies that fit, and texts that the reader takes as one packet.
abbrev Body : Type 0
Body = (s : Str) × (are_bytes s && fits s ≡ true)

abbrev Taken : Type 0
Taken = (s : Str) × (are_bytes s && is_whole (next_frame s) ≡ true)

are_bytes-packet : (b : Str) → are_bytes b ≡ true → are_bytes (packet b) ≡ true
unfolding are_bytes be32 packet
are_bytes-packet b h = ground (arith, h)

be32-read32 :
    (a b c d : ℕ)
    → a < 256
    → b < 256
    → c < 256
    → d < 256
    → be32 (read32 a b c d % 2 ^ 32) ≡ a ∷ b ∷ c ∷ d ∷ []
unfolding be32 read32
be32-read32 a b c d ha hb hc hd =
    let n : ℕ = (a * 2 ^ 24 + b * 2 ^ 16 + c * 2 ^ 8 + d) % 2 ^ 32 in
    let ea : n / 2 ^ 24 % 256 ≡ a = omega arith in
    let eb : n / 2 ^ 16 % 256 ≡ b = omega arith in
    let ec : n / 2 ^ 8 % 256 ≡ c = omega arith in
    let ed : n % 256 ≡ d = omega arith in cc (ea, eb, ec, ed)

is_empty-length : (s : Str) → is_empty s ≡ true → length s ≡ 0
is_empty-length [] h = refl
is_empty-length (c ∷ s) h = ground (arith, h)

cut-whole :
    (n : ℕ) (r : Str)
    → is_whole (cut_frame n r) ≡ true
    → (length r ≡ n) × (body_of (cut_frame n r) ≡ take n r) × (fits r ≡ true)
unfolding cut_frame
cut-whole n r h = ground (arith, h, length-drop n r, is_empty-length (drop n r))

take_all : (n : ℕ) (s : Str) → length s ≤ n → take n s ≡ s
take_all zero [] h = refl
take_all (suc n) [] h = refl
take_all zero (c ∷ s) h = absurd (omega arith)
take_all (suc n) (c ∷ s) h = ap (◌∷◌ c) (take_all n s (omega arith))

cut-body : (n : ℕ) (r : Str) → is_whole (cut_frame n r) ≡ true → body_of (cut_frame n r) ≡ r
cut-body n r h =
    let e : (length r ≡ n) × (body_of (cut_frame n r) ≡ take n r) × (fits r ≡ true) =
      cut-whole n r h in
    e.1 ∙ take_all n r (omega (arith, e.0))

-- A whole packet is the packet of its body.
whole-packet :
    (s : Str)
    → are_bytes s && is_whole (next_frame s) ≡ true
    → (packet (body_of (next_frame s)) ≡ s)
      × (are_bytes (body_of (next_frame s)) && fits (body_of (next_frame s)) ≡ true)
unfolding are_bytes packet next_frame
whole-packet [] h = absurd (ground (arith, h))
whole-packet (a ∷ []) h = absurd (ground (arith, h))
whole-packet (a ∷ b ∷ []) h = absurd (ground (arith, h))
whole-packet (a ∷ b ∷ c ∷ []) h = absurd (ground (arith, h))
whole-packet (a ∷ b ∷ c ∷ d ∷ r) h =
    let w : is_whole (cut_frame (read32 a b c d) r) ≡ true = ground (arith, h) in
    let hb : are_bytes r ≡ true = ground (arith, h) in
    let e : (length r ≡ read32 a b c d)
        × (body_of (cut_frame (read32 a b c d) r) ≡ take (read32 a b c d) r)
        × (fits r ≡ true) =
      cut-whole (read32 a b c d) r w in
    let ha : (a < 256) × (b < 256) × (c < 256) × (d < 256) = ground (arith, h) in
    rw (cut-body (read32 a b c d) r w, e.0, be32-read32 a b c d ha.0 ha.1 ha.2 ha.3)
      (refl, ground (arith, hb, e.2))

packet-whole : (b : Str) → are_bytes b && fits b ≡ true → next_frame (packet b) ≡ frame b []
packet-whole b h =
    ap next_frame (sym (append-nil (packet b))) ∙ next_frame-packet b [] (ground (arith, h))

packet-Taken :
    (b : Str)
    → are_bytes b && fits b ≡ true
    → are_bytes (packet b) && is_whole (next_frame (packet b)) ≡ true
packet-Taken b h = rw (packet-whole b h) (ground (arith, h, are_bytes-packet b))

unfoldable to_packet : Body → Taken
to_packet b = (packet b.0, packet-Taken b.0 b.1)

packet_iso : Iso Body Taken
unfolding to_packet
packet_iso = record {
  fun = to_packet;
  inv = λ s. (body_of (next_frame s.0), (whole-packet s.0 s.1).1);
  rinv = λ s. Σ_prop_path (λ x. hlevel) (whole-packet s.0 s.1).0;
  linv = λ b. Σ_prop_path (λ x. hlevel) (ap body_of (packet-whole b.0 b.1));
}

-- Putting the length before a body is an equivalence between the byte strings of 1 byte to 1 MiB
-- and the byte strings that the read loop takes as one packet with nothing after it: each such
-- string is the packet of exactly one body.
packet_IsEquiv : IsEquiv to_packet
unfolding to_packet packet_iso
packet_IsEquiv = (iso_to_equiv packet_iso).1
