-- ===== src/Tests/WireRuns.antt =====
-- The read loop's theorems on a stream of two packets, delivered in three pieces.
use qt_chat.Base.{ℕ, suc, ◌≡◌, refl, [], ◌∷◌, arith}
use qt_chat.Base.Lists.{Str, codes}
use qt_chat.Wire.{be32, packet, incomplete, next_frame, on_message, deliver}
use qt_chat.Wire.Stream.{deliver-stream, on_message_drains}

abbrev count : Str → ℕ → ℕ
count body n = suc n

deliver-stream_example :
    deliver count suc ((0 ∷ []) ∷ (0 ∷ 0 ∷ 1 ∷ 65 ∷ 0 ∷ []) ∷ (0 ∷ 0 ∷ 1 ∷ 66 ∷ []) ∷ []) ([], 0)
    ≡ ([], 2)
unfolding packet be32
deliver-stream_example =
    deliver-stream count suc ((0 ∷ []) ∷ (0 ∷ 0 ∷ 1 ∷ 65 ∷ 0 ∷ []) ∷ (0 ∷ 0 ∷ 1 ∷ 66 ∷ []) ∷ [])
      (codes "A" ∷ codes "B" ∷ []) 0 ((omega arith, omega arith), ((omega arith, omega arith), tt))
      refl

on_message_drains_example : next_frame (on_message count suc (0 ∷ 0 ∷ 0 ∷ []) 0).0 ≡ incomplete
on_message_drains_example = on_message_drains count suc (0 ∷ 0 ∷ 0 ∷ []) 0
