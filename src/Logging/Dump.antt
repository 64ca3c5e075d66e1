-- ===== src/Logging/Dump.antt =====
-- The hex dump of `outputBinary`, and the room it takes in its buffer.
use qt_chat.Base.{
  ℕ, zero, suc, ◌+◌, ◌-◌, ◌*◌, ◌/◌, ◌%◌, ◌≤◌, ◌<◌, ◌≡◌, refl, subst, subst, not, ◌&&◌, [], ◌∷◌,
  ◌++◌, arith,
}
use qt_chat.Base.Tests.{if◌then◌else◌, ltb, ◌==◌, if-true}
use qt_chat.Base.Int.{pos}
use qt_chat.Base.Lists.{Str, codes, length, take, drop, is_empty, length-append}
use qt_chat.Server.Models.Text.{decimal, length-decimal}
use qt_chat.Logging.{Log}
use qt_chat.Logging.Lines.{c_text}
use qt_chat.Logging.Thread.{push_line}

zeros : ℕ → Str
zeros zero = []
zeros (suc n) = b'0' ∷ zeros n

-- `ullto4Str`: the number in at least six digits.
six_digits : ℕ → Str
unfolding zeros
six_digits n = zeros (6 - length (decimal (pos n))) ++ decimal (pos n)

hex_digit : ℕ → ℕ
hex_digit d = if ltb d 10 then b'0' + d else b'a' + (d - 10)

-- The start of a row, at each 32nd byte.
row_start : ℕ → ℕ → ℕ → Str
unfolding six_digits
row_start index headlen lsize =
    if lsize % 32 == 0
    then (if headlen == 0 then [] else codes "\n") ++ (six_digits index ++ codes " ")
    else []

head_length : ℕ → ℕ → ℕ → ℕ
unfolding six_digits
head_length index headlen lsize = if lsize % 32 == 0 then length (six_digits index) + 1 else headlen

gap : ℕ → ℕ → Str
gap headlen lsize = if lsize % 16 == 0 && not (headlen == 0) then codes " " else []

-- What one byte adds to the buffer.
byte_text : ℕ → ℕ → ℕ → ℕ → Str
unfolding row_start head_length gap hex_digit
byte_text index headlen lsize b =
    row_start index headlen lsize
    ++ (gap (head_length index headlen lsize) lsize
        ++ (hex_digit (b / 16 % 16) ∷ hex_digit (b % 16) ∷ []))

-- The loop of `formLog`: the next row's index, and the buffer.
pub form_loop : ℕ → ℕ → ℕ → ℕ → Str → Str → ℕ × Str
unfolding byte_text head_length
form_loop size_buf index headlen lsize out [] = (index, out)
form_loop size_buf index headlen lsize out (b ∷ bytes) =
    let rest =
      form_loop size_buf (if lsize % 32 == 0 then suc index else index)
        (head_length index headlen lsize) (suc lsize) (out ++ byte_text index headlen lsize b)
        bytes in
    if ltb (length out + 10) size_buf then rest else (index, out)

-- `formLog`
pub form_log : ℕ → ℕ → Str → ℕ × Str
unfolding form_loop
form_log size_buf index bytes =
    let (next, out) = form_loop size_buf index 0 0 [] bytes in (next, out ++ (10 ∷ 0 ∷ []))

-- The loop of `outputBinary`, with fuel for each byte; what is printed of a buffer ends at its zero.
dump_chunks : ℕ → ℕ → Str → Str
unfolding form_log
dump_chunks zero index bytes = []
dump_chunks (suc fuel) index bytes =
    let (next, out) = form_log 1544 index (take 512 bytes) in
    let rest = dump_chunks fuel next (drop 512 bytes) in
    if is_empty bytes then [] else c_text out ++ rest

-- `outputBinary`; `address` is the text of the pointer.
pub output_binary : Str → Str → Log → Log
unfolding dump_chunks push_line
output_binary address bytes l =
    push_line
      (codes "address["
        ++ (address
            ++ (codes "] size["
                ++ (decimal (pos (length bytes))
                    ++ (codes "] \n" ++ dump_chunks (length bytes) 0 bytes)))))
      l

length-zeros : (n : ℕ) → length (zeros n) ≡ n
unfolding zeros
length-zeros zero = refl
length-zeros (suc n) = omega (arith, length-zeros n)

length-six_digits : (n : ℕ) → length (six_digits n) ≤ 21
unfolding six_digits
length-six_digits n = omega (
  arith,
  length-append (zeros (6 - length (decimal (pos n)))) (decimal (pos n)),
  length-zeros (6 - length (decimal (pos n))),
  length-decimal (pos n),
)

-- The room that the first bytes take at most: two digits each, the start of each row of 32, and a
-- space at each 16th.
room : ℕ → ℕ
room n = 2 * n + 23 * ((n + 31) / 32) + (n + 15) / 16

length-row_start :
    (index headlen lsize : ℕ)
    → length (row_start index headlen lsize) + 23 * ((lsize + 31) / 32) ≤ 23 * ((lsize + 32) / 32)
unfolding row_start
length-row_start index headlen lsize = ground (
  arith,
  length-six_digits index,
  length-append (six_digits index) (codes " "),
  length-append (if headlen == 0 then [] else codes "\n") (six_digits index ++ codes " "),
)

length-gap :
    (headlen lsize : ℕ) → length (gap headlen lsize) + (lsize + 15) / 16 ≤ (lsize + 16) / 16
unfolding gap
length-gap headlen lsize = ground arith

length-byte_text :
    (index headlen lsize b : ℕ)
    → length (byte_text index headlen lsize b) + room lsize ≤ room (suc lsize)
unfolding room byte_text
length-byte_text index headlen lsize b =
    let h = head_length index headlen lsize in
    let digits = hex_digit (b / 16 % 16) ∷ hex_digit (b % 16) ∷ [] in
    omega (
      arith,
      length-row_start index headlen lsize,
      length-gap h lsize,
      length-append (row_start index headlen lsize) (gap h lsize ++ digits),
      length-append (gap h lsize) digits,
    )

room_le : (out : Str) (n : ℕ) → length out ≤ room n → n ≤ 512 → length out ≤ room 512
unfolding room
room_le out n h k = omega arith

room_under : (out : Str) (n : ℕ) → length out ≤ room n → n ≤ 512 → length out + 10 < 1544
unfolding room
room_under out n h k = omega arith

form_loop-fits :
    (index headlen lsize : ℕ) (out bytes : Str)
    → length out ≤ room lsize
    → lsize + length bytes ≤ 512
    → length (form_loop 1544 index headlen lsize out bytes).1 ≤ room 512
unfolding form_loop
form_loop-fits index headlen lsize out [] h k = room_le out lsize h (omega (arith, k))
form_loop-fits index headlen lsize out (b ∷ bytes) h k =
    let text = byte_text index headlen lsize b in
    let next = if lsize % 32 == 0 then suc index else index in
    let h' = head_length index headlen lsize in
    subst (λ r. length r.1 ≤ room 512)
      (if-true (form_loop 1544 next h' (suc lsize) (out ++ text) bytes) (index, out)
        (ground (arith, room_under out lsize h (omega (arith, k)))))
      (form_loop-fits next h' (suc lsize) (out ++ text) bytes
        (omega (arith, length-append out text, length-byte_text index headlen lsize b))
        (omega (arith, k)))

-- On at most 512 bytes, the most that `outputBinary` gives it, `formLog` stays inside the 1544 bytes
-- of its buffer, its newline and its zero included.
form_log_fits :
    (index : ℕ) (bytes : Str) → length bytes ≤ 512 → length (form_log 1544 index bytes).1 ≤ 1544
unfolding form_log room
form_log_fits index bytes h =
    let out = (form_loop 1544 index 0 0 [] bytes).1 in
    omega (
      arith,
      length-append out (10 ∷ 0 ∷ []),
      form_loop-fits index 0 0 [] bytes (omega arith) (omega (arith, h)),
    )

one_row : (form_log 1544 0 (0 ∷ 255 ∷ [])).1 ≡ codes "000000  00ff\n" ++ (0 ∷ [])
unfolding form_log decimal
one_row = refl
