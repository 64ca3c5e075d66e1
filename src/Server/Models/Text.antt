-- ===== src/Server/Models/Text.antt =====
-- `atoi` on a column's text and `%d` in a statement, as the models use them.
use qt_chat.Base.{
  ℕ, zero, suc, ◌+◌, ◌*◌, ◌-◌, ◌/◌, ◌%◌, ◌^◌, ◌<◌, ◌≤◌, ◌≡◌, refl, sym, ap, ◌∙◌, Bool, true, false,
  ◌&&◌, ◌||◌, [], ◌∷◌, arith,
}
use qt_chat.Base.Tests.{if◌then◌else◌, if-false, leb, ◌==◌}
use qt_chat.Base.Int.{ℤ, pos, negsuc}
use qt_chat.Base.Lists.{Str, length, zero_free}

abbrev is_digit : ℕ → Bool
is_digit c = leb b'0' c && leb c b'9'

scan_digits : Str → ℕ → ℕ
scan_digits [] n = n
scan_digits (c ∷ s) n =
    let rest = scan_digits s (n * 10 + (c - b'0')) in if is_digit c then rest else n

negate : ℕ → ℤ
negate zero = pos 0
negate (suc n) = negsuc n

-- The sign and the digits; leading white space is skipped.
unfoldable pub atoi : Str → ℤ
unfolding scan_digits negate
atoi [] = pos 0
atoi (c ∷ s) =
    let rest = atoi s in
    if c == b' ' || leb 9 c && leb c 13
    then rest
    else if c == b'-'
    then negate (scan_digits s 0)
    else if c == b'+'
    then pos (scan_digits s 0)
    else pos (scan_digits (c ∷ s) 0)

-- The digits of a number, the last one first put down; 20 digits hold every 64-bit number.
digits : ℕ → ℕ → Str → Str
digits zero n out = out
digits (suc fuel) n out =
    let longer = digits fuel (n / 10) ((b'0' + n % 10) ∷ out) in if n == 0 then out else longer

unfoldable pub decimal : ℤ → Str
unfolding digits
decimal (pos n) = if n == 0 then b'0' ∷ [] else digits 20 n []
decimal (negsuc n) = b'-' ∷ digits 20 (n + 1) []

length-digits : (fuel n : ℕ) (out : Str) → length (digits fuel n out) ≤ fuel + length out
unfolding digits
length-digits zero n out = omega arith
length-digits (suc fuel) n out = ground (arith, length-digits fuel (n / 10) ((b'0' + n % 10) ∷ out))

-- The text of a number has at most a sign and 20 digits.
pub length-decimal : (n : ℤ) → length (decimal n) ≤ 21
unfolding decimal
length-decimal (pos n) = ground (arith, length-digits 20 n [])
length-decimal (negsuc n) = omega (arith, length-digits 20 (n + 1) [])

zero_free-digits :
    (fuel n : ℕ) (out : Str) → zero_free out ≡ true → zero_free (digits fuel n out) ≡ true
unfolding digits zero_free
zero_free-digits zero n out h = h
zero_free-digits (suc fuel) n out h =
    ground (arith, h, zero_free-digits fuel (n / 10) ((b'0' + n % 10) ∷ out))

pub zero_free-decimal : (n : ℤ) → zero_free (decimal n) ≡ true
unfolding decimal zero_free
zero_free-decimal (pos n) = ground (arith, zero_free-digits 20 n [])
zero_free-decimal (negsuc n) = ground (arith, zero_free-digits 20 (n + 1) [])

-- The numbers with at most this many digits.
abbrev room : ℕ → ℕ
room zero = 1
room (suc fuel) = 10 * room fuel

starts_with_digit : Str → Bool
starts_with_digit [] = false
starts_with_digit (c ∷ s) = is_digit c

scan_digits-digits :
    (fuel n : ℕ) (out : Str) → n < room fuel → scan_digits (digits fuel n out) 0 ≡ scan_digits out n
unfolding scan_digits digits
scan_digits-digits zero n out h = ap (scan_digits out) (omega (arith, h))
scan_digits-digits (suc fuel) n out h =
    ground (arith, scan_digits-digits fuel (n / 10) ((b'0' + n % 10) ∷ out))

digits-digit :
    (fuel n : ℕ) (out : Str)
    → starts_with_digit out ≡ true
    → starts_with_digit (digits fuel n out) ≡ true
unfolding digits starts_with_digit
digits-digit zero n out h = h
digits-digit (suc fuel) n out h =
    ground (arith, h, digits-digit fuel (n / 10) ((b'0' + n % 10) ∷ out))

atoi-digits : (s : Str) → starts_with_digit s ≡ true → atoi s ≡ pos (scan_digits s 0)
unfolding atoi starts_with_digit
atoi-digits [] h = ground (arith, h)
atoi-digits (c ∷ s) h = ground (arith, h)

number_text : (fuel n : ℕ) → n < room fuel → 0 < n → atoi (digits fuel n []) ≡ pos n
unfolding digits scan_digits starts_with_digit
number_text zero n h k = absurd (omega arith)
number_text (suc fuel) n h k =
    atoi-digits (digits (suc fuel) n [])
      (ground (arith, digits-digit fuel (n / 10) ((b'0' + n % 10) ∷ [])))
    ∙ ap pos (scan_digits-digits (suc fuel) n [] h)

decimal-suc : (n : ℕ) → decimal (pos (suc n)) ≡ digits 20 (suc n) []
unfolding decimal
decimal-suc n = sym (if-false {b = suc n == 0} (b'0' ∷ []) (digits 20 (suc n) []) (ground arith))

atoi-zero : atoi (decimal (pos 0)) ≡ pos 0
unfolding decimal atoi
atoi-zero = refl

-- The text of a number of at most 20 digits reads back as the number.
pub atoi-decimal : (n : ℕ) → n < 10 ^ 20 → atoi (decimal (pos n)) ≡ pos n
atoi-decimal zero h = atoi-zero
atoi-decimal (suc n) h = ap atoi (decimal-suc n) ∙ number_text 20 (suc n) h (omega arith)
