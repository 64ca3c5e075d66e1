-- ===== src/Mysql/Escape.antt =====
-- The buffer of `MySQL::escape`.
use qt_chat.Base.{ℕ, zero, suc, ◌+◌, ◌*◌, ◌<◌, ◌≤◌, true, [], ◌∷◌, ◌++◌, ◌≡◌, refl, arith}
use qt_chat.Base.Lists.{c_str, Str, length, zero_free}
use qt_chat.Mysql.{Driver, zero_bytes, write_at_start, escape}

-- What the library documents of `mysql_real_escape_string`: each byte becomes at most two, and no
-- zero is left.
abbrev pub Escapes : (Str → Str) → Type 0
Escapes real = (s : Str) → (length (real s) ≤ length s * 2) × (zero_free (real s) ≡ true)

length-zero_bytes : (n : ℕ) → length (zero_bytes n) ≡ n
unfolding zero_bytes
length-zero_bytes zero = refl
length-zero_bytes (suc n) = omega (arith, length-zero_bytes n)

c_str-write :
    (t buf : Str)
    → zero_free t ≡ true
    → length t < length buf
    → c_str (write_at_start (t ++ (0 ∷ [])) buf) ≡ t
unfolding zero_free c_str write_at_start
c_str-write [] [] h k = absurd (omega arith)
c_str-write [] (b ∷ buf) h k = refl
c_str-write (c ∷ t) [] h k = absurd (omega arith)
c_str-write (c ∷ t) (b ∷ buf) h k = ground (arith, c_str-write t buf)

pub c_str-zero_free : (s : Str) → zero_free s ≡ true → c_str s ≡ s
unfolding zero_free c_str
c_str-zero_free [] h = refl
c_str-zero_free (c ∷ s) h = ground (arith, c_str-zero_free s)

-- The buffer holds all that the library writes, and the string ends where that ends.
pub escape_whole : (D : Driver) → Escapes D.real_escape → (s : Str) → escape D s ≡ D.real_escape s
unfolding escape
escape_whole D h s =
    c_str-write (D.real_escape s) (zero_bytes (length s * 2 + 1)) (h s).1
      (omega (arith, (h s).0, length-zero_bytes (length s * 2 + 1)))
