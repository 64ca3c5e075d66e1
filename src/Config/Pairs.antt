-- ===== src/Config/Pairs.antt =====
-- What a line of the configuration does to the entries.
use qt_chat.Base.{
  ℕ, zero, suc, ◌≤◌, ◌≡◌, refl, sym, ap, ◌∙◌, Bool, true, false, [], ◌∷◌, ◌++◌, Option, none, some,
  inl, inr, arith,
}
use qt_chat.Base.Tests.{if◌then◌else◌, ◌==◌, Bool-cases, Option-cases}
use qt_chat.Base.Lists.{Str, length, str_eq, str_eq_iff}
use qt_chat.Base.Map.{Map, lookup, lookup-insert, str_key}
use qt_chat.Config.{
  Config, trim_space, split_at, insert_new, parse_line, get_config_name, set_config_value, fgets,
  read_lines,
}

-- No byte of the text is this one.
abbrev pub Lacks : ℕ → Str → Type 0
Lacks x [] = Unit {0}
Lacks x (c ∷ s) = (c == x ≡ false) × Lacks x s

split_at-front : (x : ℕ) (a b : Str) → Lacks x a → split_at x (a ++ (x ∷ b)) ≡ some (a, b)
unfolding split_at
split_at-front x [] b h = ground arith
split_at-front x (c ∷ a) b h = rw (split_at, h.0, split_at-front x a b h.1) refl

abbrev pub or_else : Option Str → Str → Str
or_else none v = v
or_else (some w) v = w

lookup-insert_new :
    (k j v : Str) (m : Map Str Str)
    → lookup j (insert_new k v m)
      ≡ (if str_eq k j then some (or_else (lookup k m) v) else lookup j m)
unfolding insert_new
lookup-insert_new k j v m = elim (Option-cases (lookup k m)) [
  | inl fresh ↦ rw (insert_new, fresh) (lookup-insert k j v m)
  | inr (w, there) ↦ elim (Bool-cases (str_eq k j)) [
    | inl same ↦
        rw (insert_new, there, same) (ap (λ x. lookup x m) (sym ((str_eq_iff k j).0 same)) ∙ there)
    | inr other ↦ rw (insert_new, there, other) refl
  ]
]

-- A line that is a key without an equals sign, an equals sign and a value, with neither blank: the
-- trimmed key gets the trimmed value, unless the key has a value from an earlier line, which stays;
-- the other keys are as before.
pub parse_line_keeps_first :
    (key value k v j : Str) (m : Map Str Str)
    → Lacks 61 key
    → trim_space key ≡ some k
    → trim_space value ≡ some v
    → lookup j (parse_line (key ++ (61 ∷ value)) m)
      ≡ (if str_eq k j then some (or_else (lookup k m) v) else lookup j m)
unfolding parse_line
parse_line_keeps_first key value k v j m no_eq p q =
    rw (split_at-front 61 key value no_eq, p, q) (lookup-insert_new k j v m)

length-fgets : (room : ℕ) (s : Str) → length (fgets room s).1 ≤ length s
unfolding fgets
length-fgets zero s = omega arith
length-fgets (suc room) [] = omega arith
length-fgets (suc room) (c ∷ s) = elim (Bool-cases (c == 10)) [
  | inl newline ↦ rw (fgets, newline) (omega arith)
  | inr other ↦ rw (fgets, other) (omega (arith, length-fgets room s))
]

fgets_shrinks : (room c : ℕ) (s : Str) → length (fgets (suc room) (c ∷ s)).1 ≤ length s
unfolding fgets
fgets_shrinks room c s = elim (Bool-cases (c == 10)) [
  | inl newline ↦ rw (fgets, newline) (omega arith)
  | inr other ↦ rw (fgets, other) (length-fgets room s)
]

within : (a b f : ℕ) → a ≤ b → suc b ≤ suc f → a ≤ f
within a b f h k = omega arith

-- The loop over the lines gives the same entries on any fuel of at least the bytes of the file.
read_lines_all :
    (fuel more : ℕ) (s : Str) (m : Map Str Str)
    → length s ≤ fuel
    → length s ≤ more
    → read_lines fuel s m ≡ read_lines more s m
unfolding read_lines
read_lines_all zero zero s m h k = refl
read_lines_all zero (suc g) [] m h k = refl
read_lines_all zero (suc g) (c ∷ s) m h k = absurd (omega arith)
read_lines_all (suc f) zero [] m h k = refl
read_lines_all (suc f) zero (c ∷ s) m h k = absurd (omega arith)
read_lines_all (suc f) (suc g) [] m h k = refl
read_lines_all (suc f) (suc g) (c ∷ s) m h k =
    read_lines_all f g (fgets 255 (c ∷ s)).1 _ (within _ (length s) f (fgets_shrinks 254 c s) h)
      (within _ (length s) g (fgets_shrinks 254 c s) k)

-- In a reader that loaded its file, a value that is set is the one that is found, whether or not it
-- could be written, and the other keys are as before.
pub set_config_value-get :
    (name value j : Str) (can_write : Bool) (c : Config)
    → c.load_ok ≡ true
    → get_config_name j (set_config_value name value can_write c).1
      ≡ (if str_eq name j then some value else get_config_name j c)
unfolding get_config_name set_config_value
set_config_value-get name value j can_write c ok = rw ok (lookup-insert name j value c.entries)
