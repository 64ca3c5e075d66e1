-- ===== src/Config.antt =====
-- The configuration reader, ChatServer/src/config/ConfigFileReader.cpp. A file is the list of its
-- bytes, none of them zero, or `none` where `fopen` fails. `std::map` is walked in the order of
-- insertion here, by key there.
pub mod Pairs
use qt_chat.Base.{
  ℕ, zero, suc, Bool, true, false, ◌||◌, ◌&&◌, List, [], ◌∷◌, ◌++◌, Option, none, some,
}
use qt_chat.Base.Tests.{if◌then◌else◌, ◌==◌}
use qt_chat.Base.Int.{ℤ, pos, minus_one}
use qt_chat.Base.Lists.{Str, is_empty, length, take}
use qt_chat.Base.Map.{Map, lookup, insert, str_key}

-- `CConfigFileReader`
pub record Config : Type 0 where
  pub entries : Map Str Str
  pub load_ok : Bool

-- Space, tab and carriage return.
abbrev pub is_blank : ℕ → Bool
is_blank c = c == 32 || (c == 9 || c == 13)

unfoldable pub skip_blanks : Str → Str
skip_blanks [] = []
skip_blanks (c ∷ s) = let rest = skip_blanks s in if is_blank c then rest else c ∷ s

-- The loop from the end.
unfoldable pub drop_blanks : Str → Str
drop_blanks [] = []
drop_blanks (c ∷ s) =
    let rest = drop_blanks s in if is_blank c && is_empty rest then [] else c ∷ rest

abbrev pub non_empty : Str → Option Str
non_empty [] = none
non_empty (c ∷ s) = some (c ∷ s)

-- `trimSpace`
unfoldable pub trim_space : Str → Option Str
unfolding skip_blanks drop_blanks
trim_space s = non_empty (drop_blanks (skip_blanks s))

-- `strchr` and the cut at what it finds.
unfoldable pub split_at : ℕ → Str → Option (Str × Str)
split_at x [] = none
split_at x (c ∷ s) =
    let rest = split_at x s in
    if c == x then some ([], s) else elim rest [ none ↦ none | some (a, b) ↦ some (c ∷ a, b) ]

-- `m_config_map.insert`, which leaves an entry that is there.
unfoldable pub insert_new : Str → Str → Map Str Str → Map Str Str
insert_new k v m = elim (lookup k m) [ none ↦ insert k v m | some w ↦ m ]

abbrev pub insert_pair : Option Str → Option Str → Map Str Str → Map Str Str
insert_pair (some k) (some v) m = insert_new k v m
insert_pair _ _ m = m

abbrev pub parse_split : Option (Str × Str) → Map Str Str → Map Str Str
parse_split none m = m
parse_split (some (k, v)) m = insert_pair (trim_space k) (trim_space v) m

-- `parseLine`; 61 is the equals sign.
unfoldable pub parse_line : Str → Map Str Str → Map Str Str
unfolding split_at trim_space insert_new
parse_line line = parse_split (split_at 61 line)

-- `fgets` into `room` + 1 bytes: the line with its newline, if that fits, and the rest of the file.
unfoldable pub fgets : ℕ → Str → Str × Str
fgets zero s = ([], s)
fgets (suc room) [] = ([], [])
fgets (suc room) (c ∷ s) =
    let (line, rest) = fgets room s in if c == 10 then (c ∷ [], s) else (c ∷ line, rest)

-- The newline at the end, and what follows a hash sign, are cut off.
abbrev before : Option (Str × Str) → Str → Str
before none s = s
before (some (a, b)) s = a

unfoldable pub clean_line : Str → Str
unfolding split_at
clean_line line = let text = before (split_at 10 line) line in before (split_at 35 text) text

-- The loop of `loadFile`, with fuel for each byte of the file; an empty line parses to nothing.
unfoldable pub read_lines : ℕ → Str → Map Str Str → Map Str Str
unfolding fgets clean_line parse_line
read_lines zero s m = m
read_lines (suc fuel) [] m = m
read_lines (suc fuel) (c ∷ s) m =
    let (line, rest) = fgets 255 (c ∷ s) in read_lines fuel rest (parse_line (clean_line line) m)

-- `loadFile` in the constructor.
unfoldable pub load_file : Option Str → Config
unfolding read_lines
load_file none = record { entries = []; load_ok = false }
load_file (some s) = record { entries = read_lines (length s) s []; load_ok = true }

-- `getConfigName`
unfoldable pub get_config_name : Str → Config → Option Str
get_config_name name c = if c.load_ok then lookup name c.entries else none

-- What `writeFile` writes: at most 127 bytes of each pair, in the buffer of 128.
unfoldable pub file_text : Map Str Str → Str
file_text [] = []
file_text ((k, v) ∷ m) = take 127 (k ++ (61 ∷ (v ++ (10 ∷ [])))) ++ file_text m

-- `setConfigValue`: what it returns, and the reader. `can_write` says whether `writeFile` could open
-- and write the file.
unfoldable pub set_config_value : Str → Str → Bool → Config → ℤ × Config
set_config_value name value can_write c =
    if c.load_ok
    then (
      if can_write then pos 0 else minus_one,
      record c { entries = insert name value c.entries },
    )
    else (minus_one, c)
