-- ===== src/Logging/Lines.antt =====
-- The making of a log line, and the loop that writes one to the file.
use qt_chat.Base.{ℕ, zero, suc, Bool, true, false, ◌||◌, ◌∷◌, not, [], ◌++◌, Option, none, some}
use qt_chat.Base.Tests.{if◌then◌else◌, ltb, ◌==◌}
use qt_chat.Base.Int.{pos}
use qt_chat.Base.Lists.{Str, codes, length, take, drop, is_empty}
use qt_chat.Server.Models.Text.{decimal}
use qt_chat.Logging.{Log}

-- The bytes before the first zero.
unfoldable pub c_text : Str → Str
c_text [] = []
c_text (b ∷ s) = if b == 0 then [] else b ∷ c_text s

has_slash : Str → Bool
has_slash [] = false
has_slash (c ∷ cs) = (c == b'/') || has_slash cs

-- What stands before the last slash; the whole text where there is none.
unfoldable pub before_last_slash : Str → Str
unfolding has_slash
before_last_slash [] = []
before_last_slash (c ∷ cs) =
    let rest = before_last_slash cs in
    if has_slash cs then c ∷ rest else if c == b'/' then [] else c ∷ cs

-- The path that `init` makes of a relative name, beside the folder of the program; `exe` is what
-- `readlink` gave.
unfoldable pub log_path : Str → Str → Str
unfolding before_last_slash
log_path exe [] = []
log_path exe (c ∷ cs) =
    if c == b'/' then c ∷ cs else before_last_slash exe ++ codes "/.." ++ codes "/" ++ c ∷ cs

-- `LOG_LEVEL`
abbrev pub fatal : ℕ
fatal = 6

abbrev pub critical : ℕ
critical = 7

-- The test at the start of `output`.
unfoldable pub is_logged : ℕ → ℕ → Bool
is_logged current level =
    if not (level == critical) then (if ltb level current then false else true) else true

-- The level in `makeLinePrefix`.
unfoldable pub level_tag : ℕ → Str
level_tag n =
    if n == 0
    then codes "[TRACE]"
    else if n == 1
    then codes "[DEBUG]"
    else if n == 3
    then codes "[WARN]"
    else if n == 4
    then codes "[ERROR]"
    else if n == 5
    then codes "[SYSE]"
    else if n == fatal
    then codes "[FATAL]"
    else if n == critical
    then codes "[CRITICAL]"
    else codes "[INFO]"

-- `makeLinePrefix`: `time` is what `getTime` wrote, and `thread` the text of the thread's id.
unfoldable pub make_line_prefix : ℕ → Str → Str → Str
unfolding level_tag
make_line_prefix level time thread =
    level_tag level ++ time ++ take 31 (codes "[" ++ thread ++ codes "]")

-- `snprintf` of the file and the line into 512 bytes.
unfoldable pub location : Str → ℕ → Str
location file line = take 511 (codes "[" ++ file ++ codes ":" ++ decimal (pos line) ++ codes "]")

-- The line of `output`; `place` is empty, or the location, and `msg` the formatted text.
unfoldable pub make_line : Str → Str → Str → Log → Str
make_line prefix place msg l =
    prefix
    ++ place
    ++ (if l.truncate_long then take 256 msg else msg)
    ++ (if not (is_empty l.file_name) then codes "\n" else [])

-- What the loop of `writeToFile` put into the file, and its result; `none` when the fuel ends. The
-- k-th `fwrite` is asked to write `s`, and writes `accepts k` bytes of it, or all if those are more.
abbrev pub least : ℕ → ℕ → ℕ
least a b = if ltb a b then a else b

abbrev pub after : Str → Option (Str × Bool) → Option (Str × Bool)
after s none = none
after s (some (t, ok)) = some (s ++ t, ok)

unfoldable pub write_to_file : (ℕ → ℕ) → ℕ → ℕ → Str → Option (Str × Bool)
write_to_file accepts zero k s = none
write_to_file accepts (suc fuel) k s =
    let ret = least (accepts k) (length s) in
    let more = write_to_file accepts fuel (suc k) (drop ret s) in
    if ret == 0
    then some ([], false)
    else if is_empty (drop ret s)
    then some (take ret s, true)
    else after (take ret s) more
