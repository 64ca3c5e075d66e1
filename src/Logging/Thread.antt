-- ===== src/Logging/Thread.antt =====
-- The operations of the log, and the steps of its thread between two uses of its lock.
use qt_chat.Base.{
  ℕ, suc, ◌+◌, Bool, true, false, not, ◌&&◌, ◌||◌, List, [], ◌∷◌, ◌++◌, Option, none, some,
}
use qt_chat.Base.Tests.{if◌then◌else◌, ltb, leb, ◌==◌, is_some}
use qt_chat.Base.Lists.{Str, codes, length, is_empty}
use qt_chat.Base.Map.{lookup, insert, str_key}
use qt_chat.Logging.{Log, Place, at_top, at_lock, checked, asleep, returned}
use qt_chat.Logging.Lines.{fatal, is_logged, make_line, write_to_file, log_path}

-- The static members before `init`.
unfoldable pub initial : Log
initial = record {
  truncate_long = false;
  file_name = codes "default";
  pid = [];
  level = 2;
  roll_size = 10485760;
  written = 0;
  queue = [];
  console_output = true;
  exit = false;
  running = false;
  handle = none;
  disk = [];
  console = [];
  place = at_top;
  crashed = false;
}

-- `init` with a name, and the start of `writeThreadProc`; `exe` is what `readlink` gave.
unfoldable pub init : Str → Str → Bool → ℕ → Str → Log → Log
unfolding log_path
init exe name truncate_long roll_size pid l = record l {
  truncate_long = truncate_long;
  roll_size = roll_size;
  file_name = log_path exe name;
  pid = pid;
  running = true;
  place = at_top;
}

-- `setConsoleOutput`
unfoldable pub set_console_output : Bool → Log → Log
set_console_output on l = record l { console_output = on }

-- `setLevel`
unfoldable pub set_level : ℕ → Log → Log
set_level n l = if ltb fatal n then l else record l { level = n }

-- The name of a new file at the time `now`.
unfoldable pub new_name : Str → Log → Str
new_name now l = l.file_name ++ codes "." ++ now ++ codes "." ++ l.pid ++ codes ".log"

-- `createNewFile`, with whether `fopen` succeeds; "w+" empties a file that exists.
unfoldable pub create_new_file : Bool → Str → Log → Bool × Log
create_new_file true name l = (true, record l { handle = some name; disk = insert name [] l.disk })
create_new_file false name l = (false, record l { handle = none })

abbrev pub contents : Option Str → Str
contents none = []
contents (some s) = s

-- Bytes at the end of the open file.
abbrev pub put_bytes : Option Str → Str → Log → Log
put_bytes none s l = l
put_bytes (some name) s l = record l {
  disk = insert name (contents (lookup name l.disk) ++ s) l.disk;
}

abbrev pub wrote : Option (Str × Bool) → Log → Bool × Log
wrote none l = (false, l)
wrote (some (s, ok)) l = (ok, put_bytes l.handle s l)

-- `writeToFile`; the fuel is above the number of bytes.
unfoldable pub write_line : (ℕ → ℕ) → Str → Log → Bool × Log
unfolding write_to_file lookup insert
write_line accepts s l = wrote (write_to_file accepts (suc (length s)) 0 s) l

unfoldable pub show : Str → Log → Log
show s l = if l.console_output then record l { console = l.console ++ s ∷ [] } else l

-- The part of `output` for FATAL, up to `crash`.
abbrev pub fatal_file : (ℕ → ℕ) → Str → Bool × Log → Bool × Log
fatal_file accepts s (false, l) = (false, l)
fatal_file accepts s (true, l) = (true, record (write_line accepts s l).1 { crashed = true })

unfoldable pub output_fatal : Bool → Str → (ℕ → ℕ) → Str → Log → Bool × Log
unfolding show create_new_file new_name write_line
output_fatal opens now accepts s l =
    let shown = show s l in
    if is_empty l.file_name
    then (true, record shown { crashed = true })
    else fatal_file accepts s
        (if is_some l.handle then (true, shown) else create_new_file opens (new_name now l) shown)

-- `m_cvWrite.notify_one()`: a thread that waits goes on to the lock; for any other it is lost.
abbrev pub notified : Place → Place
notified at_top = at_top
notified at_lock = at_lock
notified checked = checked
notified asleep = at_lock
notified returned = returned

-- A caller gets the lock from a thread that is about to wait only when that thread waits.
abbrev pub unlocked : Place → Place
unlocked at_top = at_top
unlocked at_lock = at_lock
unlocked checked = asleep
unlocked asleep = asleep
unlocked returned = returned

-- The line at the end of the queue, under the lock, and `notify_one`.
unfoldable pub push_line : Str → Log → Log
push_line s l = record l { queue = l.queue ++ s ∷ []; place = notified (unlocked l.place) }

-- `output`, with its result: the two overloads have an empty location and a location.
unfoldable pub output : ℕ → Str → Str → Str → Bool → Str → (ℕ → ℕ) → Log → Bool × Log
unfolding is_logged make_line push_line output_fatal
output level prefix place msg opens now accepts l =
    if is_logged l.level level
    then (if not (level == fatal)
        then (true, push_line (make_line prefix place msg l) l)
        else output_fatal opens now accepts (make_line prefix place msg l) l)
    else (false, l)

-- `uninit`, up to the join: `m_bExit` is set, and `notify_one` called, without the lock.
unfoldable pub ask_exit : Log → Log
ask_exit l = record l { exit = true; place = notified l.place }

-- The rest of `uninit`, after the join.
unfoldable pub close_file : Log → Log
close_file l = record l { handle = none }

-- The top of the loop of `writeThreadProc`: a new file where there is none, or the old one is full.
abbrev pub opened : Bool × Log → Log
opened (false, l) = record l { place = returned }
opened (true, l) = record l { place = at_lock }

unfoldable pub roll : Bool → Str → Log → Log
unfolding create_new_file new_name
roll opens now l =
    if not (is_empty l.file_name) && (not (is_some l.handle) || leb l.roll_size l.written)
    then opened (create_new_file opens (new_name now l) (record l { written = 0 }))
    else record l { place = at_lock }

-- The end of the loop's body.
abbrev pub counted : Str → Bool × Log → Log
counted s (false, l) = record l { place = returned }
counted s (true, l) = record l { written = l.written + length s; place = at_top }

unfoldable pub write_out : (ℕ → ℕ) → Str → Log → Log
unfolding show write_line
write_out accepts s l =
    let shown = show s l in
    if not (is_empty l.file_name)
    then counted s (write_line accepts s shown)
    else record shown { place = at_top }

-- The rest of the loop's body, from the lock on: with an empty queue the thread returns, or goes on
-- to wait.
unfoldable pub take_line : (ℕ → ℕ) → List Str → Log → Log
unfolding write_out
take_line accepts [] l =
    if l.exit then record l { place = returned } else record l { place = checked }
take_line accepts (s ∷ ss) l = write_out accepts s (record l { queue = ss })

abbrev pub at_place : Place → Bool → Str → (ℕ → ℕ) → Log → Log
at_place at_top opens now accepts l = roll opens now l
at_place at_lock opens now accepts l = take_line accepts l.queue l
at_place checked opens now accepts l = record l { place = asleep }
at_place asleep opens now accepts l = l
at_place returned opens now accepts l = l

-- One step of `writeThreadProc`; a thread that waits takes none until it is notified.
unfoldable pub thread_step : Bool → Str → (ℕ → ℕ) → Log → Log
unfolding roll take_line
thread_step opens now accepts l = at_place l.place opens now accepts l

-- `wait` may return without a notification.
unfoldable pub wake : Log → Log
wake l = record l { place = notified l.place }
