-- ===== src/Logging/Runs.antt =====
-- Runs of the log: calls of `output` by any thread, steps of the log's own thread, its wakings without
-- a notification, and the request to exit, one after another.
use qt_chat.Base.{ℕ, Bool, true, not, ◌&&◌, List, [], ◌∷◌, ◌++◌}
use qt_chat.Base.Tests.{if◌then◌else◌, ◌==◌}
use qt_chat.Base.Lists.{Str}
use qt_chat.Logging.{Log}
use qt_chat.Logging.Lines.{fatal, is_logged, make_line}
use qt_chat.Logging.Thread.{set_level, output, ask_exit, wake, thread_step}

pub data Event : Type 0 where
  outputs : ℕ → Str → Str → Str → Bool → Str → (ℕ → ℕ) → Event
  thread_runs : Bool → Str → (ℕ → ℕ) → Event
  level_set : ℕ → Event
  exit_asked : Event
  thread_wakes : Event

unfoldable pub step : Event → Log → Log
unfolding output thread_step set_level ask_exit wake
step (outputs level prefix place msg opens now accepts) l =
    (output level prefix place msg opens now accepts l).1
step (thread_runs opens now accepts) l = thread_step opens now accepts l
step (level_set n) l = set_level n l
step exit_asked l = ask_exit l
step thread_wakes l = wake l

unfoldable pub run : List Event → Log → Log
unfolding step
run [] l = l
run (e ∷ es) l = run es (step e l)

-- Not a FATAL line, which is written at once.
unfoldable pub is_queued : Event → Bool
is_queued (outputs level prefix place msg opens now accepts) = not (level == fatal)
is_queued _ = true

unfoldable pub all_queued : List Event → Bool
unfolding is_queued
all_queued [] = true
all_queued (e ∷ es) = is_queued e && all_queued es

-- The lines of the calls that pass the level, in their order.
unfoldable pub line_of : Event → Log → List Str
unfolding is_logged make_line
line_of (outputs level prefix place msg opens now accepts) l =
    if is_logged l.level level then make_line prefix place msg l ∷ [] else []
line_of _ l = []

unfoldable pub lines : List Event → Log → List Str
unfolding line_of step
lines [] l = []
lines (e ∷ es) l = line_of e l ++ lines es (step e l)
