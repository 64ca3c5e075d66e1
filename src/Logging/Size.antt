-- ===== src/Logging/Size.antt =====
-- The sizes of the log's files.
use qt_chat.Base.{ℕ, ◌+◌, ◌≤◌, ◌<◌, Bool, true, false, not, List, [], ◌∷◌, ◌++◌, ◌≡◌, refl, arith}
use qt_chat.Base.Tests.{if◌then◌else◌, ◌==◌, ltb}
use qt_chat.Base.Lists.{Str}
use qt_chat.Base.Map.{lookup, str_key}
use qt_chat.Logging.{Log}
use qt_chat.Logging.Lines.{fatal, is_logged, make_line}
use qt_chat.Logging.Thread.{initial, init, output_fatal, push_line}
use qt_chat.Logging.Runs.{
  Event, outputs, thread_runs, level_set, exit_asked, thread_wakes, step, run, is_queued,
  all_queued, line_of, lines,
}
use qt_chat.Logging.Sized.{
  file_size, AllShort, Sized, Knows-push_line, Knows-level, Knows-exit, at_place-Sized, if-holds,
}

AllShort-append :
    (most : ℕ) (ss ts : List Str) → AllShort most ss → AllShort most ts → AllShort most (ss ++ ts)
AllShort-append most [] ts a b = b
AllShort-append most (s ∷ ss) ts a b = (a.0, AllShort-append most ss ts a.1 b)

AllShort-left : (most : ℕ) (ss ts : List Str) → AllShort most (ss ++ ts) → AllShort most ss
AllShort-left most [] ts a = tt
AllShort-left most (s ∷ ss) ts a = (a.0, AllShort-left most ss ts a.1)

AllShort-right : (most : ℕ) (ss ts : List Str) → AllShort most (ss ++ ts) → AllShort most ts
AllShort-right most [] ts a = a
AllShort-right most (s ∷ ss) ts a = AllShort-right most ss ts a.1

output-Sized :
    (r most : ℕ) (b queued : Bool)
    → queued ≡ true
    → (s : Str) (x : Bool × Log) (l : Log) → AllShort most (if b then s ∷ [] else [])
    → Sized r most l
    → Sized r most (if b then (if queued then (true, push_line s l) else x) else (false, l)).1
unfolding push_line
output-Sized r most true true h s x l a v = record {
  same = v.same;
  sizes = v.sizes;
  knows = Knows-push_line l.place _ s l v.knows;
  short = AllShort-append most l.queue (s ∷ []) v.short a;
}
output-Sized r most true false h s x l a v = ground (arith, h)
output-Sized r most false queued h s x l a v = v

step-Sized :
    (r most : ℕ) (e : Event) (l : Log)
    → 0 < r
    → is_queued e ≡ true
    → AllShort most (line_of e l)
    → Sized r most l
    → Sized r most (step e l)
unfolding is_queued step line_of
step-Sized r most (outputs level prefix place msg opens now accepts) l pos h a v =
    output-Sized r most (is_logged l.level level) (not (level == fatal)) h
      (make_line prefix place msg l)
      (output_fatal opens now accepts (make_line prefix place msg l) l) l a v
step-Sized r most (thread_runs opens now accepts) l pos h a v =
    at_place-Sized r most l.place opens now accepts l refl pos v
step-Sized r most (level_set n) l pos h a v =
    if-holds (ltb fatal n) (Sized r most) l (record l { level = n }) (λ t. v)
      (λ f. record {
        same = v.same;
        sizes = v.sizes;
        knows = Knows-level l.place n l v.knows;
        short = v.short;
      })
step-Sized r most exit_asked l pos h a v = record {
  same = v.same;
  sizes = v.sizes;
  knows = Knows-exit l.place _ true l v.knows;
  short = v.short;
}
step-Sized r most thread_wakes l pos h a v = record {
  same = v.same;
  sizes = v.sizes;
  knows = Knows-exit l.place _ l.exit l v.knows;
  short = v.short;
}

run-Sized :
    (r most : ℕ) (es : List Event) (l : Log)
    → 0 < r
    → all_queued es ≡ true
    → AllShort most (lines es l)
    → Sized r most l
    → Sized r most (run es l)
unfolding run lines all_queued
run-Sized r most [] l pos h a v = v
run-Sized r most (e ∷ es) l pos h a v =
    run-Sized r most es (step e l) pos (ground (arith, h))
      (AllShort-right most (line_of e l) (lines es (step e l)) a)
      (step-Sized r most e l pos (ground (arith, h))
        (AllShort-left most (line_of e l) (lines es (step e l)) a) v)

-- The log is started with a positive roll size, and then runs through any sequence of calls of
-- `output` other than FATAL ones, changes of the level, requests to exit, and steps and wakings of its thread,
-- whether `fopen` and `fwrite` succeed or not, each line of at most `most` bytes: no file is ever
-- longer than the roll size and one line.
pub file_sizes_bounded :
    (exe name pid : Str) (long : Bool) (roll_size most : ℕ) (es : List Event) (file : Str)
    → 0 < roll_size
    → all_queued es ≡ true
    → AllShort most (lines es (init exe name long roll_size pid initial))
    → file_size file (run es (init exe name long roll_size pid initial)) ≤ roll_size + most
unfolding init initial lookup
file_sizes_bounded exe name pid long roll_size most es file pos h a =
    let v =
      run-Sized roll_size most es (init exe name long roll_size pid initial) pos h a
        (record { same = refl; sizes = λ n. omega arith; knows = omega arith; short = tt }) in
    omega (arith, v.sizes file, v.same)
