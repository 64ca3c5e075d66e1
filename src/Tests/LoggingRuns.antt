-- ===== src/Tests/LoggingRuns.antt =====
-- A log at the level INFO with an empty file name, so that lines go to the console.
use qt_chat.Base.{ℕ, ◌+◌, ◌*◌, ◌≤◌, arith, ◌≡◌, refl, true, List, [], ◌∷◌, ◌++◌}
use qt_chat.Base.Lists.{codes, length, str_eq}
use qt_chat.Base.Map.{lookup, insert}
use qt_chat.Logging.{Log, checked, returned}
use qt_chat.Logging.Thread.{initial, init, ask_exit}
use qt_chat.Logging.Runs.{Event, outputs, thread_runs, exit_asked, run, all_queued, lines}
use qt_chat.Logging.Sized.{file_size}
use qt_chat.Logging.Size.{file_sizes_bounded}
use qt_chat.Logging.Fifo.{console_in_order}
use qt_chat.Logging.Lost.{is_stuck, exit_lost}
use qt_chat.Logging.Drain.{turns}

-- `fwrite` takes two bytes at a time.
abbrev two : ℕ → ℕ
two k = 2

abbrev started : Log
started = init (codes "/srv/bin/server") (codes "chat") true 100 (codes "00042") initial

abbrev traffic : List Event
traffic =
    outputs 2 (codes "[INFO]") [] (codes "one") true (codes "t") two
    ∷ outputs 1 (codes "[DEBUG]") [] (codes "hidden") true (codes "t") two
    ∷ thread_runs true (codes "t") two
    ∷ outputs 7 (codes "[CRITICAL]") [] (codes "two") true (codes "t") two
    ∷ thread_runs true (codes "t") two
    ∷ exit_asked
    ∷ []

console_in_order_example :
    (run traffic started).console ++ (run traffic started).queue
    ≡ (started.console ++ started.queue) ++ lines traffic started
unfolding init initial all_queued
console_in_order_example = console_in_order traffic started refl refl

one_shown_one_waits :
    ((run traffic started).console ≡ codes "[INFO]one\n" ∷ [])
    × ((run traffic started).queue ≡ codes "[CRITICAL]two\n" ∷ [])
unfolding run init initial
one_shown_one_waits = (refl, refl)

beside_the_program : started.file_name ≡ codes "/srv/bin/../chat"
unfolding init
beside_the_program = refl

file_sizes_bounded_example :
    file_size (codes "/srv/bin/../chat.t.00042.log") (run traffic started) ≤ 100 + 20
unfolding lines all_queued init initial
file_sizes_bounded_example =
    file_sizes_bounded (codes "/srv/bin/server") (codes "chat") (codes "00042") true 100 20 traffic
      (codes "/srv/bin/../chat.t.00042.log") (omega arith) refl (omega arith, (omega arith, tt))

ten_bytes_in_the_file : file_size (codes "/srv/bin/../chat.t.00042.log") (run traffic started) ≡ 10
unfolding run init initial lookup insert str_eq
ten_bytes_in_the_file = refl

abbrev asked_to_exit : Log
asked_to_exit =
    run
      (outputs 2 (codes "[INFO]") [] (codes "one") true (codes "t") two
        ∷ outputs 3 (codes "[WARN]") [] (codes "two") true (codes "t") two
        ∷ exit_asked
        ∷ [])
      started

abbrev at_the_end : Log
at_the_end =
    turns two (λ k. omega arith) (codes "t") (2 * length asked_to_exit.queue + 2) asked_to_exit

both_shown : at_the_end.console ≡ codes "[INFO]one\n" ∷ codes "[WARN]two\n" ∷ []
unfolding run init initial turns
both_shown = refl

-- The thread rolls its file, finds the queue empty and is about to wait.
abbrev about_to_wait : Log
about_to_wait =
    run (thread_runs true (codes "t") two ∷ thread_runs true (codes "t") two ∷ []) started

before_the_wait : about_to_wait.place ≡ checked
unfolding run init initial
before_the_wait = refl

exit_lost_example :
    is_stuck
      (run
        (thread_runs true (codes "t") two ∷ thread_runs true (codes "t") two ∷ [])
        (ask_exit about_to_wait)).place
    ≡ true
exit_lost_example =
    exit_lost (thread_runs true (codes "t") two ∷ thread_runs true (codes "t") two ∷ [])
      about_to_wait before_the_wait refl

-- A thread that waits already hears the request.
heard_in_the_wait :
    (run
      (thread_runs true (codes "t") two ∷ exit_asked ∷ thread_runs true (codes "t") two ∷ [])
      about_to_wait).place
    ≡ returned
unfolding run init initial
heard_in_the_wait = refl
