-- ===== src/Logging/Lost.antt =====
-- The request to exit that the log's thread does not hear.
use qt_chat.Base.{ℕ, Bool, true, false, ◌&&◌, List, [], ◌∷◌, ◌≡◌, refl, ap, arith}
use qt_chat.Base.Lists.{Str}
use qt_chat.Logging.{Log, Place, at_top, at_lock, checked, asleep, returned}
use qt_chat.Logging.Thread.{ask_exit, at_place, notified}
use qt_chat.Logging.Runs.{Event, thread_runs, step, run}

-- About to wait, or waiting.
abbrev pub is_stuck : Place → Bool
is_stuck checked = true
is_stuck asleep = true
is_stuck _ = false

abbrev only_thread : Event → Bool
only_thread (thread_runs opens now accepts) = true
only_thread _ = false

abbrev pub all_thread : List Event → Bool
all_thread [] = true
all_thread (e ∷ es) = only_thread e && all_thread es

place-stuck :
    (p : Place) (opens : Bool) (now : Str) (accepts : ℕ → ℕ) (l : Log)
    → l.place ≡ p
    → is_stuck p ≡ true
    → is_stuck (at_place p opens now accepts l).place ≡ true
place-stuck at_top opens now accepts l at h = absurd (ground (arith, h))
place-stuck at_lock opens now accepts l at h = absurd (ground (arith, h))
place-stuck checked opens now accepts l at h = refl
place-stuck asleep opens now accepts l at h = ap is_stuck at
place-stuck returned opens now accepts l at h = absurd (ground (arith, h))

step-stuck :
    (e : Event) (l : Log)
    → only_thread e ≡ true
    → is_stuck l.place ≡ true
    → is_stuck (step e l).place ≡ true
unfolding step
step-stuck (thread_runs opens now accepts) l o h = place-stuck l.place opens now accepts l refl h
step-stuck e l o h = absurd (ground (arith, o))

run-stuck :
    (es : List Event) (l : Log)
    → all_thread es ≡ true
    → is_stuck l.place ≡ true
    → is_stuck (run es l).place ≡ true
unfolding run
run-stuck [] l o h = h
run-stuck (e ∷ es) l o h =
    run-stuck es (step e l) (ground (arith, o)) (step-stuck e l (ground (arith, o)) h)

-- When the log's thread has seen an empty queue and no request to exit, and is about to wait, a
-- request to exit is lost: however many steps the thread then gets, whatever `fopen` and `fwrite`
-- answer, it does not return, as long as no line comes and `wait` does not return by itself.
pub exit_lost :
    (es : List Event) (l : Log)
    → l.place ≡ checked
    → all_thread es ≡ true
    → is_stuck (run es (ask_exit l)).place ≡ true
unfolding ask_exit
exit_lost es l at o = run-stuck es (ask_exit l) o (ap (λ p. is_stuck (notified p)) at)
