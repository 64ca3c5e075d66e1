-- ===== src/Logging/Fifo.antt =====
-- The order of the lines on the console.
use qt_chat.Base.{
  ℕ, suc, subst, ◌||◌, Bool, true, false, not, ◌&&◌, List, [], ◌∷◌, ◌++◌, append_assoc, append-nil,
  Option, none, some, ◌≡◌, refl, sym, ap, ◌∙◌, arith,
}
use qt_chat.Base.Tests.{if◌then◌else◌, ◌==◌, leb, ltb, is_some}
use qt_chat.Base.Lists.{Str, is_empty, length}
use qt_chat.Logging.{Log, Place, at_top, at_lock, checked, asleep, returned}
use qt_chat.Logging.Lines.{fatal, is_logged, make_line, write_to_file}
use qt_chat.Logging.Thread.{
  set_level, output_fatal, ask_exit, wake, push_line, roll, take_line, write_out, write_line,
  create_new_file, show, put_bytes, wrote, opened, counted, at_place, new_name,
}
use qt_chat.Logging.Runs.{
  Event, outputs, thread_runs, level_set, exit_asked, thread_wakes, step, run, is_queued,
  all_queued, line_of, lines,
}

-- What was shown and what waits.
abbrev pub seen : Log → List Str
seen l = l.console ++ l.queue

-- The parts of the log that the steps on the file leave alone.
abbrev Calm : Type 0
Calm = List Str × List Str × Bool

abbrev calm : Log → Calm
calm l = (l.console, l.queue, l.console_output)

put_bytes-calm : (h : Option Str) (s : Str) (l : Log) → calm (put_bytes h s l) ≡ calm l
put_bytes-calm none s l = refl
put_bytes-calm (some name) s l = refl

wrote-calm : (o : Option (Str × Bool)) (l : Log) → calm (wrote o l).1 ≡ calm l
wrote-calm none l = refl
wrote-calm (some (s, ok)) l = put_bytes-calm l.handle s l

counted-calm : (s : Str) (r : Bool × Log) → calm (counted s r) ≡ calm r.1
counted-calm s (true, l) = refl
counted-calm s (false, l) = refl

opened-calm : (r : Bool × Log) → calm (opened r) ≡ calm r.1
opened-calm (true, l) = refl
opened-calm (false, l) = refl

create-calm : (b : Bool) (name : Str) (l : Log) → calm (create_new_file b name l).1 ≡ calm l
unfolding create_new_file
create-calm true name l = refl
create-calm false name l = refl

if-calm :
    (b : Bool) {c : Calm} (x y : Log) → calm x ≡ c → calm y ≡ c → calm (if b then x else y) ≡ c
if-calm true x y p q = p
if-calm false x y p q = q

roll-calm : (b : Bool) (now : Str) (l : Log) → calm (roll b now l) ≡ calm l
unfolding roll
roll-calm b now l =
    let empty = record l { written = 0 } in
    if-calm (not (is_empty l.file_name) && (not (is_some l.handle) || leb l.roll_size l.written))
      (opened (create_new_file b (new_name now l) empty)) (record l { place = at_lock })
      (opened-calm (create_new_file b (new_name now l) empty)
        ∙ create-calm b (new_name now l) empty)
      refl

write_out-calm :
    (accepts : ℕ → ℕ) (s : Str) (l : Log) → calm (write_out accepts s l) ≡ calm (show s l)
unfolding write_out
write_out-calm accepts s l =
    if-calm (not (is_empty l.file_name)) (counted s (write_line accepts s (show s l)))
      (record (show s l) { place = at_top })
      (counted-calm s (write_line accepts s (show s l))
        ∙ wrote-calm (write_to_file accepts (suc (length s)) 0 s) (show s l))
      refl

show-calm :
    (s : Str) (l : Log)
    → l.console_output ≡ true
    → calm (show s l) ≡ (l.console ++ s ∷ [], l.queue, true)
unfolding show
show-calm s l on = rw on refl

-- What a state shows and holds, as `calm` has it.
abbrev seen_of : Calm → List Str
seen_of c = c.0 ++ c.1

-- A state that has seen the lines, and shows them on the console.
pub record Sees (known : List Str) (l : Log) : Type 0 where
  pub on : l.console_output ≡ true
  pub all : seen l ≡ known

calm-Sees : (known : List Str) (l m : Log) → calm m ≡ calm l → Sees known l → Sees known m
calm-Sees known l m e v = record { on = ap (λ c. c.2) e ∙ v.on; all = ap seen_of e ∙ v.all }

take_line-Sees :
    (known : List Str) (accepts : ℕ → ℕ) (q : List Str) (l : Log)
    → l.queue ≡ q
    → Sees known l
    → Sees known (take_line accepts q l)
unfolding take_line
take_line-Sees known accepts [] l h v =
    calm-Sees known l
      (if l.exit then record l { place = returned } else record l { place = checked })
      (if-calm l.exit (record l { place = returned }) (record l { place = checked }) refl refl) v
take_line-Sees known accepts (s ∷ ss) l h v =
    let e =
      write_out-calm accepts s (record l { queue = ss })
      ∙ show-calm s (record l { queue = ss }) v.on in
    record {
      on = ap (λ c. c.2) e;
      all =
          ap seen_of e
          ∙ append_assoc l.console (s ∷ []) ss
          ∙ ap (λ q. l.console ++ q) (sym h)
          ∙ v.all;
    }

pub at_place-Sees :
    (known : List Str) (p : Place) (opens : Bool) (now : Str) (accepts : ℕ → ℕ) (l : Log)
    → Sees known l
    → Sees known (at_place p opens now accepts l)
at_place-Sees known at_top opens now accepts l v =
    calm-Sees known l (roll opens now l) (roll-calm opens now l) v
at_place-Sees known at_lock opens now accepts l v = take_line-Sees known accepts l.queue l refl v
at_place-Sees known checked opens now accepts l v = record { on = v.on; all = v.all }
at_place-Sees known asleep opens now accepts l v = v
at_place-Sees known returned opens now accepts l v = v

push-Sees :
    (known : List Str) (s : Str) (l : Log) → Sees known l → Sees (known ++ s ∷ []) (push_line s l)
unfolding push_line
push-Sees known s l v = record {
  on = v.on;
  all = sym (append_assoc l.console l.queue (s ∷ [])) ∙ ap (λ q. q ++ s ∷ []) v.all;
}

nothing-Sees : (known : List Str) (l : Log) → Sees known l → Sees (known ++ []) l
nothing-Sees known l v = record { on = v.on; all = v.all ∙ sym (append-nil known) }

output-Sees :
    (known : List Str) (b queued : Bool)
    → queued ≡ true
    → (s : Str) (x : Bool × Log) (l : Log) → Sees known l
    → Sees
        (known ++ (if b then s ∷ [] else []))
        (if b then (if queued then (true, push_line s l) else x) else (false, l)).1
output-Sees known true true h s x l v = push-Sees known s l v
output-Sees known true false h s x l v = ground (arith, h)
output-Sees known false queued h s x l v = nothing-Sees known l v

step-Sees :
    (known : List Str) (e : Event) (l : Log)
    → is_queued e ≡ true
    → Sees known l
    → Sees (known ++ line_of e l) (step e l)
unfolding is_queued step line_of
step-Sees known (outputs level prefix place msg opens now accepts) l h v =
    output-Sees known (is_logged l.level level) (not (level == fatal)) h
      (make_line prefix place msg l)
      (output_fatal opens now accepts (make_line prefix place msg l) l) l v
step-Sees known (thread_runs opens now accepts) l h v =
    nothing-Sees known (at_place l.place opens now accepts l)
      (at_place-Sees known l.place opens now accepts l v)
step-Sees known (level_set n) l h v = nothing-Sees known (set_level n l) (
    calm-Sees known l (set_level n l) (if-calm (ltb fatal n) l (record l { level = n }) refl refl)
      v)
step-Sees known exit_asked l h v =
    nothing-Sees known (ask_exit l) (record { on = v.on; all = v.all })
step-Sees known thread_wakes l h v = nothing-Sees known (wake l) (record { on = v.on; all = v.all })

run-Sees :
    (known : List Str) (es : List Event) (l : Log)
    → all_queued es ≡ true
    → Sees known l
    → Sees (known ++ lines es l) (run es l)
unfolding run lines all_queued
run-Sees known [] l h v = nothing-Sees known l v
run-Sees known (e ∷ es) l h v =
    subst (λ ls. Sees ls (run es (step e l)))
      (append_assoc known (line_of e l) (lines es (step e l)))
      (run-Sees (known ++ line_of e l) es (step e l) (ground (arith, h))
        (step-Sees known e l (ground (arith, h)) v))

-- From any state with the output to the console on, through any sequence of calls of `output` other
-- than FATAL ones, changes of the level, requests to exit, and steps and wakings of the log's thread, whether
-- `fopen` and `fwrite` succeed or not: the lines on the console followed by those that wait are the
-- ones from before followed by the lines of the calls that pass the level, each once, in the order
-- of the calls.
pub console_in_order :
    (es : List Event) (l : Log)
    → l.console_output ≡ true
    → all_queued es ≡ true
    → (run es l).console ++ (run es l).queue ≡ (l.console ++ l.queue) ++ lines es l
console_in_order es l on h =
    let v = run-Sees (seen l) es l h (record { on = on; all = refl }) in v.all
