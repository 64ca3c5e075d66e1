-- ===== src/Logging/Drain.antt =====
-- What the log's thread does after the request to exit.
use qt_chat.Base.{
  ℕ, zero, suc, ◌+◌, ◌*◌, ◌<◌, ◌≡◌, ◌≢◌, refl, sym, ap, ◌∙◌, Bool, true, false, not, ◌&&◌, List, [],
  ◌∷◌, ◌++◌, append-nil, Option, none, some, inl, inr, arith,
}
use qt_chat.Base.Tests.{if◌then◌else◌, ◌==◌, Bool-cases, if-true, if-false}
use qt_chat.Base.Lists.{Str, length, take, drop, is_empty, length-drop}
use qt_chat.Logging.{Log, Place, at_top, at_lock, checked, asleep, returned}
use qt_chat.Logging.Lines.{least, after, write_to_file}
use qt_chat.Logging.Thread.{
  thread_step, roll, take_line, write_out, write_line, create_new_file, show, put_bytes, wrote,
  counted, at_place,
}
use qt_chat.Logging.Sized.{if-holds}
use qt_chat.Logging.Fifo.{Sees, at_place-Sees}

-- The thread runs: it neither waits nor is about to, and has not returned.
abbrev pub is_awake : Place → Bool
is_awake at_top = true
is_awake at_lock = true
is_awake checked = false
is_awake asleep = false
is_awake returned = false

-- No line that waits is empty.
unfoldable pub all_full : List Str → Bool
all_full [] = true
all_full (s ∷ ss) = not (is_empty s) && all_full ss

round_writes :
    (ret : ℕ) (s : Str) (o : Option (Str × Bool))
    → ret ≢ 0
    → (is_empty (drop ret s) ≡ false → (t : Str) × (o ≡ some (t, true)))
    → (t : Str) × ((if ret == 0
          then some ([], false)
          else if is_empty (drop ret s)
          then some (take ret s, true)
          else after (take ret s) o)
        ≡ some (t, true))
round_writes ret s o n h = elim (Bool-cases (is_empty (drop ret s))) [
  | inl e ↦
      (take ret s, sym (if-false {b = ret == 0} _ _ (ground (arith, n))) ∙ sym (if-true _ _ e))
  | inr f ↦
      let (t, e) = h f in
      (
        take ret s ++ t,
        sym (if-false {b = ret == 0} _ _ (ground (arith, n)))
            ∙ sym (if-false _ _ f)
            ∙ ap (after (take ret s)) e,
      )
]

module _ (accepts : ℕ → ℕ) (some_taken : (k : ℕ) → 0 < accepts k) where
  writes_all :
      (fuel k : ℕ) (s : Str)
      → length s < fuel
      → is_empty s ≡ false
      → (t : Str) × (write_to_file accepts fuel k s ≡ some (t, true))
  unfolding write_to_file
  writes_all zero k s h n = absurd (omega arith)
  writes_all (suc fuel) k [] h n = ground (arith, n)
  writes_all (suc fuel) k (c ∷ s) h n =
      round_writes (least (accepts k) (length (c ∷ s))) (c ∷ s)
        (write_to_file accepts fuel (suc k) (drop (least (accepts k) (length (c ∷ s))) (c ∷ s)))
        (λ z. ground (arith, z, some_taken k))
        (λ f.
          writes_all fuel (suc k) (drop (least (accepts k) (length (c ∷ s))) (c ∷ s))
            (ground (arith, length-drop (least (accepts k) (length (c ∷ s))) (c ∷ s), some_taken k))
            f)

  -- Where the thread stands, what waits, and whether it is asked to exit.
  abbrev Stand : Type 0
  Stand = Place × List Str × Bool

  abbrev stand : Log → Stand
  stand l = (l.place, l.queue, l.exit)

  put_bytes-stand :
      (h : Option Str) (t s : Str) (l : Log)
      → stand (counted s (true, put_bytes h t l)) ≡ (at_top, l.queue, l.exit)
  put_bytes-stand none t s l = refl
  put_bytes-stand (some n) t s l = refl

  show-stand :
      (s : Str) (l : Log) (x : Place)
      → stand (record (show s l) { place = x }) ≡ (x, l.queue, l.exit)
  unfolding show
  show-stand s l x =
      if-holds l.console_output (λ m. stand (record m { place = x }) ≡ (x, l.queue, l.exit))
        (record l { console = l.console ++ s ∷ [] }) l (λ t. refl) (λ f. refl)

  write_out-stand :
      (s : Str) (l : Log)
      → is_empty s ≡ false
      → stand (write_out accepts s l) ≡ (at_top, l.queue, l.exit)
  unfolding write_out write_line
  write_out-stand s l n =
      let shown = show s l in
      let (t, e) = writes_all (suc (length s)) 0 s (omega arith) n in
      if-holds (not (is_empty l.file_name)) (λ m. stand m ≡ (at_top, l.queue, l.exit))
        (counted s (write_line accepts s shown)) (record shown { place = at_top })
        (λ _.
          ap (λ o. stand (counted s (wrote o shown))) e
          ∙ put_bytes-stand shown.handle t s shown
          ∙ ap (λ d. (at_top, d.1, d.2)) (show-stand s l at_top))
        (λ _. show-stand s l at_top)

  module _ (now : Str) where
    roll-stand : (l : Log) → stand (roll true now l) ≡ (at_lock, l.queue, l.exit)
    unfolding roll create_new_file
    roll-stand l = ground arith

    -- Steps of the thread, with every `fopen` successful.
    unfoldable pub turns : ℕ → Log → Log
    unfolding thread_step
    turns zero l = l
    turns (suc n) l = turns n (thread_step true now accepts l)

    top-stand :
        (q : List Str) (e : Bool) (l : Log)
        → stand l ≡ (at_top, q, e)
        → stand (thread_step true now accepts l) ≡ (at_lock, q, e)
    unfolding thread_step
    top-stand q e l h =
        ap (λ d. stand (at_place d.0 true now accepts l)) h
        ∙ roll-stand l
        ∙ ap (λ d. (at_lock, d.1, d.2)) h

    line-stand :
        (s : Str) (ss : List Str) (e : Bool) (l : Log)
        → is_empty s ≡ false
        → stand l ≡ (at_lock, s ∷ ss, e)
        → stand (thread_step true now accepts l) ≡ (at_top, ss, e)
    unfolding thread_step take_line
    line-stand s ss e l n h =
        ap (λ d. stand (at_place d.0 true now accepts l)) h
        ∙ ap (λ d. stand (take_line accepts d.1 l)) h
        ∙ write_out-stand s (record l { queue = ss }) n
        ∙ ap (λ d. (at_top, ss, d.2)) h

    end-stand :
        (l : Log)
        → stand l ≡ (at_lock, [], true)
        → stand (thread_step true now accepts l) ≡ (returned, [], true)
    unfolding thread_step take_line
    end-stand l h =
        ap (λ d. stand (at_place d.0 true now accepts l)) h
        ∙ ap (λ d. stand (take_line accepts d.1 l)) h
        ∙ sym (
            ap stand (
              if-true (record l { place = returned }) (record l { place = checked })
                (ap (λ d. d.2) h)))
        ∙ ap (λ d. (returned, d.1, d.2)) h

    turns-suc :
        (n : ℕ) (l : Log)
        → stand (turns (suc n) l) ≡ stand (turns n (thread_step true now accepts l))
    unfolding turns
    turns-suc n l = refl

    rest-stand :
        (n : ℕ) (l : Log)
        → stand l ≡ (returned, [], true)
        → stand (turns n l) ≡ (returned, [], true)
    unfolding turns thread_step
    rest-stand zero l h = h
    rest-stand (suc n) l h =
        rest-stand n (thread_step true now accepts l)
          (ap (λ d. stand (at_place d.0 true now accepts l)) h ∙ h)

    -- From the lock, and from the top of the loop, with enough steps.
    lock-stand :
        (q : List Str) (n : ℕ) (l : Log)
        → all_full q ≡ true
        → 2 * length q < n
        → stand l ≡ (at_lock, q, true)
        → stand (turns n l) ≡ (returned, [], true)
    unfolding turns all_full
    lock-stand q zero l f k h = absurd (omega arith)
    lock-stand [] (suc n) l f k h = rest-stand n (thread_step true now accepts l) (end-stand l h)
    lock-stand (s ∷ ss) (suc zero) l f k h = absurd (omega arith)
    lock-stand (s ∷ ss) (suc (suc n)) l f k h =
        let after_line = thread_step true now accepts l in
        lock-stand ss n (thread_step true now accepts after_line) (ground (arith, f)) (omega arith)
          (top-stand ss true after_line (line-stand s ss true l (ground (arith, f)) h))

    turns-stand :
        (q : List Str) (p : Place) (l : Log)
        → all_full q ≡ true
        → is_awake p ≡ true
        → stand l ≡ (p, q, true)
        → stand (turns (2 * length q + 2) l) ≡ (returned, [], true)
    turns-stand q at_lock l f n h = lock-stand q (2 * length q + 2) l f (omega arith) h
    turns-stand q checked l f n h = absurd (ground (arith, n))
    turns-stand q asleep l f n h = absurd (ground (arith, n))
    turns-stand q returned l f n h = absurd (ground (arith, n))
    turns-stand q at_top l f n h =
        let more : 2 * length q + 2 ≡ suc (2 * length q + 1) = omega arith in
        ap (λ k. stand (turns k l)) more
        ∙ turns-suc (2 * length q + 1) l
        ∙ lock-stand q (2 * length q + 1) (thread_step true now accepts l) f (omega arith)
            (top-stand q true l h)

    turns-Sees : (known : List Str) (n : ℕ) (l : Log) → Sees known l → Sees known (turns n l)
    unfolding turns thread_step
    turns-Sees known zero l v = v
    turns-Sees known (suc n) l v =
        turns-Sees known n (thread_step true now accepts l)
          (at_place-Sees known l.place true now accepts l v)

    -- Once the log is asked to exit, with its thread running, the output to the console on and no
    -- empty line in the queue, where every `fopen` succeeds and every `fwrite`
    -- takes at least one byte: after two steps for each line that waits and two more, the thread has
    -- returned, no line waits, and the console shows what it showed before followed by all the lines
    -- that waited, in order.
    pub exit_drains :
        (l : Log)
        → is_awake l.place ≡ true
        → l.exit ≡ true
        → l.console_output ≡ true
        → all_full l.queue ≡ true
        → ((turns (2 * length l.queue + 2) l).place ≡ returned)
          × ((turns (2 * length l.queue + 2) l).queue ≡ [])
          × ((turns (2 * length l.queue + 2) l).console ≡ l.console ++ l.queue)
    exit_drains l p e on f =
        let m = turns (2 * length l.queue + 2) l in
        let h = turns-stand l.queue l.place l f p (ap (λ y. (l.place, l.queue, y)) e) in
        let v =
          turns-Sees (l.console ++ l.queue) (2 * length l.queue + 2) l
            (record { on = on; all = refl }) in
        (
          ap (λ d. d.0) h,
          ap (λ d. d.1) h,
          sym (append-nil m.console) ∙ sym (ap (λ d. m.console ++ d.1) h) ∙ v.all,
        )
