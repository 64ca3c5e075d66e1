-- ===== src/Pool/Acquire.antt =====
-- Single runs of `acquire` and `release`: reuse of a returned connection, the second release, the
-- loop while MySQL is down, and the pool after its shutdown.
use qt_chat.Base.{
  ℕ, ◌+◌, ◌-◌, ◌≤◌, ◌<◌, ◌≡◌, refl, ap, ◌∙◌, true, false, List, [], ◌∷◌, none, some, inl, inr,
  arith,
}
use qt_chat.Base.Tests.{ltb, Bool-cases}
use qt_chat.Base.Map.{lookup, insert, erase, lookup-insert, nat_key}
use qt_chat.Pool.{
  Entry, Pool, Handle, Answers, Round, acquired, running, fine, again, opening, acquire,
  start_round, take_idle, lend, lend_created, finish_open, return_connection, shutdown, release,
}

-- A round in which no connection is made and no other thread touches the pool.
pub record Failing (r : Round) : Type 0 where
  pub not_made : r.answers.created ≡ none
  pub alone : (p : Pool) → r.others p ≡ p

abbrev pub AllFailing : List Round → Type 0
AllFailing [] = Unit {0}
AllFailing (r ∷ rs) = Failing r × AllFailing rs

-- The pool after branch 2 has counted the new connection.
abbrev counted_up : Pool → Pool
counted_up p = record p { active = p.active + 1 }

starts_opening :
    (a : Answers) (p : Pool)
    → p.idle ≡ []
    → p.active < p.max_size
    → start_round a p ≡ opening (counted_up p)
unfolding start_round
starts_opening a p i space = elim (Bool-cases (ltb p.active p.max_size)) [
  | inl yes' ↦
      rw (i, yes', start_round) (ap (λ l. opening (record p { idle = l; active = p.active + 1 })) i)
  | inr full ↦ absurd (ground arith)
]

fails : (a : Answers) (p : Pool) → a.created ≡ none → finish_open a (counted_up p) ≡ again p
unfolding finish_open lend_created
fails a p e = rw e (ap (λ (n : ℕ). again (record p { active = n })) (omega arith))

open_round :
    (r : Round) (rs : List Round) (p q : Pool)
    → start_round r.answers p ≡ opening q
    → finish_open r.answers (r.others q) ≡ again p
    → acquire (r ∷ rs) p ≡ acquire rs p
unfolding acquire
open_round r rs p q e f = rw (acquire, e, f) refl

down_round :
    (r : Round) (rs : List Round) (p : Pool)
    → Failing r
    → p.idle ≡ []
    → p.active < p.max_size
    → acquire (r ∷ rs) p ≡ acquire rs p
down_round r rs p f i space =
    open_round r rs p (counted_up p) (starts_opening r.answers p i space)
      (ap (finish_open r.answers) (f.alone (counted_up p)) ∙ fails r.answers p f.not_made)

-- With no idle connection and room for more, `acquire` does not return while MySQL refuses
-- connections and no other thread touches the pool, after any number of rounds and whatever the
-- clock says: the deadline is looked at only in a wait.
acquire_keeps_trying :
    (rs : List Round) (p : Pool)
    → AllFailing rs
    → p.idle ≡ []
    → p.active < p.max_size
    → acquire rs p ≡ running p
unfolding acquire
acquire_keeps_trying [] p f i space = refl
acquire_keeps_trying (r ∷ rs) p f i space =
    down_round r rs p f.0 i space ∙ acquire_keeps_trying rs p f.1 i space

-- A second `release` of a handle changes nothing.
pub release_twice :
    (now later : ℕ) (h : Handle) (p : Pool)
    → let (h', p', n) = release now h p in release later h' p' ≡ (h', p', fine)
unfolding release
release_twice now later h p = elim (Bool-cases h.released) [
  | inl before ↦ rw before refl
  | inr first ↦ rw first refl
]

lends : (a : Answers) (c : ℕ) (p : Pool) → a.created ≡ some c → finish_open a p ≡ lend a.now c p
unfolding finish_open lend_created
lends a c p e = rw e refl

opened_round :
    (r : Round) (rs : List Round) (p q : Pool) (c : ℕ)
    → start_round r.answers p ≡ opening q
    → finish_open r.answers (r.others q) ≡ lend r.answers.now c q
    → acquire (r ∷ rs) p
      ≡ acquired
          (record { conn = c; acquire_time = r.answers.now; released = false })
          (record q { borrowed = insert c r.answers.now q.borrowed })
unfolding acquire lend
opened_round r rs p q c e f = rw (acquire, e, f) refl

-- After a shutdown `acquire` still opens and hands out a connection, while there is room, MySQL
-- gives one and no other thread touches the pool meanwhile.
acquire_after_shutdown :
    (r : Round) (rs : List Round) (p : Pool) (c : ℕ)
    → r.answers.created ≡ some c
    → ((q : Pool) → r.others q ≡ q)
    → p.is_shut ≡ false
    → p.active < p.max_size
    → acquire (r ∷ rs) (shutdown p)
      ≡ acquired
          (record { conn = c; acquire_time = r.answers.now; released = false })
          (record p {
            idle = [];
            borrowed = (c, r.answers.now) ∷ [];
            active = p.active + 1;
            is_shut = true;
          })
unfolding shutdown insert
acquire_after_shutdown r rs p c made alone open_yet space = rw open_yet (
    opened_round r rs stopped (counted_up stopped) c (starts_opening r.answers stopped refl space) (
      ap (finish_open r.answers) (alone (counted_up stopped))
      ∙ lends r.answers c (counted_up stopped) made))
  where
    stopped : Pool
    stopped = record p { is_shut = true; idle = []; borrowed = [] }

takes_fresh :
    (r : Round) (rs : List Round) (p : Pool) (e : Entry) (rest : List Entry)
    → p.idle ≡ e ∷ rest
    → ltb 30 (r.answers.now - e.last_used) ≡ false
    → acquire (r ∷ rs) p
      ≡ acquired
          (record { conn = e.conn; acquire_time = r.answers.now; released = false })
          (record p {
            idle = rest;
            active = p.active + 1;
            borrowed = insert e.conn r.answers.now p.borrowed;
          })
unfolding acquire start_round take_idle lend
takes_fresh r rs p e rest i fresh = rw (i, acquire, start_round, fresh) refl

-- A connection that was returned to an open pool without other idle ones is handed out by the next
-- `acquire` within 30 seconds, without a ping, and is on record as borrowed; the number in use is as
-- before the return.
return-then_acquire :
    (now c : ℕ) (r : Round) (rs : List Round) (p : Pool)
    → p.is_shut ≡ false
    → p.idle ≡ []
    → 0 < p.active
    → r.answers.now ≤ now + 30
    → (q : Pool) × (acquire (r ∷ rs) (return_connection now c p)
        ≡ acquired (record { conn = c; acquire_time = r.answers.now; released = false }) q)
      × (q.idle ≡ [])
      × (q.active ≡ p.active)
      × (lookup c q.borrowed ≡ some r.answers.now)
unfolding return_connection
return-then_acquire now c r rs p open_yet i used soon =
    rw (open_yet, i)
      (
        _,
        takes_fresh r rs _ (record { conn = c; last_used = now }) [] refl (ground arith),
        refl,
        omega arith,
        lookup-insert c c r.answers.now (erase c p.borrowed) ∙ ground arith,
      )
