-- ===== src/Pool/Invariant.antt =====
-- The pool's limit: through any interleaving of the threads, the connections that are idle, in use or
-- being made are at most `_maxPoolSize`.
use qt_chat.Base.{
  ℕ, suc, ◌+◌, ◌≤◌, ◌<◌, ◌≡◌, refl, sym, ◌∙◌, subst, true, false, ◌||◌, List, [], ◌∷◌, ◌++◌, Option,
  none, some, inl, inr, ◌⊎◌, arith,
}
use qt_chat.Base.Tests.{ltb, ◌==◌, Bool-cases}
use qt_chat.Base.Lists.{length, length-append}
use qt_chat.Pool.{Entry, Pool, return_connection, shutdown, init, create_all, new_pool}
use qt_chat.Pool.Counts.{Counts, Accounts, Closes, start_round-Accounts, finish_open-Closes}
use qt_chat.Pool.Steps.{
  System, Step, take, retry, begin, finish, fail, give_back, stop, Steps, stay, then_step,
}

-- A limit on one pool, and how its counter stands to the threads.
pub record Valid (most : ℕ) (s : System) : Type 0 where
  pub limit : s.pool.max_size ≡ most
  pub room : length s.pool.idle + s.pool.active ≤ most
  pub counted : s.holding + s.connecting ≤ s.pool.active
  pub exact : s.pool.is_shut ≡ false → s.pool.active ≡ s.holding + s.connecting

-- Counts within the limit make a valid system.
moved-Valid :
    {most : ℕ} (s : System) (q : Pool) (n k i a : ℕ)
    → Valid most s
    → Counts i a s.pool.max_size s.pool.is_shut q
    → i + a ≤ length s.pool.idle + s.pool.active
    → n + k ≤ a
    → (s.pool.active ≡ s.holding + s.connecting → a ≡ n + k)
    → Valid most (record { pool = q; holding = n; connecting = k })
moved-Valid s q n k i a v m le c ex = record {
  limit = m.max_is ∙ v.limit;
  room = omega (arith, v.room, m.idle_is, m.active_is);
  counted = omega (arith, m.active_is);
  exact = λ h. m.active_is ∙ ex (v.exact (sym m.shut_is ∙ h));
}

opened-Valid :
    {most : ℕ} (s : System) (q : Pool)
    → Valid most s
    → (length s.pool.idle ≡ 0)
      × (s.pool.active < s.pool.max_size)
      × Counts 0 (suc s.pool.active) s.pool.max_size s.pool.is_shut q
    → Valid most (record s { pool = q; connecting = suc s.connecting })
opened-Valid s q v (none_idle, space, m) = record {
  limit = m.max_is ∙ v.limit;
  room = omega (arith, v.limit, m.idle_is, m.active_is);
  counted = omega (arith, v.counted, m.active_is);
  exact = λ h. omega (arith, m.active_is, v.exact (sym m.shut_is ∙ h));
}

returned-Valid :
    {most : ℕ} (now c n k : ℕ) (p : Pool)
    → Valid most (record { pool = p; holding = suc n; connecting = k })
    → Valid most (record { pool = return_connection now c p; holding = n; connecting = k })
unfolding return_connection
returned-Valid now c n k p v = elim (Bool-cases p.is_shut) [
  | inl shut ↦ rw shut (record {
    limit = v.limit;
    room = v.room;
    counted = omega (arith, v.counted);
    exact = λ h. ground (arith, h, shut);
  })
  | inr open_yet ↦ rw open_yet (record {
    limit = v.limit;
    room = omega (
      arith,
      v.room,
      v.counted,
      length-append p.idle (record { conn = c; last_used = now } ∷ []),
    );
    counted = omega (arith, v.counted);
    exact = λ h. omega (arith, v.exact open_yet);
  })
]

shutdown-Valid :
    {most : ℕ} (s : System) → Valid most s → Valid most (record s { pool = shutdown s.pool })
unfolding shutdown
shutdown-Valid s v = elim (Bool-cases s.pool.is_shut) [
  | inl shut ↦ rw shut (record {
    limit = v.limit;
    room = v.room;
    counted = v.counted;
    exact = λ h. ground (arith, h);
  })
  | inr open_yet ↦ rw open_yet (record {
    limit = v.limit;
    room = omega (arith, v.room);
    counted = v.counted;
    exact = λ h. ground (arith, h);
  })
]

Step-Valid : {most : ℕ} (s t : System) → Step s t → Valid most s → Valid most t
Step-Valid _ _ (take a h q s e) v =
    let m =
      subst (Accounts (length s.pool.idle) s.pool.active s.pool.max_size s.pool.is_shut) e
        (start_round-Accounts a s.pool) in
    moved-Valid s q (suc s.holding) s.connecting _ _ v m.1 (omega (arith, m.0))
      (omega (arith, v.counted)) (λ x. omega arith)
Step-Valid _ _ (retry a q s e) v =
    let m =
      subst (Accounts (length s.pool.idle) s.pool.active s.pool.max_size s.pool.is_shut) e
        (start_round-Accounts a s.pool) in
    moved-Valid s q s.holding s.connecting _ _ v m.1 (omega arith) v.counted (λ x. x)
Step-Valid _ _ (begin a q s e) v = opened-Valid s q v (
    subst (Accounts (length s.pool.idle) s.pool.active s.pool.max_size s.pool.is_shut) e
      (start_round-Accounts a s.pool))
Step-Valid _ _ (finish a h p q n k e) v =
    moved-Valid _ q (suc n) k _ _ v
      (subst (Closes (length p.idle) p.active p.max_size p.is_shut) e (finish_open-Closes a p))
      (omega arith) (omega (arith, v.counted)) (λ x. omega (arith, x))
Step-Valid _ _ (fail a p q n k e) v =
    moved-Valid _ q n k _ _ v
      (subst (Closes (length p.idle) p.active p.max_size p.is_shut) e (finish_open-Closes a p))
      (omega arith) (omega (arith, v.counted)) (λ x. omega (arith, x))
Step-Valid _ _ (give_back now c p n k) v = returned-Valid now c n k p v
Step-Valid _ _ (stop s) v = shutdown-Valid s v

Steps-Valid : {most : ℕ} (s t : System) → Steps s t → Valid most s → Valid most t
Steps-Valid _ _ (stay s) v = v
Steps-Valid _ _ (then_step s t u r e) v = Step-Valid t u e (Steps-Valid s t r v)

length-create_all :
    (os : List (Option ℕ)) (now : ℕ) (idle : List Entry)
    → length (create_all os now idle) ≤ length idle + length os
unfolding create_all
length-create_all [] now idle = omega arith
length-create_all (none ∷ os) now idle = omega (arith, length-create_all os now idle)
length-create_all (some c ∷ os) now idle =
    let e : Entry = record { conn = c; last_used = now } in
    omega (arith, length-create_all os now (idle ++ (e ∷ [])), length-append idle (e ∷ []))

-- The system after `init` at the start of the process.
abbrev pub begun : Pool → System
begun p = record { pool = p; holding = 0; connecting = 0 }

init-Valid :
    (size most now : ℕ) (created : ℕ → List (Option ℕ))
    → length (created size) ≡ size
    → (init size most created now new_pool).0 ≡ true
    → Valid most (begun (init size most created now new_pool).1)
unfolding init
init-Valid size most now created len ok = elim (Bool-cases (size == 0 || ltb most size)) [
  | inl bad ↦ absurd (ground (arith, ok, bad))
  | inr good ↦ rw good (record {
    limit = refl;
    room = ground (arith, length-create_all (created size) now []);
    counted = omega arith;
    exact = λ h. omega arith;
  })
]

-- After an `init` that succeeded at the start of the process, in every state that any interleaving
-- of `acquire`, `release` and `shutdown` reaches: the connections that are idle, held or being
-- made are at most the limit, and until a shutdown the counter is the number of those held or
-- being made.
pub pool_bounded :
    (size most now : ℕ) (created : ℕ → List (Option ℕ)) (s : System)
    → length (created size) ≡ size
    → (init size most created now new_pool).0 ≡ true
    → Steps (begun (init size most created now new_pool).1) s
    → (length s.pool.idle + (s.holding + s.connecting) ≤ most)
      × ((s.pool.is_shut ≡ true) ⊎ (s.pool.active ≡ s.holding + s.connecting))
pool_bounded size most now created s len ok r =
    let v = Steps-Valid _ s r (init-Valid size most now created len ok) in
    (
      omega (arith, v.room, v.counted),
      elim (Bool-cases s.pool.is_shut) [
        | inl shut ↦ inl shut
        | inr open_yet ↦ inr (v.exact open_yet)
      ],
    )
