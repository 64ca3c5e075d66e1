-- ===== src/Pool/Steps.antt =====
-- The threads around the pool: how many hold a handle and how many are connecting outside the lock,
-- and the stretches of code that each may run next, in any order.
use qt_chat.Base.{ℕ, suc, ◌≡◌}
use qt_chat.Pool.{
  Pool, Handle, Answers, given, again, opening, start_round, finish_open, return_connection,
  shutdown,
}

pub record System : Type 0 where
  pub pool : Pool
  pub holding : ℕ
  pub connecting : ℕ

pub data Step : System → System → Type 0 where
  -- a round of `acquire` that returns a connection at once
  take :
      (a : Answers) (h : Handle) (q : Pool) (s : System)
      → start_round a s.pool ≡ given h q
      → Step s (record s { pool = q; holding = suc s.holding })
  -- a round in which the ping and the new connection failed
  retry :
      (a : Answers) (q : Pool) (s : System)
      → start_round a s.pool ≡ again q
      → Step s (record s { pool = q })
  -- a round that goes on to connect outside the lock
  begin :
      (a : Answers) (q : Pool) (s : System)
      → start_round a s.pool ≡ opening q
      → Step s (record s { pool = q; connecting = suc s.connecting })
  -- the lock is taken again, with a new connection
  finish :
      (a : Answers) (h : Handle) (p q : Pool) (n k : ℕ)
      → finish_open a p ≡ given h q
      → Step
          (record { pool = p; holding = n; connecting = suc k })
          (record { pool = q; holding = suc n; connecting = k })
  -- the lock is taken again, without one
  fail :
      (a : Answers) (p q : Pool) (n k : ℕ)
      → finish_open a p ≡ again q
      → Step
          (record { pool = p; holding = n; connecting = suc k })
          (record { pool = q; holding = n; connecting = k })
  give_back :
      (now c : ℕ) (p : Pool) (n k : ℕ)
      → Step
          (record { pool = p; holding = suc n; connecting = k })
          (record { pool = return_connection now c p; holding = n; connecting = k })
  stop : (s : System) → Step s (record s { pool = shutdown s.pool })

-- Any number of steps.
pub data Steps : System → System → Type 0 where
  stay : (s : System) → Steps s s
  then_step : (s t u : System) → Steps s t → Step t u → Steps s u
