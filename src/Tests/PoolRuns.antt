-- ===== src/Tests/PoolRuns.antt =====
-- The pool's theorems at a pool of one connection, limited to two.
use qt_chat.Base.{ℕ, ◌+◌, ◌≤◌, ◌≡◌, refl, true, false, List, [], ◌∷◌, Option, none, some, ◌⊎◌}
use qt_chat.Base.Map.{nat_key, insert}
use qt_chat.Pool.{Pool, Handle, Answers, Round, given, start_round, init, new_pool}
use qt_chat.Pool.Steps.{System, take, Steps, stay, then_step}
use qt_chat.Pool.Invariant.{begun, pool_bounded}

abbrev one_made : ℕ → List (Option ℕ)
one_made n = some 7 ∷ []

abbrev ready : Pool
ready = record {
  idle = record { conn = 7; last_used = 100 } ∷ [];
  borrowed = [];
  active = 0;
  pool_size = 1;
  max_size = 2;
  is_shut = false;
}

initialised : (init 1 2 one_made 100 new_pool) ≡ (true, ready)
unfolding init
initialised = refl

at_110 : Answers
at_110 = record { now = 110; ping_ok = true; created = none }

abbrev lent : Pool
lent = record ready { idle = []; active = 1; borrowed = (7, 110) ∷ [] }

abbrev first_handle : Handle
first_handle = record { conn = 7; acquire_time = 110; released = false }

first_round : start_round at_110 (init 1 2 one_made 100 new_pool).1 ≡ given first_handle lent
unfolding init start_round at_110 insert
first_round = refl

abbrev in_use : System
in_use = record { pool = lent; holding = 1; connecting = 0 }

one_step : Steps (begun (init 1 2 one_made 100 new_pool).1) in_use
one_step =
    then_step _ _ _ (stay (begun (init 1 2 one_made 100 new_pool).1))
      (take at_110 first_handle lent (begun (init 1 2 one_made 100 new_pool).1) first_round)

pool_bounded_example : (0 + (1 + 0) ≤ 2) × ((false ≡ true) ⊎ (1 ≡ 1 + 0))
unfolding init
pool_bounded_example = pool_bounded 1 2 100 one_made in_use refl refl one_step

abbrev down : Round
down = record {
  answers = record { now = 200; ping_ok = false; created = none };
  others = λ p. p;
  notified = false;
}

abbrev up_again : Round
up_again = record {
  answers = record { now = 120; ping_ok = true; created = some 8 };
  others = λ p. p;
  notified = false;
}
