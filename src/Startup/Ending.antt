-- ===== src/Startup/Ending.antt =====
-- The end of `main`, after a signal made `resetHandler` quit the loop.
use qt_chat.Base.{ℕ, ◌+◌, ◌*◌, ◌<◌, Bool, true, false, ◌∷◌, ◌++◌, none, ◌≡◌, refl, arith}
use qt_chat.Base.Lists.{Str, length}
use qt_chat.Pool.{Pool, shutdown}
use qt_chat.Logging.{Log, Place, at_top, at_lock, checked, asleep, returned}
use qt_chat.Logging.Thread.{ask_exit, notified, close_file}
use qt_chat.Logging.Drain.{is_awake, all_full, turns, exit_drains}
use qt_chat.Server.Api.{JsonApi, Mysql, Pubsub, reset_user_states}
use qt_chat.Server.State.{State, ran, ◌>>=◌}
use qt_chat.Server.Models.{with_connection, run_update, user_reset_state}
use qt_chat.Server.Dispatch.{reset}

-- The whole process: the service, the pool and the log.
pub record Process (Db Link : Type 0) : Type 0 where
  pub service : State Db Link
  pub pool : Pool
  pub log : Log

-- The thread is in its loop, and not between its look at `m_bExit` and its wait.
abbrev pub hears : Place → Bool
hears at_top = true
hears at_lock = true
hears checked = false
hears asleep = true
hears returned = false

notified-awake : (p : Place) → hears p ≡ true → is_awake (notified p) ≡ true
notified-awake at_top h = refl
notified-awake at_lock h = refl
notified-awake checked h = h
notified-awake asleep h = refl
notified-awake returned h = h

module _ (J : JsonApi) (D : Mysql) (R : Pubsub) where
  open D use {Db, acquire}
  open R use {Link}

  -- `reset`, `shutdown` and `uninit`; `joined` is what the log's thread does until the join.
  unfoldable pub wind_down : (Log → Log) → Process Db Link → Process Db Link
  unfolding reset shutdown ask_exit close_file
  wind_down joined m = record {
    service = (reset J D R m.service).1;
    pool = shutdown m.pool;
    log = close_file (joined (ask_exit m.log));
  }

  reset-trace :
      (s : State Db Link)
      → (acquire s.db).0 ≡ true
      → (reset J D R s).1.trace ≡ ran reset_user_states ∷ s.trace
  unfolding reset user_reset_state with_connection run_update ◌>>=◌
  reset-trace s given = rw given refl

  module _ (accepts : ℕ → ℕ) (some_taken : (k : ℕ) → 0 < accepts k) (now : Str) where
    abbrev pub drained : Log → Log
    drained l = turns accepts some_taken now (2 * length l.queue + 2) l

    -- On the way out of `main`, with a connection from the pool, the log's thread in its loop and not
    -- between its look at the request to exit and its wait, its output to the console on and no empty
    -- line in its queue, where every `fopen` succeeds
    -- and every `fwrite` takes at least one byte: the last statement sets all users offline; the pool
    -- is shut; and after two steps of the log's thread for each line that waits and
    -- two more, the thread has returned, the file is closed, and the console shows all the lines.
    pub clean_exit :
        (m : Process Db Link)
        → (acquire m.service.db).0 ≡ true
        → hears m.log.place ≡ true
        → m.log.console_output ≡ true
        → all_full m.log.queue ≡ true
        → ((wind_down drained m).service.trace ≡ ran reset_user_states ∷ m.service.trace)
          × ((wind_down drained m).pool.is_shut ≡ true)
          × ((wind_down drained m).log.place ≡ returned)
          × ((wind_down drained m).log.handle ≡ none)
          × ((wind_down drained m).log.console ≡ m.log.console ++ m.log.queue)
    unfolding wind_down shutdown
    clean_exit m given top on full =
        let (a, b, c) =
          exit_drains accepts some_taken now (ask_exit m.log) (notified-awake m.log.place top) refl
            on full in
        (reset-trace m.service given, ground arith, a, refl, c)
