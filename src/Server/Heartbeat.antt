-- ===== src/Server/Heartbeat.antt =====
-- The timer of `checkHeartbeat`: `startHeartbeatCheck` and `stopHeartbeatCheck`, over muduo's loop.
use mathlib.Core.List.{Memᴰ}
use mathlib.Core.List.Memᴰ.{append_left}
use qt_chat.Base.{ℕ, suc, ◌+◌, ◌-◌, ◌*◌, ◌/◌, ◌<◌, ◌≤◌, refl, Option, none, some, arith}
use qt_chat.Base.Lists.{Str}
use qt_chat.Server.Api.{JsonApi, Mysql, Pubsub}
use qt_chat.Server.State.{Conn, State, closed}
use qt_chat.Server.Dispatch.{check_heartbeat}
use qt_chat.Server.Silence.{check_heartbeat_closes}

-- muduo's `EventLoop`: `run_every` takes seconds.
pub record EventLoop : Type 1 where
  pub Loop : Type 0
  pub TimerId : Type 0
  pub run_every : ℕ → Loop → TimerId × Loop
  pub cancel : TimerId → Loop → Loop

-- Seconds between two checks.
abbrev pub period : ℕ
period = 15

module _ (E : EventLoop) where
  open E use {Loop, TimerId, run_every, cancel}

  -- `_heartbeatTimerId`, `none` while `_loop` is null.
  unfoldable pub start_heartbeat_check : Loop → Option TimerId × Loop
  start_heartbeat_check loop = let (id, loop') = run_every period loop in (some id, loop')

  unfoldable pub stop_heartbeat_check : Option TimerId → Loop → Loop
  stop_heartbeat_check none loop = loop
  stop_heartbeat_check (some id) loop = cancel id loop

-- When the timer's check number k, from 0, runs.
abbrev pub tick : ℕ → ℕ → ℕ
tick start k = start + period * suc k

-- The number of the first check that finds a connection silent since `last`.
abbrev pub finding_check : ℕ → ℕ → ℕ
finding_check start last = (last - start + 30) / 15

module _ (J : JsonApi) (D : Mysql) (R : Pubsub) where
  -- A connection whose last message came at a time after the start of the timer is shut down by the
  -- check with this number, which runs at most 45 seconds after that message, whatever else the
  -- state is then.
  pub silent_closed_in_time :
      (start last : ℕ)
      → start ≤ last
      → (s : State D.Db R.Link) (name : Str) (c : Conn) → Memᴰ (name, (last, c)) s.last_time
      → (tick start (finding_check start last) ≤ last + 45)
        × Memᴰ (closed c) (check_heartbeat J D R (tick start (finding_check start last)) s).1.trace
  silent_closed_in_time start last h s name c m =
      let now : ℕ = tick start (finding_check start last) in
      let late : 30 < now - last = omega arith in
      let (evs, run, back) = check_heartbeat_closes J D R now s in
      (
        omega arith,
        rw run (append_left s.trace ((back (closed c)).1 (c, refl, (name, last, m, late)))),
      )
