-- ===== src/Pool.antt =====
-- The pool of MySQL connections, ChatServer/src/server/db/dbpool.cpp: `DbPool` and the handle
-- `PooledMySQL`. Every stretch of code under the lock `_mtx` is one function; the clock, the answers
-- of MySQL and what other threads do while the lock is off are arguments.
pub mod Steps
pub mod Counts
pub mod Invariant
pub mod Acquire
use qt_chat.Base.{
  ℕ, zero, suc, ◌+◌, ◌-◌, Bool, true, false, ◌||◌, not, List, [], ◌∷◌, ◌++◌, Option, none, some,
}
use qt_chat.Base.Tests.{if◌then◌else◌, ltb, leb, ◌==◌}
use qt_chat.Base.Lists.{is_empty}
use qt_chat.Base.Map.{Map, insert, erase, nat_key}

-- `ConnEntry`: a connection by its `MYSQL *`, and when it was last used.
pub record Entry : Type 0 where
  pub conn : ℕ
  pub last_used : ℕ

-- `DbPool`. `active` is an `int` that the code also counts down, by one for each connection that it
-- counted up before, so that ℕ gives the same numbers.
pub record Pool : Type 0 where
  pub idle : List Entry
  pub borrowed : Map ℕ ℕ
  pub active : ℕ
  pub pool_size : ℕ
  pub max_size : ℕ
  pub is_shut : Bool

-- `PooledMySQL`
pub record Handle : Type 0 where
  pub conn : ℕ
  pub acquire_time : ℕ
  pub released : Bool

abbrev pub idle_ping_threshold : ℕ
idle_ping_threshold = 30

abbrev pub leak_warn_threshold : ℕ
leak_warn_threshold = 1

abbrev pub leak_error_threshold : ℕ
leak_error_threshold = 5

-- `DbPool()`
abbrev pub new_pool : Pool
new_pool = record {
  idle = [];
  borrowed = [];
  active = 0;
  pool_size = 8;
  max_size = 16;
  is_shut = false;
}

abbrev push_created : Option ℕ → ℕ → List Entry → List Entry
push_created none now idle = idle
push_created (some c) now idle = idle ++ (record { conn = c; last_used = now } ∷ [])

-- The loop of `init`, with what `createConnection` returned in each round.
unfoldable pub create_all : List (Option ℕ) → ℕ → List Entry → List Entry
create_all [] now idle = idle
create_all (o ∷ os) now idle = create_all os now (push_created o now idle)

abbrev configured : ℕ → ℕ → List Entry → Pool → Pool
configured size most idle p = record p {
  pool_size = size;
  max_size = most;
  is_shut = false;
  idle = idle;
}

-- `DbPool::init`; `created n` is what the rounds of a loop of length `n` returned.
unfoldable pub init : ℕ → ℕ → (ℕ → List (Option ℕ)) → ℕ → Pool → Bool × Pool
unfolding create_all
init size most created now p =
    if size == 0 || ltb most size
    then (false, p)
    else let q = configured size most (create_all (created size) now p.idle) p in
      (not (is_empty q.idle), q)

-- `DbPool::shutdown`
unfoldable pub shutdown : Pool → Pool
shutdown p = if p.is_shut then p else record p { is_shut = true; idle = []; borrowed = [] }

-- `DbPool::returnConnection`
unfoldable pub return_connection : ℕ → ℕ → Pool → Pool
return_connection now c p =
    let q = record p { borrowed = erase c p.borrowed } in
    if p.is_shut then q else record q {
      idle = p.idle ++ (record { conn = c; last_used = now } ∷ []);
      active = p.active - 1;
    }

-- The log line that a time of use calls for.
pub data Notice : Type 0 where
  leaked : Notice
  slow : Notice
  fine : Notice

unfoldable pub hold_notice : ℕ → Notice
hold_notice hold =
    if ltb leak_error_threshold hold
    then leaked
    else if ltb leak_warn_threshold hold
    then slow
    else fine

-- `DbPool::checkStaleConnections`: what it reports for each borrowed connection.
unfoldable pub check_stale : ℕ → Map ℕ ℕ → List (ℕ × Notice)
unfolding hold_notice
check_stale now [] = []
check_stale now ((c, since) ∷ m) = (c, hold_notice (now - since)) ∷ check_stale now m

-- What the outside answers in one round of `acquire`: the clock, `mysql_ping`, `createConnection`.
pub record Answers : Type 0 where
  pub now : ℕ
  pub ping_ok : Bool
  pub created : Option ℕ

-- How a stretch of `acquire` under the lock ends.
pub data Turn : Type 0 where
  given : Handle → Pool → Turn
  again : Pool → Turn
  opening : Pool → Turn
  waiting : Turn

-- `_borrowedConns[raw] = time(nullptr); return new PooledMySQL(...)`
unfoldable pub lend : ℕ → ℕ → Pool → Turn
lend now c p =
    given (record { conn = c; acquire_time = now; released = false })
      (record p { borrowed = insert c now p.borrowed })

-- A connection that was made, or `_activeCount--` and another round.
unfoldable pub lend_created : Answers → Pool → Turn
unfolding lend
lend_created a p = elim a.created [
  | some c ↦ lend a.now c p
  | none ↦ again (record p { active = p.active - 1 })
]

-- Branch 1, after the pop: a long idle connection is pinged, and replaced where that fails.
unfoldable pub take_idle : Answers → Entry → Pool → Turn
unfolding lend lend_created
take_idle a e p =
    if ltb idle_ping_threshold (a.now - e.last_used)
    then if a.ping_ok then lend a.now e.conn p else lend_created a p
    else lend a.now e.conn p

-- One round of the loop, up to where the lock is given up.
unfoldable pub start_round : Answers → Pool → Turn
unfolding take_idle
start_round a p = elim p.idle [
  | e ∷ rest ↦ take_idle a e (record p { idle = rest; active = p.active + 1 })
  | [] ↦ if ltb p.active p.max_size then opening (record p { active = p.active + 1 }) else waiting
]

-- Branch 2 after `lock.lock()`.
unfoldable pub finish_open : Answers → Pool → Turn
unfolding lend_created
finish_open a p = lend_created a p

-- One round with what comes from outside it: what other threads do to the pool while the lock is
-- off, and whether a wait ends by a notification or by the deadline.
pub record Round : Type 0 where
  pub answers : Answers
  pub others : Pool → Pool
  pub notified : Bool

pub data Outcome : Type 0 where
  acquired : Handle → Pool → Outcome
  timed_out : Pool → Outcome
  -- the rounds are used up, and the loop still runs
  running : Pool → Outcome

-- `PooledMySQL::acquire`, for the rounds that it makes.
unfoldable pub acquire : List Round → Pool → Outcome
unfolding start_round finish_open
acquire [] p = running p
acquire (r ∷ rs) p = elim (start_round r.answers p) [
  | given h q ↦ acquired h q
  | again q ↦ acquire rs q
  | opening q ↦ elim (finish_open r.answers (r.others q)) [
    | given h t ↦ acquired h t
    | again t ↦ acquire rs t
    | opening t ↦ running t
    | waiting ↦ running q
  ]
  | waiting ↦ if r.notified then acquire rs (r.others p) else timed_out (r.others p)
]

-- `PooledMySQL::release`: the handle, the pool, and what is logged.
unfoldable pub release : ℕ → Handle → Pool → Handle × Pool × Notice
unfolding return_connection hold_notice
release now h p = if h.released then (h, p, fine) else (
  record h { released = true },
  return_connection now h.conn p,
  hold_notice (now - h.acquire_time),
)
