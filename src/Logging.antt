-- ===== src/Logging.antt =====
-- The asynchronous log of ChatServer, `CAsyncLog` (ChatServer/src/asynclog/AsyncLog.cpp): its
-- static members, where its thread stands, and what is on the console and on the disk.
pub mod Lines
pub mod Thread
pub mod Writing
pub mod Runs
pub mod Fifo
pub mod Sized
pub mod Dump
pub mod Drain
pub mod Lost
pub mod Size
use qt_chat.Base.{ℕ, Bool, Option, List}
use qt_chat.Base.Lists.{Str}
use qt_chat.Base.Map.{Map}

-- Where `writeThreadProc` stands: at the top of its loop; at the lock; with the lock, after it saw an
-- empty queue and `m_bExit` false and before it waits; in `m_cvWrite.wait`, without the lock; after a
-- `return`.
pub data Place : Type 0 where
  at_top : Place
  at_lock : Place
  checked : Place
  asleep : Place
  returned : Place

-- `console` is the text of each `std::cout` line, the newest last; `disk` the files by name;
-- `handle` the name that `m_hLogFile` is open on. `crashed` is after `crash`. Sizes are unbounded.
pub record Log : Type 0 where
  pub truncate_long : Bool
  pub file_name : Str
  pub pid : Str
  pub level : ℕ
  pub roll_size : ℕ
  pub written : ℕ
  pub queue : List Str
  pub console_output : Bool
  pub exit : Bool
  pub running : Bool
  pub handle : Option Str
  pub disk : Map Str Str
  pub console : List Str
  pub place : Place
  pub crashed : Bool
