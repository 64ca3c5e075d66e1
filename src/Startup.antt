-- ===== src/Startup.antt =====
-- The start of the server, ChatServer/src/server/main.cpp: the configuration, the log, the pool and
-- the address, and what happens on the way out. Of the log calls only LOGF is kept, which ends the
-- process in `crash`.
pub mod Ready
pub mod Served
pub mod Ending
use qt_chat.Base.{
  ℕ, ◌+◌, ◌-◌, ◌%◌, Bool, true, false, not, ◌&&◌, ◌||◌, ◌^◌, List, [], ◌∷◌, ◌++◌, Option, none,
  some,
}
use qt_chat.Base.Tests.{if◌then◌else◌, ◌==◌, leb, ltb, is_some}
use qt_chat.Base.Int.{ℤ, pos, negsuc}
use qt_chat.Base.Lists.{Str, codes, is_empty}
use qt_chat.Config.{Config, load_file, get_config_name}
use qt_chat.Pool.{Pool, new_pool, init as init_pool}
use qt_chat.Logging.{Log}
use qt_chat.Logging.Lines.{fatal, before_last_slash}
use qt_chat.Logging.Thread.{initial, output, init as init_log}
use qt_chat.Server.Models.Text.{atoi}

-- What the system answers: the path of the program (empty where `readlink` fails), the files that
-- can be read, the folders, the connections of MySQL by the number asked for, the clock, the texts of
-- a log line, whether log files can be opened and how they are written, whether `bind` and `listen`
-- succeed on an address, and the arguments.
pub record Host : Type 0 where
  pub exe : Str
  pub files : Str → Option Str
  pub has_dir : Str → Bool
  pub makes_dir : Str → Bool
  pub created : ℕ → List (Option ℕ)
  pub now : ℕ
  pub stamp : Str
  pub pid : Str
  pub prefix : Str
  pub place : Str → ℕ → Str
  pub opens : Bool
  pub accepts : ℕ → ℕ
  pub binds : Str → ℕ → Bool
  pub args : List Str

-- How far `main` comes: to its end with an exit code, to a crash, to the abort with which muduo ends
-- the process when `bind` or `listen` fails, or to the loop, with the address.
pub data Outcome : Type 0 where
  exits : ℕ → Log → Pool → Outcome
  crashes : Log → Pool → Outcome
  aborts : Log → Pool → Outcome
  serving : Str → ℕ → Log → Pool → Outcome

-- `getProjectRootDir`
unfoldable pub project_root : Str → Str
unfolding before_last_slash
project_root exe = if is_empty exe then codes "." else before_last_slash exe ++ codes "/.."

-- The configuration file.
unfoldable pub config_of : Host → Config
unfolding project_root load_file
config_of h = load_file (h.files (project_root h.exe ++ codes "/etc/chatserver.conf"))

unfoldable pub setting : Host → Str → Option Str
unfolding config_of get_config_name
setting h name = get_config_name name (config_of h)

-- `LOGF` at a line of a file.
unfoldable pub logf : Host → Str → ℕ → Str → Log → Log
unfolding output
logf h file line text l =
    (output fatal h.prefix (h.place file line) text h.opens h.stamp h.accepts l).1

-- `LOGF` and `return 1`.
unfoldable pub give_up : Host → ℕ → Str → Log → Pool → Outcome
unfolding logf
give_up h line text l p =
    let l' = logf h (codes "main.cpp") line text l in
    if l'.crashed then crashes l' p else exits 1 l' p

abbrev pub or_text : Str → Option Str → Str
or_text d none = d
or_text d (some s) = s

abbrev is_absolute : Str → Bool
is_absolute [] = false
is_absolute (c ∷ s) = c == b'/'

-- The folder of the log files.
unfoldable pub log_dir : Host → Str → Str
unfolding project_root
log_dir h dir =
    if is_empty dir || is_absolute dir then dir else project_root h.exe ++ codes "/" ++ dir

-- A size for `DbPool::init`, which turns a negative one down as it does 0.
abbrev pub size_of : ℤ → ℕ
size_of (pos n) = n
size_of (negsuc n) = 0

-- `atoi` of a size, or the default.
abbrev pub pool_size : ℕ → Option Str → ℕ
pool_size d none = d
pool_size d (some s) = size_of (atoi s)

-- `(short)atol(text)`, taken as a `uint16_t` by `InetAddress`.
abbrev pub port_16 : ℤ → ℕ
port_16 (pos n) = n % 2 ^ 16
port_16 (negsuc n) = 2 ^ 16 - 1 - n % 2 ^ 16

unfoldable pub port_of : Str → ℕ
unfolding atoi
port_of s = port_16 (atoi s)

-- The constructor of `ChatServer`, which binds the address, and `start`, which listens.
unfoldable pub start_server : Host → Str → ℕ → Log → Pool → Outcome
start_server h ip port l p = if h.binds ip port then serving ip port l p else aborts l p

-- The arguments of the program, which replace the address in the configuration.
unfoldable pub by_args : Host → Str → Str → Log → Pool → List Str → Outcome
unfolding port_of start_server
by_args h ip port l p [] = start_server h ip (port_of port) l p
by_args h ip port l p (a ∷ b ∷ []) = start_server h a (port_of b) l p
by_args h ip port l p _ = exits 1 l p

-- The end of `main` up to the loop.
unfoldable pub listen : Host → Option Str → Option Str → Log → Pool → Outcome
unfolding give_up by_args
listen h none port l p = give_up h 115 (codes "serverip not set in config file") l p
listen h (some ip) none l p = give_up h 117 (codes "serverport not set in config file") l p
listen h (some ip) (some port) l p = by_args h ip port l p h.args

-- A failed `DbPool::init`: with good sizes it makes a LOGF of its own.
unfoldable pub pool_fails : Host → Bool → Log → Pool → Outcome
unfolding give_up logf
pool_fails h good l p =
    let l' = logf h (codes "dbpool.cpp") 66 (codes "DbPool init: no connection available") l in
    let text = codes "DbPool init failed" in
    if good
    then (if l'.crashed then crashes l' p else give_up h 107 text l' p)
    else give_up h 107 text l p

unfoldable pub with_pool : Host → ℕ → ℕ → Bool × Pool → Log → Outcome
unfolding listen pool_fails
with_pool h size most (true, p) l =
    listen h (setting h (codes "serverip")) (setting h (codes "serverport")) l p
with_pool h size most (false, p) l = pool_fails h (not (size == 0 || ltb most size)) l p

unfoldable pub has_mysql : Host → Bool
unfolding setting
has_mysql h =
    is_some (setting h (codes "dbserver"))
    && (is_some (setting h (codes "dbuser"))
        && (is_some (setting h (codes "dbpassword")) && is_some (setting h (codes "dbname"))))

unfoldable pub least_size : Host → ℕ
unfolding setting atoi
least_size h = pool_size 8 (setting h (codes "dbpoolsize"))

unfoldable pub most_size : Host → ℕ
unfolding setting atoi
most_size h = pool_size 16 (setting h (codes "dbmaxpoolsize"))

-- From the settings of MySQL on.
unfoldable pub open_pool : Host → Log → Outcome
unfolding with_pool has_mysql least_size most_size give_up
open_pool h l =
    if has_mysql h
    then with_pool h (least_size h) (most_size h)
        (init_pool (least_size h) (most_size h) h.created h.now new_pool) l
    else give_up h 96 (codes "mysql config is not set in config file") l new_pool

-- The path of the log files.
unfoldable pub log_file : Host → Str → Str
unfolding log_dir setting
log_file h dir = log_dir h dir ++ or_text (codes "chatserver") (setting h (codes "logfilename"))

-- From the folder of the log on; 10 MiB is the default roll size.
unfoldable pub open_log : Host → Str → Outcome
unfolding log_file open_pool log_dir give_up init_log initial
open_log h dir =
    if h.has_dir (log_dir h dir) || h.makes_dir (log_dir h dir)
    then open_pool h (init_log h.exe (log_file h dir) false 10485760 h.pid initial)
    else give_up h 76 (codes "create base dir error") initial new_pool

abbrev pub with_dir : Host → Option Str → Outcome
with_dir h none = give_up h 56 (codes "logdir is not set in config file") initial new_pool
with_dir h (some dir) = open_log h dir

-- `main` up to `loop.loop()`.
unfoldable pub main : Host → Outcome
unfolding setting open_log
main h = with_dir h (setting h (codes "logfiledir"))
