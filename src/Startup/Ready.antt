-- ===== src/Startup/Ready.antt =====
-- When `main` reaches its loop, and in which state.
use qt_chat.Base.{
  ℕ, Bool, true, false, not, ◌&&◌, ◌||◌, List, [], ◌∷◌, ◌++◌, Option, none, some, ◌≡◌, refl, ap,
  ◌∙◌, arith,
}
use qt_chat.Base.Tests.{if◌then◌else◌, ◌==◌, is_some, ltb, leb}
use qt_chat.Base.Lists.{Str, codes, is_empty}
use qt_chat.Pool.{Pool, Entry, new_pool, create_all, init as init_pool}
use qt_chat.Logging.{Log}
use qt_chat.Logging.Thread.{initial, init as init_log}
use qt_chat.Server.Models.Text.{atoi}
use qt_chat.Startup.{
  Host, Outcome, exits, crashes, aborts, serving, project_root, setting, give_up, or_text,
  pool_size, port_of, log_dir, start_server, by_args, listen, pool_fails, with_pool, has_mysql,
  least_size, most_size, open_pool, log_file, open_log, with_dir, main,
}

abbrev pub is_serving : Outcome → Bool
is_serving (exits n l p) = false
is_serving (crashes l p) = false
is_serving (aborts l p) = false
is_serving (serving ip port l p) = true

-- The folder that a setting names, from the folder above the program's where it is relative.
unfoldable pub folder : Str → Str → Str
folder root [] = []
folder root (c ∷ s) = if c == b'/' then c ∷ s else root ++ codes "/" ++ c ∷ s

abbrev all_set : Host → List Str → Bool
all_set h [] = true
all_set h (name ∷ names) = is_some (setting h name) && all_set h names

abbrev pub text_of : Host → Str → Str
text_of h name = or_text [] (setting h name)

abbrev any_some : List (Option ℕ) → Bool
any_some [] = false
any_some (o ∷ os) = is_some o || any_some os

-- There is a folder for the log.
unfoldable folder_ready : Host → Str → Bool
unfolding folder
folder_ready h dir =
    h.has_dir (folder (project_root h.exe) dir) || h.makes_dir (folder (project_root h.exe) dir)

-- The sizes of the pool are in order, and one of its first connections comes about.
abbrev sizes_ready : Host → ℕ → ℕ → Bool
sizes_ready h least most = leb 1 least && (leb least most && any_some (h.created least))

-- The address can be bound; it is the one of the settings, or that of two arguments.
abbrev address_ready : Host → List Str → Str → Str → Bool
address_ready h [] ip port = h.binds ip (port_of port)
address_ready h (a ∷ b ∷ []) ip port = h.binds a (port_of b)
address_ready h _ ip port = false

abbrev needed : List Str
needed =
    codes "logfiledir"
    ∷ codes "dbserver"
    ∷ codes "dbuser"
    ∷ codes "dbpassword"
    ∷ codes "dbname"
    ∷ codes "serverip"
    ∷ codes "serverport"
    ∷ []

-- What the server needs.
unfoldable pub ready : Host → Bool
unfolding setting folder_ready port_of atoi
ready h =
    all_set h needed
    && (folder_ready h (text_of h (codes "logfiledir"))
        && (sizes_ready h (pool_size 8 (setting h (codes "dbpoolsize")))
              (pool_size 16 (setting h (codes "dbmaxpoolsize")))
            && address_ready h h.args (text_of h (codes "serverip"))
                (text_of h (codes "serverport"))))

pub give_up-stops :
    (h : Host) (line : ℕ) (text : Str) (l : Log) (p : Pool)
    → is_serving (give_up h line text l p) ≡ false
unfolding give_up
give_up-stops h line text l p = ground arith

pub pool_fails-stops :
    (h : Host) (good : Bool) (l : Log) (p : Pool) → is_serving (pool_fails h good l p) ≡ false
unfolding pool_fails give_up
pool_fails-stops h good l p = ground arith

pub start_server-ready :
    (h : Host) (ip : Str) (port : ℕ) (l : Log) (p : Pool)
    → is_serving (start_server h ip port l p) ≡ h.binds ip port
unfolding start_server
start_server-ready h ip port l p = ground arith

by_args-ready :
    (h : Host) (ip port : Str) (l : Log) (p : Pool) (xs : List Str)
    → is_serving (by_args h ip port l p xs) ≡ address_ready h xs ip port
unfolding by_args
by_args-ready h ip port l p [] = start_server-ready h ip (port_of port) l p
by_args-ready h ip port l p (a ∷ []) = refl
by_args-ready h ip port l p (a ∷ b ∷ []) = start_server-ready h a (port_of b) l p
by_args-ready h ip port l p (a ∷ b ∷ c ∷ xs) = refl

listen-ready :
    (h : Host) (ip port : Option Str) (l : Log) (p : Pool)
    → is_serving (listen h ip port l p)
      ≡ (is_some ip && (is_some port && address_ready h h.args (or_text [] ip) (or_text [] port)))
unfolding listen
listen-ready h none port l p = give_up-stops h 115 (codes "serverip not set in config file") l p
listen-ready h (some ip) none l p =
    give_up-stops h 117 (codes "serverport not set in config file") l p
listen-ready h (some ip) (some port) l p = by_args-ready h ip port l p h.args

-- The last conjuncts of `ready`, with the settings that `listen` looks for.
abbrev listens : Host → Bool
listens h =
    is_some (setting h (codes "serverip"))
    && (is_some (setting h (codes "serverport"))
        && address_ready h h.args (text_of h (codes "serverip")) (text_of h (codes "serverport")))

create_all-some :
    (os : List (Option ℕ)) (now : ℕ) (idle : List Entry)
    → not (is_empty (create_all os now idle)) ≡ (not (is_empty idle) || any_some os)
unfolding create_all
create_all-some [] now idle = ground arith
create_all-some (none ∷ os) now idle = create_all-some os now idle
create_all-some (some c ∷ os) now [] =
    create_all-some os now (record { conn = c; last_used = now } ∷ [])
create_all-some (some c ∷ os) now (e ∷ idle) = create_all-some os now _

init_pool-ready :
    (h : Host) (least most : ℕ)
    → (init_pool least most h.created h.now new_pool).0 ≡ sizes_ready h least most
unfolding init_pool
init_pool-ready h least most = ground (arith, create_all-some (h.created least) h.now [])

with_pool-ready :
    (h : Host) (least most : ℕ) (r : Bool × Pool) (l : Log)
    → is_serving (with_pool h least most r l) ≡ (r.0 && listens h)
unfolding with_pool
with_pool-ready h least most (true, p) l =
    listen-ready h (setting h (codes "serverip")) (setting h (codes "serverport")) l p
with_pool-ready h least most (false, p) l =
    pool_fails-stops h (not (least == 0 || ltb most least)) l p

-- A choice of which the second way stops.
if-stops :
    (b c : Bool) (x y : Outcome)
    → is_serving x ≡ c
    → is_serving y ≡ false
    → is_serving (if b then x else y) ≡ (b && c)
if-stops true c x y p q = p
if-stops false c x y p q = q

open_pool-ready :
    (h : Host) (l : Log)
    → is_serving (open_pool h l)
      ≡ (has_mysql h && (sizes_ready h (least_size h) (most_size h) && listens h))
unfolding open_pool
open_pool-ready h l =
    if-stops (has_mysql h) (sizes_ready h (least_size h) (most_size h) && listens h)
      (with_pool h (least_size h) (most_size h)
        (init_pool (least_size h) (most_size h) h.created h.now new_pool) l)
      _
      (with_pool-ready h (least_size h) (most_size h)
          (init_pool (least_size h) (most_size h) h.created h.now new_pool) l
        ∙ ap (λ b. b && listens h) (init_pool-ready h (least_size h) (most_size h)))
      (give_up-stops h 96 (codes "mysql config is not set in config file") l new_pool)

pub log_dir-folder : (h : Host) (dir : Str) → log_dir h dir ≡ folder (project_root h.exe) dir
unfolding log_dir folder
log_dir-folder h [] = refl
log_dir-folder h (c ∷ dir) = refl

with_dir-ready :
    (h : Host) (o : Option Str)
    → is_serving (with_dir h o) ≡ (
        (is_some o && folder_ready h (or_text [] o))
        && (has_mysql h && (sizes_ready h (least_size h) (most_size h) && listens h)))
unfolding open_log folder_ready
with_dir-ready h none =
    give_up-stops h 56 (codes "logdir is not set in config file") initial new_pool
with_dir-ready h (some dir) =
    let l = init_log h.exe (log_file h dir) false 10485760 h.pid initial in
    if-stops (h.has_dir (log_dir h dir) || h.makes_dir (log_dir h dir))
      (has_mysql h && (sizes_ready h (least_size h) (most_size h) && listens h)) (open_pool h l) _
      (open_pool-ready h l) (give_up-stops h 76 (codes "create base dir error") initial new_pool)
    ∙ ap
        (λ f.
          (h.has_dir f || h.makes_dir f)
          && (has_mysql h && (sizes_ready h (least_size h) (most_size h) && listens h)))
        (log_dir-folder h dir)

-- For every answer of the system, `main` reaches its loop exactly when the seven settings that it needs
-- are there, the folder of the log is there or can be made, the pool's sizes are at least 1 and in
-- order and one of its first connections comes about, there are no arguments or two, and the
-- address can be bound, which is that of the settings or of the arguments; in any other case it
-- exits, crashes or aborts.
pub serves_iff_ready : (h : Host) → is_serving (main h) ≡ ready h
unfolding main ready has_mysql least_size most_size
serves_iff_ready h = with_dir-ready h (setting h (codes "logfiledir")) ∙ ground arith
