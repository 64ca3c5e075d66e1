-- ===== src/Startup/Served.antt =====
-- The state in which `main` reaches its loop.
use qt_chat.Base.{
  ℕ, ◌<◌, ◌^◌, Bool, true, false, not, ◌||◌, List, [], ◌∷◌, ◌++◌, Option, none, some, ◌≡◌, refl,
  sym, ap, subst, ◌∙◌, arith,
}
use qt_chat.Base.Tests.{if◌then◌else◌, if-true, ◌==◌, ltb}
use qt_chat.Base.Int.{pos}
use qt_chat.Base.Lists.{Str, codes}
use qt_chat.Pool.{Pool, new_pool, init as init_pool}
use qt_chat.Logging.{Log}
use qt_chat.Logging.Thread.{initial, init as init_log}
use qt_chat.Server.Models.Text.{atoi, decimal, atoi-decimal}
use qt_chat.Startup.{
  Host, Outcome, exits, aborts, serving, setting, project_root, or_text, pool_size, log_dir,
  port_16, port_of, start_server, by_args, listen, with_pool, has_mysql, least_size, most_size,
  open_pool, log_file, open_log, with_dir, main,
}
use qt_chat.Startup.Ready.{
  is_serving, folder, log_dir-folder, start_server-ready, give_up-stops, pool_fails-stops,
}

-- The address comes from the configuration, or from two arguments.
pub data Address (ip0 port0 : Str) (xs : List Str) (ip : Str) (port : ℕ) : Type 0 where
  configured : xs ≡ [] → ip ≡ ip0 → port ≡ port_of port0 → Address ip0 port0 xs ip port
  given : (t : Str) → xs ≡ ip ∷ t ∷ [] → port ≡ port_of t → Address ip0 port0 xs ip port

-- The path that the log is given: the folder's, and the name straight after it.
unfoldable pub path_beside : Host → Str → Str
unfolding folder
path_beside h dir =
    folder (project_root h.exe) dir
    ++ or_text (codes "chatserver") (setting h (codes "logfilename"))

log_file-path_beside : (h : Host) (dir : Str) → log_file h dir ≡ path_beside h dir
unfolding log_file path_beside
log_file-path_beside h dir =
    ap (λ f. f ++ or_text (codes "chatserver") (setting h (codes "logfilename")))
      (log_dir-folder h dir)

-- `DbPool::init` with the sizes of the settings, 8 and 16 where there is none.
unfoldable pub made_pool : Host → Bool × Pool
unfolding atoi
made_pool h =
    init_pool (pool_size 8 (setting h (codes "dbpoolsize")))
      (pool_size 16 (setting h (codes "dbmaxpoolsize"))) h.created h.now new_pool

pool_of : Host → Bool × Pool
pool_of h = init_pool (least_size h) (most_size h) h.created h.now new_pool

pool_of-made_pool : (h : Host) → pool_of h ≡ made_pool h
unfolding pool_of made_pool least_size most_size
pool_of-made_pool h = refl

-- The process that serves: its log was started on the path of the configured folder and name, its
-- pool by a successful `init` of the configured sizes, and its address, which is bound, is the one
-- configured or given.
pub record Served (h : Host) (ip : Str) (port : ℕ) (l : Log) (p : Pool) : Type 0 where
  pub log :
      (dir : Str) × (setting h (codes "logfiledir") ≡ some dir)
      × (l ≡ init_log h.exe (path_beside h dir) false 10485760 h.pid initial)
  pub pool : made_pool h ≡ (true, p)
  pub bound : h.binds ip port ≡ true
  pub address :
      (ip0 : Str) × (port0 : Str) × (setting h (codes "serverip") ≡ some ip0)
      × (setting h (codes "serverport") ≡ some port0)
      × Address ip0 port0 h.args ip port

-- An outcome that is not the loop.
not_serving :
    {B : Type 0} (o : Outcome) (ip : Str) (port : ℕ) (l : Log) (p : Pool)
    → is_serving o ≡ false
    → o ≡ serving ip port l p
    → B
not_serving o ip port l p f e = absurd (ground (arith, f, ap is_serving e))

ip_in : Outcome → Str
ip_in (serving ip port l p) = ip
ip_in _ = []

port_in : Outcome → ℕ
port_in (serving ip port l p) = port
port_in _ = 0

log_in : Log → Outcome → Log
log_in d (serving ip port l p) = l
log_in d _ = d

pool_in : Pool → Outcome → Pool
pool_in d (serving ip port l p) = p
pool_in d _ = d

started :
    (h : Host) (ip : Str) (port : ℕ) (l : Log) (p : Pool)
    → h.binds ip port ≡ true
    → serving ip port l p ≡ start_server h ip port l p
unfolding start_server
started h ip port l p bound = if-true (serving ip port l p) (aborts l p) bound

start_server-same :
    (h : Host) (ip0 : Str) (port0 : ℕ) (l0 : Log) (p0 : Pool) (ip : Str) (port : ℕ) (l : Log)
    (p : Pool)
    → start_server h ip0 port0 l0 p0 ≡ serving ip port l p
    → (h.binds ip port ≡ true) × (ip0 ≡ ip) × (port0 ≡ port) × (l0 ≡ l) × (p0 ≡ p)
unfolding ip_in port_in log_in pool_in
start_server-same h ip0 port0 l0 p0 ip port l p e =
    let bound : h.binds ip0 port0 ≡ true =
      sym (start_server-ready h ip0 port0 l0 p0) ∙ ap is_serving e in
    let f : serving ip0 port0 l0 p0 ≡ serving ip port l p = started h ip0 port0 l0 p0 bound ∙ e in
    let same_ip : ip0 ≡ ip = ap ip_in f in
    let same_port : port0 ≡ port = ap port_in f in
    (
      subst (λ x. h.binds x port ≡ true) same_ip
          (subst (λ n. h.binds ip0 n ≡ true) same_port bound),
      same_ip,
      same_port,
      ap (log_in l0) f,
      ap (pool_in p0) f,
    )

by_args-Address :
    (h : Host) (ip0 port0 : Str) (l0 : Log) (p0 : Pool) (xs : List Str) (ip : Str) (port : ℕ)
    (l : Log) (p : Pool)
    → by_args h ip0 port0 l0 p0 xs ≡ serving ip port l p
    → Address ip0 port0 xs ip port × (h.binds ip port ≡ true) × (l0 ≡ l) × (p0 ≡ p)
unfolding by_args
by_args-Address h ip0 port0 l0 p0 [] ip port l p e =
    let (bound, i, n, x, y) = start_server-same h ip0 (port_of port0) l0 p0 ip port l p e in
    (configured refl (sym i) (sym n), bound, x, y)
by_args-Address h ip0 port0 l0 p0 (a ∷ []) ip port l p e =
    not_serving (exits 1 l0 p0) ip port l p refl e
by_args-Address h ip0 port0 l0 p0 (a ∷ b ∷ []) ip port l p e =
    let (bound, i, n, x, y) = start_server-same h a (port_of b) l0 p0 ip port l p e in
    (given b (ap (λ x. x ∷ b ∷ []) i) (sym n), bound, x, y)
by_args-Address h ip0 port0 l0 p0 (a ∷ b ∷ c ∷ xs) ip port l p e =
    not_serving (exits 1 l0 p0) ip port l p refl e

-- A choice of which the second way stops.
taken :
    (b : Bool) (x y : Outcome) (ip : Str) (port : ℕ) (l : Log) (p : Pool)
    → is_serving y ≡ false
    → (if b then x else y) ≡ serving ip port l p
    → x ≡ serving ip port l p
taken true x y ip port l p f e = e
taken false x y ip port l p f e = not_serving y ip port l p f e

module _ (h : Host) (ip : Str) (port : ℕ) (l : Log) (p : Pool) where
  -- What the phase from the address on leaves of the log and the pool, and the address.
  abbrev Listened : Log → Pool → Type 0
  Listened l0 p0 =
      ((ip0 : Str) × (port0 : Str) × (setting h (codes "serverip") ≡ some ip0)
        × (setting h (codes "serverport") ≡ some port0)
        × Address ip0 port0 h.args ip port)
      × (h.binds ip port ≡ true)
      × (l0 ≡ l)
      × (p0 ≡ p)

  listen-Listened :
      (o q : Option Str) (l0 : Log) (p0 : Pool)
      → setting h (codes "serverip") ≡ o
      → setting h (codes "serverport") ≡ q
      → listen h o q l0 p0 ≡ serving ip port l p
      → Listened l0 p0
  unfolding listen
  listen-Listened none q l0 p0 a b e =
      not_serving (listen h none q l0 p0) ip port l p
        (give_up-stops h 115 (codes "serverip not set in config file") l0 p0) e
  listen-Listened (some ip0) none l0 p0 a b e =
      not_serving (listen h (some ip0) none l0 p0) ip port l p
        (give_up-stops h 117 (codes "serverport not set in config file") l0 p0) e
  listen-Listened (some ip0) (some port0) l0 p0 a b e =
      let (c, bound, x, y) = by_args-Address h ip0 port0 l0 p0 h.args ip port l p e in
      ((ip0, port0, a, b, c), bound, x, y)

  with_pool-Served :
      (l0 : Log) (r : Bool × Pool)
      → pool_of h ≡ r
      → with_pool h (least_size h) (most_size h) r l0 ≡ serving ip port l p
      → (pool_of h ≡ (true, p)) × Listened l0 p
  unfolding with_pool
  with_pool-Served l0 (true, p0) a e =
      let (address, bound, x, y) =
        listen-Listened (setting h (codes "serverip")) (setting h (codes "serverport")) l0 p0 refl
          refl e in
      (a ∙ ap (λ z. (true, z)) y, (address, bound, x, refl))
  with_pool-Served l0 (false, p0) a e =
      not_serving (with_pool h (least_size h) (most_size h) (false, p0) l0) ip port l p
        (pool_fails-stops h (not (least_size h == 0 || ltb (most_size h) (least_size h))) l0 p0) e

  with_dir-Served :
      (o : Option Str)
      → setting h (codes "logfiledir") ≡ o
      → with_dir h o ≡ serving ip port l p
      → Served h ip port l p
  unfolding open_log open_pool pool_of
  with_dir-Served none a e =
      not_serving (with_dir h none) ip port l p
        (give_up-stops h 56 (codes "logdir is not set in config file") initial new_pool) e
  with_dir-Served (some dir) a e =
      let l0 = init_log h.exe (log_file h dir) false 10485760 h.pid initial in
      let opened =
        taken (h.has_dir (log_dir h dir) || h.makes_dir (log_dir h dir)) (open_pool h l0) _ ip port
          l p (give_up-stops h 76 (codes "create base dir error") initial new_pool) e in
      let pooled =
        taken (has_mysql h) (with_pool h (least_size h) (most_size h) (pool_of h) l0) _ ip port l p
          (give_up-stops h 96 (codes "mysql config is not set in config file") l0 new_pool)
          opened in
      let (got, (address, bound, x, y)) = with_pool-Served l0 (pool_of h) refl pooled in
      record {
        log = (
          dir,
          a,
          sym x
              ∙ ap (λ f. init_log h.exe f false 10485760 h.pid initial)
                  (log_file-path_beside h dir),
        );
        pool = sym (pool_of-made_pool h) ∙ got;
        bound = bound;
        address = address;
      }

  -- When `main` reaches its loop, the log was started on a path that is the configured folder's with
  -- the configured name straight after it, the pool is that of a successful `DbPool::init` with the
  -- configured sizes, and the server is bound to the configured address or, with two arguments, to
  -- theirs, the port modulo 65536.
  pub serving_state : main h ≡ serving ip port l p → Served h ip port l p
  unfolding main
  serving_state e = with_dir-Served (setting h (codes "logfiledir")) refl e

-- A port that is written as a number below 65536 is the one that the server listens on.
pub port_as_written : (n : ℕ) → n < 2 ^ 16 → port_of (decimal (pos n)) ≡ n
unfolding port_of
port_as_written n h = ap port_16 (atoi-decimal n (omega arith)) ∙ omega arith
