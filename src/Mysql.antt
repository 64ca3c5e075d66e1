-- ===== src/Mysql.antt =====
-- The MySQL wrapper, ChatServer/src/server/db/db.cpp, with what the pool
-- (ChatServer/src/server/db/dbpool.cpp) calls of it. The MySQL client library is a parameter.
pub mod Statements
pub mod Escape
pub mod Fits
use qt_chat.Base.{
  ℕ, zero, suc, ◌+◌, ◌*◌, Bool, true, false, List, [], ◌∷◌, ◌++◌, Option, none, some,
}
use qt_chat.Base.Tests.{if◌then◌else◌, ◌==◌}
use qt_chat.Base.Lists.{c_str, Str, codes, length}

-- The client library. A connection is a value that the calls change; `query` says whether
-- `mysql_query` returned 0, and `real_escape` is what `mysql_real_escape_string` writes before the
-- zero at its end.
pub record Driver : Type 1 where
  pub Conn : Type 0
  pub Rows : Type 0
  pub mysql_init : Conn
  pub real_connect : Str → Str → Str → Str → ℕ → Conn → Bool × Conn
  pub query : Str → Conn → Bool × Conn
  pub store_result : Conn → Option Rows × Conn
  pub real_escape : Str → Str
  pub is_alive : Conn → Bool × Conn

-- `server_`, `user_`, `password_` and `dbname_`
pub record Settings : Type 0 where
  pub server : Str
  pub user : Str
  pub password : Str
  pub dbname : Str

-- `MySQL::setConfig`
abbrev pub set_config : Str → Str → Str → Str → Settings
set_config srv usr pwd db = record { server = srv; user = usr; password = pwd; dbname = db }

-- `vector<char> buf(n)`
unfoldable pub zero_bytes : ℕ → Str
zero_bytes zero = []
zero_bytes (suc n) = 0 ∷ zero_bytes n

-- The buffer after these bytes were written from its start; none is written behind its end.
unfoldable pub write_at_start : Str → Str → Str
write_at_start [] buf = buf
write_at_start (c ∷ s) [] = []
write_at_start (c ∷ s) (b ∷ buf) = c ∷ write_at_start s buf

module _ (D : Driver) where
  open D use {Conn, Rows, mysql_init, real_connect, query, store_result, real_escape, is_alive}

  with_charset : Bool × Conn → Bool × Conn
  with_charset (false, c) = (false, c)
  with_charset (true, c) = (true, (query (codes "set names utf8mb4") c).1)

  -- `MySQL::connect(srv, usr, pwd, db)`: the answer to `set names` is not looked at.
  unfoldable pub connect : Str → Str → Str → Str → Conn → Bool × Conn
  unfolding with_charset
  connect srv usr pwd db c =
      with_charset (real_connect (c_str srv) (c_str usr) (c_str pwd) (c_str db) 3306 c)

  -- `MySQL::connect()`
  unfoldable pub connect_configured : Settings → Conn → Bool × Conn
  unfolding connect
  connect_configured k c = connect k.server k.user k.password k.dbname c

  usable : Bool × Conn → Option Conn
  usable (true, c) = some c
  usable (false, c) = none

  -- `DbPool::createConnection`
  unfoldable pub create_connection : Str → Str → Str → Str → Option Conn
  unfolding usable
  create_connection host user pwd db = usable (connect host user pwd db mysql_init)

  -- `MySQL::escape`: `string(buf.data())` ends at the first zero of the buffer.
  unfoldable pub escape : Str → Str
  escape s = c_str (write_at_start (real_escape s ++ (0 ∷ [])) (zero_bytes (length s * 2 + 1)))

  -- `MySQL::update`
  unfoldable pub update : Str → Conn → Bool × Conn
  update sql c = query (c_str sql) c

  with_result : Bool × Conn → Option Rows × Conn
  with_result (false, c) = (none, c)
  with_result (true, c) = store_result c

  -- `MySQL::query`, and `PooledMySQL::query`, which makes the same calls.
  unfoldable pub select : Str → Conn → Option Rows × Conn
  unfolding with_result
  select sql c = with_result (query (c_str sql) c)

  -- `MySQL::ping`
  unfoldable pub ping : Conn → Bool × Conn
  ping c = is_alive c
