-- ===== src/Tests/MysqlRuns.antt =====
-- A statement with a quote in a field, and a driver that escapes zero_bytes, quotes and backslashes.
use qt_chat.Base.{ℕ, zero, suc, ◌<◌, true, ◌||◌, ◌≡◌, refl, List, [], ◌∷◌, some, arith}
use qt_chat.Base.Tests.{ltb, if◌then◌else◌, ◌==◌}
use qt_chat.Base.Int.{pos}
use qt_chat.Base.Lists.{c_str, Str, codes, length, zero_free}
use qt_chat.Server.Api.{Sql, update_user_name}
use qt_chat.Server.Models.Text.{decimal}
use qt_chat.Mysql.{Driver, escape, update, zero_bytes, write_at_start}
use qt_chat.Mysql.Statements.{statement, joined, pieces}
use qt_chat.Mysql.Escape.{Escapes}
use qt_chat.Mysql.Fits.{statement_arrives}

abbrev escaped : Str → Str
escaped [] = []
escaped (c ∷ s) =
    if c == 0
    then b'\\' ∷ b'0' ∷ escaped s
    else if c == b'\'' || c == b'\\'
    then b'\\' ∷ c ∷ escaped s
    else c ∷ escaped s

-- A connection is the list of the texts that came.
abbrev driver : Driver
driver = record {
  Conn = List Str;
  Rows = List Str;
  mysql_init = [];
  real_connect = λ srv usr pwd db port c. (true, c);
  query = λ sql c. (true, sql ∷ c);
  store_result = λ c. (some [], c);
  real_escape = escaped;
  is_alive = λ c. (true, c);
}

escaped-Escapes : Escapes escaped
unfolding zero_free
escaped-Escapes [] = (omega arith, refl)
escaped-Escapes (c ∷ s) = ground (arith, (escaped-Escapes s).0, (escaped-Escapes s).1)

abbrev repeat : ℕ → Str
repeat zero = []
repeat (suc n) = b'a' ∷ repeat n

-- The name O'Hara
abbrev rename : Sql
rename = update_user_name (codes "O'Hara") (pos 7)

statement_arrives_example :
    (length (statement (escape driver) rename) < 1024)
    × (update driver (statement (escape driver) rename) []
        ≡ (true, codes "update User set name = 'O\\'Hara' where id = 7" ∷ []))
unfolding joined pieces decimal
statement_arrives_example = statement_arrives driver escaped-Escapes rename refl (omega arith) []

-- With a longer name `sprintf` writes behind the buffer.
long_name_overflows :
    ltb 1024 (length (statement (escape driver) (update_user_name (repeat 1000) (pos 7)))) ≡ true
unfolding joined pieces decimal escape c_str zero_bytes write_at_start
long_name_overflows = refl
