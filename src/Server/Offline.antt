-- ===== src/Server/Offline.antt =====
-- The buffer of 2048 bytes in `OfflineMsgModel::insert`: which messages are stored.
use qt_chat.Base.{◌+◌, ◌≤◌, ◌<◌, ◌≡◌, refl, sym, ap, ◌∙◌, true, false, ◌∷◌, ◌++◌, arith}
use qt_chat.Base.Tests.{leb, leb-true, leb-false, if-true, if-false}
use qt_chat.Base.Int.{ℤ}
use qt_chat.Base.Lists.{Str, codes, length, take, length-append, length-take}
use qt_chat.Server.Api.{Mysql, insert_offline, cut_short}
use qt_chat.Server.State.{State, ran}
use qt_chat.Server.Models.{
  sql_room, offline_text, offline_statement, offline_insert, with_connection, run_update,
}
use qt_chat.Server.Models.Text.{decimal, length-decimal}

pub length-offline_text :
    (id : ℤ) (escaped : Str)
    → length (offline_text id escaped) ≡ 39 + (length (decimal id) + length escaped)
unfolding offline_text
length-offline_text id escaped = omega (
  arith,
  length-append (codes "insert into OfflineMessage values(")
      (decimal id ++ (codes ", '" ++ (escaped ++ codes "')"))),
  length-append (decimal id) (codes ", '" ++ (escaped ++ codes "')")),
  length-append (codes ", '") (escaped ++ codes "')"),
  length-append escaped (codes "')"),
)

-- The text fits the buffer.
pub offline_statement_whole :
    (id : ℤ) (msg escaped : Str)
    → length escaped ≤ 1987
    → offline_statement id msg escaped ≡ insert_offline id msg
unfolding offline_statement
offline_statement_whole id msg escaped fits = sym (
    if-true (insert_offline id msg) (cut_short (take sql_room (offline_text id escaped)))
      (leb-true (omega (arith, length-offline_text id escaped, length-decimal id))))

module _ (D : Mysql) {Link : Type 0} where
  open D use {Db, acquire, escape}

  insert-trace :
      (id : ℤ) (msg : Str) (s : State Db Link)
      → (acquire s.db).0 ≡ true
      → (offline_insert D id msg s).1.trace ≡ ran (offline_statement id msg (escape msg)) ∷ s.trace
  unfolding offline_insert with_connection run_update
  insert-trace id msg s given = rw given refl

  -- With a connection from the pool, a message of at most 1987 bytes after escaping goes to MySQL
  -- whole.
  pub offline_kept :
      (id : ℤ) (msg : Str) (s : State Db Link)
      → (acquire s.db).0 ≡ true
      → length (escape msg) ≤ 1987
      → (offline_insert D id msg s).1.trace ≡ ran (insert_offline id msg) ∷ s.trace
  offline_kept id msg s given fits =
      insert-trace id msg s given
      ∙ ap (λ q. ran q ∷ s.trace) (offline_statement_whole id msg (escape msg) fits)

  -- With a connection from the pool, a message of more than 2047 bytes after escaping goes to MySQL
  -- as the first 2047 bytes of a statement.
  offline_cut :
      (id : ℤ) (msg : Str) (s : State Db Link)
      → (acquire s.db).0 ≡ true
      → 2047 < length (escape msg)
      → (text : Str) × ((offline_insert D id msg s).1.trace ≡ ran (cut_short text) ∷ s.trace)
        × (length text ≡ 2047)
  unfolding offline_statement
  offline_cut id msg s given long = (
    take sql_room (offline_text id (escape msg)),
    insert-trace id msg s given
        ∙ ap (λ q. ran q ∷ s.trace)
            (sym (
              if-false (insert_offline id msg)
                (cut_short (take sql_room (offline_text id (escape msg)))) room)),
    length-take sql_room (offline_text id (escape msg))
        (omega (arith, length-offline_text id (escape msg))),
  )
    where
      room : leb (length (offline_text id (escape msg))) sql_room ≡ false
      room = leb-false (omega (arith, length-offline_text id (escape msg)))
