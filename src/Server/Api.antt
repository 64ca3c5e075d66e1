-- ===== src/Server/Api.antt =====
-- What the server takes from code outside the repository's own sources: nlohmann's json, the MySQL
-- client behind the connection pool, and publish/subscribe (which Redis.antt fills).
use qt_chat.Base.{String, Bool, List, Option}
use qt_chat.Base.Int.{ℤ}
use qt_chat.Base.Lists.{Str}

-- A value that the code assigns to a field of a json object.
pub data Field : Type 0 where
  num : ℤ → Field
  text : Str → Field
  texts : List Str → Field

-- The calls of json.hpp. `get_int j k` is `j[k].get<int>()`, `none` where that throws; so for
-- `get_text` and a conversion to `std::string`; `parse` is `none` on a parse error.
pub record JsonApi : Type 1 where
  pub Json : Type 0
  pub contains : Json → String → Bool
  pub get_int : Json → String → Option ℤ
  pub get_text : Json → String → Option Str
  pub object : List (String × Field) → Json
  pub dump : Json → Str
  pub parse : Str → Option Json

-- The statements that the models send, by what their text says.
pub data Sql : Type 0 where
  insert_user : Str → Str → Str → Sql
  select_user : ℤ → Sql
  update_user_state : Str → ℤ → Sql
  update_user_name : Str → ℤ → Sql
  reset_user_states : Sql
  insert_friend : ℤ → ℤ → Sql
  select_friends : ℤ → Sql
  insert_group : Str → Str → Sql
  insert_member : ℤ → ℤ → Str → Sql
  select_groups : ℤ → Sql
  select_members : ℤ → Sql
  select_member_ids : ℤ → ℤ → Sql
  select_group : ℤ → Sql
  insert_offline : ℤ → Str → Sql
  delete_offline : ℤ → Sql
  select_offline : ℤ → Sql
  -- a text that the buffer cut short
  cut_short : Str → Sql

-- The pool and the MySQL client. `acquire` says whether `PooledMySQL::acquire` gave a connection;
-- a row is the list of its columns' texts.
pub record Mysql : Type 1 where
  pub Db : Type 0
  pub acquire : Db → Bool × Db
  pub update : Sql → Db → Bool × Db
  pub query : Sql → Db → Option (List (List Str))
  pub insert_id : Db → ℤ
  pub escape : Str → Str

pub record Pubsub : Type 1 where
  pub Link : Type 0
  pub publish : ℤ → Str → Link → Bool × Link
  pub subscribe : ℤ → Link → Bool × Link
  pub unsubscribe : ℤ → Link → Bool × Link
