-- ===== src/Server/Models.antt =====
-- The table models of ChatServer/src/server/model, and the ORM classes User, Group and GroupUser.
-- A statement is named by what its text says; the text itself is built where a buffer cuts it.
pub mod Text
pub mod Rules
use qt_chat.Base.{ℕ, zero, suc, Bool, true, false, List, [], ◌∷◌, ◌++◌, map, Option, none, some}
use qt_chat.Base.Tests.{if◌then◌else◌, leb}
use qt_chat.Base.Int.{ℤ, minus_one}
use qt_chat.Base.Lists.{Str, codes, length, take}
use qt_chat.Server.Api.{
  Mysql, Sql, insert_user, select_user, update_user_state, update_user_name, reset_user_states,
  insert_friend, select_friends, insert_group, insert_member, select_groups, select_members,
  select_member_ids, select_group, insert_offline, delete_offline, select_offline, cut_short,
}
use qt_chat.Server.State.{State, Event, ran, Action, Result, ok, thrown, pure, gets, ◌>>=◌, ◌>>◌}
use Text.{atoi, decimal}

pub record User : Type 0 where
  pub id : ℤ
  pub name : Str
  pub password : Str
  pub state : Str

-- `GroupUser`, a `User` with a role.
pub record GroupUser : Type 0 where
  pub user : User
  pub role : Str

pub record Group : Type 0 where
  pub id : ℤ
  pub name : Str
  pub desc : Str
  pub users : List GroupUser

unfoldable pub online : Str
online = codes "online"

unfoldable pub offline : Str
offline = codes "offline"

-- `User()`
abbrev pub no_user : User
no_user = record { id = minus_one; name = []; password = []; state = offline }

-- `Group(id, name, desc)`; `Group()` is `new_group minus_one [] []`.
abbrev pub new_group : ℤ → Str → Str → Group
new_group id name desc = record { id = id; name = name; desc = desc; users = [] }

-- `row[i]`
unfoldable pub column : ℕ → List Str → Str
column i [] = []
column zero (c ∷ r) = c
column (suc i) (c ∷ r) = column i r

abbrev rows_of : Option (List (List Str)) → List (List Str)
rows_of none = []
rows_of (some rows) = rows

user_of_row : List Str → User
unfolding column
user_of_row row = record {
  id = atoi (column 0 row);
  name = column 1 row;
  password = column 2 row;
  state = column 3 row;
}

unfoldable pub first_user : Option (List (List Str)) → User
unfolding user_of_row
first_user (some (row ∷ rows)) = user_of_row row
first_user _ = no_user

friend_of_row : List Str → User
unfolding column
friend_of_row row = record no_user {
  id = atoi (column 0 row);
  name = column 1 row;
  state = column 2 row;
}

member_of_row : List Str → GroupUser
unfolding friend_of_row
member_of_row row = record { user = friend_of_row row; role = column 3 row }

group_of_row : List Str → Group
unfolding column
group_of_row row = new_group (atoi (column 0 row)) (column 1 row) (column 2 row)

unfoldable pub first_group : Option (List (List Str)) → Group
unfolding group_of_row
first_group (some (row ∷ rows)) = group_of_row row
first_group _ = new_group minus_one [] []

-- `snprintf` into `char sql[2048]`: at most 2047 bytes of the text go to MySQL.
abbrev pub sql_room : ℕ
sql_room = 2047

unfoldable pub offline_text : ℤ → Str → Str
unfolding decimal
offline_text userid escaped =
    codes "insert into OfflineMessage values("
    ++ (decimal userid ++ (codes ", '" ++ (escaped ++ codes "')")))

unfoldable pub offline_statement : ℤ → Str → Str → Sql
unfolding offline_text
offline_statement userid msg escaped =
    let text = offline_text userid escaped in
    if leb (length text) sql_room then insert_offline userid msg else cut_short (take sql_room text)

module _ (D : Mysql) {Link : Type 0} where
  open D use {Db, acquire, update, query, insert_id, escape}

  -- `auto mysql = PooledMySQL::acquire(); if (!mysql) return fallback;`
  unfoldable pub with_connection :
      {A : Type 0} → A → Action (State Db Link) A → Action (State Db Link) A
  with_connection fallback body s =
      let (given, db') = acquire s.db in
      let s' : State Db Link = record s { db = db' } in if given then body s' else (ok fallback, s')

  -- `mysql->update(sql)`
  unfoldable pub run_update : Sql → Action (State Db Link) Bool
  run_update sql s =
      let (done, db') = update sql s.db in
      (ok done, record s { db = db'; trace = ran sql ∷ s.trace })

  -- `mysql->query(sql)`
  unfoldable pub run_query : Sql → Action (State Db Link) (Option (List (List Str)))
  run_query sql s = (ok (query sql s.db), s)

  with_id : User → Bool → Action (State Db Link) (Bool × User)
  with_id user false s = (ok (false, user), s)
  with_id user true s = (ok (true, record user { id = insert_id s.db }), s)

  -- `UserModel::insert`: whether it went through, and the user with its new id.
  unfoldable pub user_insert : User → Action (State Db Link) (Bool × User)
  unfolding with_connection run_update with_id
  user_insert user =
      with_connection (false, user)
        (run_update (insert_user user.name user.password user.state) >>= with_id user)

  -- `UserModel::query`
  unfoldable pub user_query : ℤ → Action (State Db Link) User
  unfolding with_connection run_query first_user
  user_query id =
      with_connection no_user (run_query (select_user id) >>= λ rows. pure (first_user rows))

  unfoldable pub user_update_state : User → Action (State Db Link) Bool
  unfolding with_connection run_update
  user_update_state user = with_connection false (run_update (update_user_state user.state user.id))

  unfoldable pub user_update_name : ℤ → Str → Action (State Db Link) Bool
  unfolding with_connection run_update
  user_update_name id name = with_connection false (run_update (update_user_name name id))

  unfoldable pub user_reset_state : Action (State Db Link) Bool
  unfolding with_connection run_update
  user_reset_state = with_connection false (run_update reset_user_states)

  unfoldable pub friend_insert : ℤ → ℤ → Action (State Db Link) Bool
  unfolding with_connection run_update
  friend_insert userid friendid = with_connection false (run_update (insert_friend userid friendid))

  unfoldable pub friend_query : ℤ → Action (State Db Link) (List User)
  unfolding with_connection run_query friend_of_row
  friend_query userid =
      with_connection []
        do rows ← run_query (select_friends userid); pure (map friend_of_row (rows_of rows))

  with_group_id : Group → Bool → Action (State Db Link) (Bool × Group)
  with_group_id group false s = (ok (false, group), s)
  with_group_id group true s = (ok (true, record group { id = insert_id s.db }), s)

  -- `GroupModel::createGroup`
  unfoldable pub group_insert : Group → Action (State Db Link) (Bool × Group)
  unfolding with_connection run_update with_group_id
  group_insert group =
      with_connection (false, group)
        (run_update (insert_group group.name group.desc) >>= with_group_id group)

  -- `GroupModel::addGroup`
  unfoldable pub member_insert : ℤ → ℤ → Str → Action (State Db Link) Bool
  unfolding with_connection run_update
  member_insert userid groupid role =
      with_connection false (run_update (insert_member groupid userid role))

  -- The second loop of `queryGroups`, on the same connection.
  unfoldable pub fill_groups : List Group → Action (State Db Link) (List Group)
  unfolding run_query member_of_row
  fill_groups [] = pure []
  fill_groups (g ∷ gs) = do
    rows ← run_query (select_members g.id)
    rest ← fill_groups gs
    pure (record g { users = map member_of_row (rows_of rows) } ∷ rest)

  -- `GroupModel::queryGroups`
  unfoldable pub query_groups : ℤ → Action (State Db Link) (List Group)
  unfolding with_connection run_query group_of_row fill_groups
  query_groups userid =
      with_connection []
        do rows ← run_query (select_groups userid); fill_groups (map group_of_row (rows_of rows))

  -- `GroupModel::queryGroupUsers`
  unfoldable pub query_group_users : ℤ → ℤ → Action (State Db Link) (List ℤ)
  unfolding with_connection run_query column
  query_group_users userid groupid = with_connection [] do
    rows ← run_query (select_member_ids groupid userid)
    pure (map (λ row. atoi (column 0 row)) (rows_of rows))

  -- `GroupModel::queryGroup`
  unfoldable pub query_group : ℤ → Action (State Db Link) Group
  unfolding with_connection run_query first_group
  query_group groupid =
      with_connection (new_group minus_one [] [])
        do rows ← run_query (select_group groupid); pure (first_group rows)

  -- `OfflineMsgModel::insert`
  unfoldable pub offline_insert : ℤ → Str → Action (State Db Link) Bool
  unfolding with_connection run_update
  offline_insert userid msg =
      with_connection false (run_update (offline_statement userid msg (escape msg)))

  unfoldable pub offline_remove : ℤ → Action (State Db Link) Bool
  unfolding with_connection run_update
  offline_remove userid = with_connection false (run_update (delete_offline userid))

  unfoldable pub offline_query : ℤ → Action (State Db Link) (List Str)
  unfolding with_connection run_query column
  offline_query userid =
      with_connection []
        do rows ← run_query (select_offline userid); pure (map (column 0) (rows_of rows))
