-- ===== src/Mysql/Statements.antt =====
-- The texts of the statements in ChatServer/src/server/model, as `sprintf` makes them.
use qt_chat.Base.{ℕ, ◌+◌, List, [], ◌∷◌, ◌++◌}
use qt_chat.Base.Int.{ℤ}
use qt_chat.Base.Lists.{Str, codes, length}
use qt_chat.Server.Api.{
  Sql, insert_user, select_user, update_user_state, update_user_name, reset_user_states,
  insert_friend, select_friends, insert_group, insert_member, select_groups, select_members,
  select_member_ids, select_group, insert_offline, delete_offline, select_offline, cut_short,
}
use qt_chat.Server.Models.{offline_text}
use qt_chat.Server.Models.Text.{decimal}

unfoldable pub joined : List Str → Str
joined [] = []
joined (s ∷ ss) = s ++ joined ss

-- The pieces of the statements between and at their `%s` and `%d`; `escape` is
-- `PooledMySQL::escape`.
abbrev pub insert_user_pieces : (Str → Str) → Str → Str → Str → List Str
insert_user_pieces escape name pwd state =
    codes "insert into User(name, password, state) values('"
    ∷ escape name
    ∷ codes "', '"
    ∷ escape pwd
    ∷ codes "', '"
    ∷ escape state
    ∷ codes "')"
    ∷ []

abbrev pub select_user_pieces : ℤ → List Str
select_user_pieces id = codes "select * from User where id = " ∷ decimal id ∷ []

abbrev pub update_user_state_pieces : (Str → Str) → Str → ℤ → List Str
update_user_state_pieces escape state id =
    codes "update User set state = '" ∷ escape state ∷ codes "' where id = " ∷ decimal id ∷ []

abbrev pub update_user_name_pieces : (Str → Str) → Str → ℤ → List Str
update_user_name_pieces escape name id =
    codes "update User set name = '" ∷ escape name ∷ codes "' where id = " ∷ decimal id ∷ []

abbrev pub reset_user_states_pieces : List Str
reset_user_states_pieces = codes "update User set state = 'offline' where state = 'online'" ∷ []

abbrev pub insert_friend_pieces : ℤ → ℤ → List Str
insert_friend_pieces userid friendid =
    codes "insert ignore into Friend values("
    ∷ decimal userid
    ∷ codes ", "
    ∷ decimal friendid
    ∷ codes ")"
    ∷ []

abbrev pub select_friends_pieces : ℤ → List Str
select_friends_pieces userid =
    codes
      "select a.id,a.name,a.state from User a inner join Friend b on b.friendid = a.id where b.userid="
    ∷ decimal userid
    ∷ []

abbrev pub insert_group_pieces : (Str → Str) → Str → Str → List Str
insert_group_pieces escape name desc =
    codes "insert into AllGroup(groupname, groupdesc) values('"
    ∷ escape name
    ∷ codes "', '"
    ∷ escape desc
    ∷ codes "')"
    ∷ []

abbrev pub insert_member_pieces : (Str → Str) → ℤ → ℤ → Str → List Str
insert_member_pieces escape groupid userid role =
    codes "insert into GroupUser values("
    ∷ decimal groupid
    ∷ codes ", "
    ∷ decimal userid
    ∷ codes ", '"
    ∷ escape role
    ∷ codes "')"
    ∷ []

abbrev pub select_groups_pieces : ℤ → List Str
select_groups_pieces userid =
    codes "select a.id,a.groupname,a.groupdesc from AllGroup a inner join "
    ∷ codes "         GroupUser b on a.id = b.groupid where b.userid="
    ∷ decimal userid
    ∷ []

abbrev pub select_members_pieces : ℤ → List Str
select_members_pieces groupid =
    codes "select a.id,a.name,a.state,b.grouprole from User a "
    ∷ codes "            inner join GroupUser b on b.userid = a.id where b.groupid="
    ∷ decimal groupid
    ∷ []

abbrev pub select_member_ids_pieces : ℤ → ℤ → List Str
select_member_ids_pieces groupid userid =
    codes "select userid from GroupUser where groupid = "
    ∷ decimal groupid
    ∷ codes " and userid != "
    ∷ decimal userid
    ∷ []

abbrev pub select_group_pieces : ℤ → List Str
select_group_pieces groupid =
    codes "select id, groupname, groupdesc from AllGroup where id=" ∷ decimal groupid ∷ []

abbrev pub delete_offline_pieces : ℤ → List Str
delete_offline_pieces userid =
    codes "delete from OfflineMessage where userid=" ∷ decimal userid ∷ []

abbrev pub select_offline_pieces : ℤ → List Str
select_offline_pieces userid =
    codes "select message from OfflineMessage where userid = " ∷ decimal userid ∷ []

-- The pieces of every statement.
unfoldable pub pieces : (Str → Str) → Sql → List Str
pieces escape (insert_user name pwd state) = insert_user_pieces escape name pwd state
pieces escape (select_user id) = select_user_pieces id
pieces escape (update_user_state state id) = update_user_state_pieces escape state id
pieces escape (update_user_name name id) = update_user_name_pieces escape name id
pieces escape reset_user_states = reset_user_states_pieces
pieces escape (insert_friend userid friendid) = insert_friend_pieces userid friendid
pieces escape (select_friends userid) = select_friends_pieces userid
pieces escape (insert_group name desc) = insert_group_pieces escape name desc
pieces escape (insert_member groupid userid role) = insert_member_pieces escape groupid userid role
pieces escape (select_groups userid) = select_groups_pieces userid
pieces escape (select_members groupid) = select_members_pieces groupid
pieces escape (select_member_ids groupid userid) = select_member_ids_pieces groupid userid
pieces escape (select_group groupid) = select_group_pieces groupid
pieces escape (insert_offline userid msg) = offline_text userid (escape msg) ∷ []
pieces escape (delete_offline userid) = delete_offline_pieces userid
pieces escape (select_offline userid) = select_offline_pieces userid
pieces escape (cut_short text) = text ∷ []

abbrev pub statement : (Str → Str) → Sql → Str
statement escape sql = joined (pieces escape sql)

-- How many bytes a client may have chosen in a statement.
abbrev pub field_bytes : Sql → ℕ
field_bytes (insert_user name pwd state) = length name + (length pwd + length state)
field_bytes (update_user_state state id) = length state
field_bytes (update_user_name name id) = length name
field_bytes (insert_group name desc) = length name + length desc
field_bytes (insert_member groupid userid role) = length role
field_bytes (insert_offline userid msg) = length msg
field_bytes (cut_short text) = length text
field_bytes _ = 0
