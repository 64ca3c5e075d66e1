-- ===== src/Server/Account.antt =====
-- The handlers of `ChatService` for accounts: login, registration, logout, the close of a
-- connection, and the change of name.
use qt_chat.Base.{Bool, true, false, ◌&&◌, ◌||◌, not, [], ◌∷◌, Option, none, some}
use qt_chat.Base.Tests.{if◌then◌else◌}
use qt_chat.Base.Int.{ℤ, minus_one, eq_ℤ}
use qt_chat.Base.Lists.{Str, codes, str_eq, is_empty}
use qt_chat.Base.Map.{Map, erase, int_eq}
use qt_chat.Server.Api.{JsonApi, Mysql, Pubsub}
use qt_chat.Server.State.{Conn, same_conn, closed, ok, pure, or_throw, emit, ◌>>=◌, ◌>>◌}
use qt_chat.Server.Models.{
  User, online, offline, no_user, user_insert, user_query, user_update_state, user_update_name,
  query_groups, friend_query, offline_remove, offline_query,
}
use qt_chat.Server.Replies.{
  login_msg_ack, reg_msg_ack, update_name_msg, error_reply, login_ack, reg_ack, reg_refused,
  name_updated,
}
use qt_chat.Server.Service.{
  Act, Done, send_json, redis_subscribe, redis_unsubscribe, find_conn, set_conn, drop_conn,
  forget_time, notify_friend_state,
}

-- The loop of `clientCloseException`: the first entry with this connection. The source goes
-- through an unordered map, whose order is not specified.
unfoldable pub owner : Conn → Map ℤ Conn → Option ℤ
owner conn [] = none
owner conn ((id, c) ∷ m) = let rest = owner conn m in if same_conn c conn then some id else rest

-- `user.getId()` after the loop; a new `User` has the id -1.
unfoldable pub found_id : Option ℤ → ℤ
found_id none = minus_one
found_id (some id) = id

-- The map after the loop: an entry is erased only where one matched.
unfoldable pub without_found : Option ℤ → Map ℤ Conn → Map ℤ Conn
without_found none m = m
without_found (some id) m = erase id m

module _ (J : JsonApi) (D : Mysql) (R : Pubsub) where
  open J use {Json, contains, get_int, get_text}

  unfoldable pub is_online : User → Bool
  unfolding online
  is_online user = str_eq user.state online

  unfoldable pub shut_down : Option Conn → ℤ → Done J D R
  shut_down none id s = (ok tt, s)
  shut_down (some old) id s = (emit (closed old) >> drop_conn J D R id) s

  -- The user is online by the table: the old connection is shut down, and the new one takes over.
  unfoldable pub kick : Conn → ℤ → Done J D R
  unfolding shut_down
  kick conn id = do
    old ← find_conn J D R id
    shut_down old id
    set_conn J D R id conn
    redis_unsubscribe J D R id
    redis_subscribe J D R id

  -- The connection is entered in the map, and the user's channel subscribed.
  unfoldable pub enter : Conn → ℤ → User → Done J D R
  unfolding kick is_online
  enter conn id user =
      if is_online user then kick conn id else (set_conn J D R id conn >> redis_subscribe J D R id)

  -- The reply with what waits for the user, which is deleted only after it was sent.
  unfoldable pub greet : Conn → ℤ → User → Done J D R
  greet conn id user = do
    waiting ← offline_query D id
    friends ← friend_query D id
    groups ← query_groups D id
    send_json J D R conn (login_ack J user waiting friends groups)
    if is_empty waiting then pure true else offline_remove D id
    notify_friend_state J D R id online

  unfoldable pub logged_in : Conn → ℤ → User → Done J D R
  unfolding enter greet
  logged_in conn id user = do
    enter conn id user
    user_update_state D (record user { state = online })
    greet conn id (record user { state = online })

  -- `user.getId() == id && user.getPwd() == pwd`
  unfoldable pub credentials : User → ℤ → Str → Bool
  credentials user id pwd = eq_ℤ user.id id && str_eq user.password pwd

  unfoldable pub check_login : Conn → ℤ → Str → Done J D R
  unfolding logged_in credentials
  check_login conn id pwd = do
    user ← user_query D id
    if credentials user id pwd
        then logged_in conn id user
        else send_json J D R conn (error_reply J login_msg_ack (codes "id or password is invalid!"))

  unfoldable pub invalid_fields : Str
  invalid_fields = codes "invalid fields"

  unfoldable pub login : Conn → Json → Done J D R
  unfolding check_login invalid_fields
  login conn js =
      if not (contains js "id") || not (contains js "password")
      then send_json J D R conn (error_reply J login_msg_ack invalid_fields)
      else do
        id ← or_throw (get_int js "id")
        pwd ← or_throw (get_text js "password")
        check_login conn id pwd

  unfoldable pub reg_reply : Conn → Bool × User → Done J D R
  reg_reply conn (true, user) = send_json J D R conn (reg_ack J user.id)
  reg_reply conn (false, user) = send_json J D R conn (reg_refused J)

  unfoldable pub reg : Conn → Json → Done J D R
  unfolding reg_reply invalid_fields
  reg conn js =
      if not (contains js "name") || not (contains js "password")
      then send_json J D R conn (error_reply J reg_msg_ack invalid_fields)
      else do
        name ← or_throw (get_text js "name")
        pwd ← or_throw (get_text js "password")
        user_insert D (record no_user { name = name; password = pwd }) >>= reg_reply conn

  -- `loginout`: the user is the one that the message names.
  unfoldable pub leave : Conn → ℤ → Done J D R
  leave conn userid = do
    drop_conn J D R userid
    redis_unsubscribe J D R userid
    forget_time J D R conn
    user_update_state D (record no_user { id = userid; state = offline })
    notify_friend_state J D R userid offline

  unfoldable pub loginout : Conn → Json → Done J D R
  unfolding leave
  loginout conn js =
      if not (contains js "id") then pure tt else (or_throw (get_int js "id") >>= leave conn)

  -- The first stretch of `clientCloseException` under the lock.
  unfoldable pub take_owner : Conn → Act J D R ℤ
  unfolding owner found_id without_found
  take_owner conn s =
      let found = owner conn s.conns in
      (ok (found_id found), record s { conns = without_found found s.conns })

  unfoldable pub client_close : Conn → Done J D R
  unfolding take_owner
  client_close conn = do
    id ← take_owner conn
    redis_unsubscribe J D R id
    forget_time J D R conn
    if eq_ℤ id minus_one then pure tt else do
      user_update_state D (record no_user { id = id; state = offline })
      notify_friend_state J D R id offline

  unfoldable pub name_reply : Conn → ℤ → Str → Bool → Done J D R
  name_reply conn id name true = send_json J D R conn (name_updated J id name)
  name_reply conn id name false =
      send_json J D R conn (error_reply J update_name_msg (codes "Name already exists"))

  unfoldable pub update_name : Conn → Json → Done J D R
  unfolding name_reply
  update_name conn js = if not (contains js "id") || not (contains js "name") then pure tt else do
    userid ← or_throw (get_int js "id")
    new_name ← or_throw (get_text js "name")
    changed ← user_update_name D userid new_name
    name_reply conn userid new_name changed
