-- ===== src/Server/Threads/Handlers.antt =====
-- The handlers of ChatServer/src/server/chatservice.cpp for logins, logouts, closes and chat
-- messages, as threads. A stretch under `_connMutex` is one region, its calls of Redis included; so
-- are one call of a table model, one send and one call of Redis outside the lock.
use qt_chat.Base.{true, ◌||◌, not, Option, none, some}
use qt_chat.Base.Tests.{if◌then◌else◌}
use qt_chat.Base.Int.{ℤ, minus_one, eq_ℤ}
use qt_chat.Base.Lists.{Str, codes, str_eq, is_empty}
use qt_chat.Base.Map.{int_eq}
use qt_chat.Server.Api.{JsonApi, Mysql, Pubsub}
use qt_chat.Server.State.{Conn, State, gets}
use qt_chat.Server.Models.{
  User, online, offline, no_user, user_query, user_update_state, query_groups, friend_query,
  offline_remove, offline_query, offline_insert,
}
use qt_chat.Server.Replies.{friend_state, login_msg_ack, error_reply, login_ack}
use qt_chat.Server.Service.{
  send_json, redis_publish, redis_subscribe, redis_unsubscribe, find_conn, set_conn, drop_conn,
  forget_time, sort_friends,
}
use qt_chat.Server.Account.{take_owner, is_online, kick, credentials}
use qt_chat.Server.Threads.{Thread, give, raise, locked, each, ◌>>=◌, ◌>>◌}

module _ (J : JsonApi) (D : Mysql) (R : Pubsub) where
  open J use {Json, contains, get_int, get_text, dump}
  open D use {Db}
  open R use {Link}

  abbrev pub Task : Type 0
  Task = Thread (State Db Link) (Unit {0})

  -- `notifyFriendState`: the lock covers the loop that sorts the friends.
  unfoldable pub notify_thread : ℤ → Str → Task
  unfolding sort_friends
  notify_thread userid state = do
    friends ← locked (friend_query D userid)
    m ← locked (gets (λ s. s.conns))
    let notify = friend_state J userid state
    let (here, cross) = sort_friends J D R m friends
    each (λ c. locked (send_json J D R c notify)) here
    each (λ fid. locked (redis_publish J D R fid (dump notify))) cross

  -- The two branches of `login` on the state in the table.
  unfoldable pub enter_thread : Conn → ℤ → User → Task
  unfolding is_online
  enter_thread conn id user =
      if is_online J D R user
      then locked (kick J D R conn id)
      else (locked (set_conn J D R id conn) >> locked (redis_subscribe J D R id))

  -- The part of `login` after the state is set.
  unfoldable pub greet_thread : Conn → ℤ → User → Task
  unfolding notify_thread online
  greet_thread conn id user = do
    waiting ← locked (offline_query D id)
    friends ← locked (friend_query D id)
    groups ← locked (query_groups D id)
    locked (send_json J D R conn (login_ack J user waiting friends groups))
    if is_empty waiting then give true else locked (offline_remove D id)
    notify_thread id online

  unfoldable pub logged_in_thread : Conn → ℤ → User → Task
  unfolding enter_thread greet_thread
  logged_in_thread conn id user = do
    enter_thread conn id user
    locked (user_update_state D (record user { state = online }))
    greet_thread conn id (record user { state = online })

  unfoldable pub check_thread : Conn → ℤ → Str → Task
  unfolding logged_in_thread credentials
  check_thread conn id pwd = do
    user ← locked (user_query D id)
    if credentials J D R user id pwd
        then logged_in_thread conn id user
        else locked (
            send_json J D R conn (error_reply J login_msg_ack (codes "id or password is invalid!")))

  -- `login`
  unfoldable pub login_thread : Conn → Json → Task
  unfolding check_thread
  login_thread conn js =
      if not (contains js "id") || not (contains js "password")
      then locked (send_json J D R conn (error_reply J login_msg_ack (codes "invalid fields")))
      else do
        id ← raise (get_int js "id")
        pwd ← raise (get_text js "password")
        check_thread conn id pwd

  unfoldable pub leave_thread : Conn → ℤ → Task
  unfolding notify_thread offline
  leave_thread conn userid = do
    locked (drop_conn J D R userid)
    locked (redis_unsubscribe J D R userid)
    locked (forget_time J D R conn)
    locked (user_update_state D (record no_user { id = userid; state = offline }))
    notify_thread userid offline

  -- `loginout`
  unfoldable pub loginout_thread : Conn → Json → Task
  unfolding leave_thread
  loginout_thread conn js =
      if not (contains js "id") then give tt else (raise (get_int js "id") >>= leave_thread conn)

  -- `clientCloseException`
  unfoldable pub close_thread : Conn → Task
  unfolding take_owner notify_thread offline
  close_thread conn = do
    id ← locked (take_owner J D R conn)
    locked (redis_unsubscribe J D R id)
    locked (forget_time J D R conn)
    if eq_ℤ id minus_one then give tt else do
      locked (user_update_state D (record no_user { id = id; state = offline }))
      notify_thread id offline

  unfoldable pub forward_thread : ℤ → Str → Task
  unfolding online
  forward_thread toid msg = do
    user ← locked (user_query D toid)
    if str_eq user.state online
        then locked (redis_publish J D R toid msg)
        else (locked (offline_insert D toid msg) >> give tt)

  unfoldable pub send_or_thread : Option Conn → Json → Task → Task
  send_or_thread (some c) js away = locked (send_json J D R c js)
  send_or_thread none js away = away

  -- `oneChat`: the lock covers only the search for the receiver's connection.
  unfoldable pub one_chat_thread : Json → Task
  unfolding forward_thread send_or_thread
  one_chat_thread js = if not (contains js "id") || not (contains js "toid") then give tt else do
    toid ← raise (get_int js "toid")
    raise (get_int js "id")
    to_conn ← locked (find_conn J D R toid)
    send_or_thread to_conn js (forward_thread toid (dump js))
