-- ===== src/Server/Chat.antt =====
-- The handlers of `ChatService` for messages, friends and groups, and the Redis callback.
use qt_chat.Base.{Bool, true, false, ◌||◌, not, List, [], ◌∷◌, Option, none, some}
use qt_chat.Base.Tests.{if◌then◌else◌}
use qt_chat.Base.Int.{ℤ, minus_one, eq_ℤ}
use qt_chat.Base.Lists.{Str, codes, str_eq}
use qt_chat.Server.Api.{JsonApi, Mysql, Pubsub}
use qt_chat.Server.State.{Conn, pure, or_throw, for_each, ◌>>=◌, ◌>>◌}
use qt_chat.Server.Models.{
  Group, online, new_group, user_query, friend_insert, group_insert, member_insert,
  query_group_users, query_group, offline_insert,
}
use qt_chat.Server.Replies.{
  msg_code, friend_state_change_msg, friend_reply, group_created, group_joined,
}
use qt_chat.Server.Service.{Act, Done, send_json, redis_publish, find_conn}

module _ (J : JsonApi) (D : Mysql) (R : Pubsub) where
  open J use {Json, contains, get_int, get_text, dump, parse}

  -- Not in this process: through Redis if the table says online, else stored.
  unfoldable pub forward : ℤ → Str → Done J D R
  unfolding online
  forward toid msg = do
    user ← user_query D toid
    if str_eq user.state online
        then redis_publish J D R toid msg
        else (offline_insert D toid msg >> pure tt)

  -- To the connection, if there is one.
  unfoldable pub send_or : Option Conn → Json → Done J D R → Done J D R
  send_or (some c) js away = send_json J D R c js
  send_or none js away = away

  -- The routing of `oneChat`.
  unfoldable pub route : ℤ → Json → Done J D R
  unfolding forward send_or
  route toid js = do to_conn ← find_conn J D R toid; send_or to_conn js (forward toid (dump js))

  unfoldable pub one_chat : Json → Done J D R
  unfolding route
  one_chat js =
      if not (contains js "id") || not (contains js "toid")
      then pure tt
      else do toid ← or_throw (get_int js "toid"); or_throw (get_int js "id"); route toid js

  unfoldable pub add_friend : Conn → Json → Done J D R
  add_friend conn js =
      if not (contains js "id") || not (contains js "friendid") then pure tt else do
        userid ← or_throw (get_int js "id")
        friendid ← or_throw (get_int js "friendid")
        friend_insert D userid friendid
        friend_insert D friendid userid
        friend ← user_query D friendid
        send_json J D R conn (friend_reply J friend)

  unfoldable pub group_reply : Conn → ℤ → Bool × Group → Done J D R
  group_reply conn userid (true, group) = do
    member_insert D userid group.id (codes "creator")
    send_json J D R conn (group_created J group)
  group_reply conn userid (false, group) = pure tt

  -- `js["groupdesc"]` is read without a test that it is there.
  unfoldable pub create_group : Conn → Json → Done J D R
  unfolding group_reply
  create_group conn js =
      if not (contains js "id") || not (contains js "groupname") then pure tt else do
        userid ← or_throw (get_int js "id")
        name ← or_throw (get_text js "groupname")
        desc ← or_throw (get_text js "groupdesc")
        group_insert D (new_group minus_one name desc) >>= group_reply conn userid

  unfoldable pub add_group : Conn → Json → Done J D R
  add_group conn js = if not (contains js "id") || not (contains js "groupid") then pure tt else do
    userid ← or_throw (get_int js "id")
    groupid ← or_throw (get_int js "groupid")
    member_insert D userid groupid (codes "normal")
    group ← query_group D groupid
    send_json J D R conn (group_joined J group)

  unfoldable pub send_step : Json → ℤ → Option Conn → Act J D R (List ℤ) → Act J D R (List ℤ)
  send_step js id (some conn) others = send_json J D R conn js >> others
  send_step js id none others = others >>= λ away. pure (id ∷ away)

  -- The first loop of `groupChat`, under the lock: sends, and returns who is not here.
  unfoldable pub send_here : Json → List ℤ → Act J D R (List ℤ)
  unfolding send_step
  send_here js [] = pure []
  send_here js (id ∷ ids) = find_conn J D R id >>= λ c. send_step js id c (send_here js ids)

  unfoldable pub store_step : Str → ℤ → Bool → Act J D R (List ℤ) → Act J D R (List ℤ)
  store_step msg id true others = others >>= λ cross. pure (id ∷ cross)
  store_step msg id false others = offline_insert D id msg >> others

  -- The second loop: stores for who is offline, and returns who is online elsewhere.
  unfoldable pub store_away : Str → List ℤ → Act J D R (List ℤ)
  unfolding online store_step
  store_away msg [] = pure []
  store_away msg (id ∷ ids) =
      user_query D id >>= λ user. store_step msg id (str_eq user.state online) (store_away msg ids)

  unfoldable pub spread : Json → List ℤ → Done J D R
  unfolding send_here store_away
  spread js members = do
    away ← send_here js members
    cross ← store_away (dump js) away
    for_each (λ id. redis_publish J D R id (dump js)) cross

  unfoldable pub group_chat : Json → Done J D R
  unfolding spread
  group_chat js = if not (contains js "id") || not (contains js "groupid") then pure tt else do
    userid ← or_throw (get_int js "id")
    groupid ← or_throw (get_int js "groupid")
    members ← query_group_users D userid groupid
    spread js members

  unfoldable pub send_parsed : Conn → Option Json → Done J D R
  send_parsed conn none = pure tt
  send_parsed conn (some js) = send_json J D R conn js

  -- `parsed.contains("msgid") && parsed["msgid"].get<int>() == FRIEND_STATE_CHANGE_MSG`
  unfoldable pub is_state_notice : Option Json → Act J D R Bool
  unfolding msg_code
  is_state_notice none = pure false
  is_state_notice (some js) =
      if contains js "msgid"
      then (or_throw (get_int js "msgid") >>= λ t. pure (eq_ℤ t (msg_code friend_state_change_msg)))
      else pure false

  unfoldable pub keep_for : ℤ → Str → Option Json → Done J D R
  keep_for userid msg parsed = do
    transient ← is_state_notice parsed
    if transient then pure tt else (offline_insert D userid msg >> pure tt)

  unfoldable pub on_channel : Option Conn → ℤ → Str → Done J D R
  on_channel (some conn) userid msg = send_parsed conn (parse msg)
  on_channel none userid msg = keep_for userid msg (parse msg)

  -- `handleRedisSubscribeMessage`
  unfoldable pub redis_message : ℤ → Str → Done J D R
  unfolding send_parsed is_state_notice on_channel keep_for
  redis_message userid msg = find_conn J D R userid >>= λ found. on_channel found userid msg
