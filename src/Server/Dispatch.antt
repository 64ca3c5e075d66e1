-- ===== src/Server/Dispatch.antt =====
-- The dispatch of `ChatService` and `ChatServer`: the handler table, the `try` of `onMessage`, the
-- read loop over a connection's buffer, the connection callback, and the heartbeat check. The time
-- of a call is an argument.
use qt_chat.Base.{ℕ, ◌-◌, Bool, List, [], ◌∷◌, Option, none, some}
use qt_chat.Base.Tests.{if◌then◌else◌, ltb}
use qt_chat.Base.Int.{ℤ}
use qt_chat.Base.Lists.{Str}
use qt_chat.Base.Map.{Map, lookup, insert, int_eq, str_key}
use qt_chat.Wire.{on_message}
use qt_chat.Server.Api.{JsonApi, Mysql, Pubsub}
use qt_chat.Server.State.{Conn, closed, State, ok, pure, or_throw, emit, for_each, ◌>>=◌, ◌>>◌}
use qt_chat.Server.Models.{user_reset_state}
use qt_chat.Server.Replies.{
  msg_code, login_msg, loginout_msg, reg_msg, one_chat_msg, add_friend_msg, create_group_msg,
  add_group_msg, group_chat_msg, update_name_msg, heartbeat_msg, heartbeat_reply,
}
use qt_chat.Server.Service.{Done, send_json}
use qt_chat.Server.Account.{login, loginout, reg, update_name, client_close}
use qt_chat.Server.Chat.{one_chat, add_friend, create_group, add_group, group_chat}

-- Seconds without a message after which a connection is shut down.
abbrev pub silence : ℕ
silence = 30

-- The loop of `checkHeartbeat` over `_connectionLastTime`.
unfoldable pub overdue : ℕ → Map Str (ℕ × Conn) → List Conn
overdue now [] = []
overdue now ((name, (last, conn)) ∷ m) =
    let rest = overdue now m in if ltb silence (now - last) then conn ∷ rest else rest

module _ (J : JsonApi) (D : Mysql) (R : Pubsub) where
  open J use {Json, get_int, parse}
  open D use {Db}
  open R use {Link}

  unfoldable pub update_conn_time : ℕ → Conn → Done J D R
  update_conn_time now conn s =
      (ok tt, record s { last_time = insert conn.name (now, conn) s.last_time })

  unfoldable pub heartbeat : ℕ → Conn → Done J D R
  heartbeat now conn = do update_conn_time now conn; send_json J D R conn (heartbeat_reply J)

  -- `_msgHandlerMap`, as the constructor fills it.
  unfoldable pub handlers : ℕ → Map ℤ (Conn → Json → Done J D R)
  handlers now =
      (msg_code login_msg, login J D R)
      ∷ (msg_code loginout_msg, loginout J D R)
      ∷ (msg_code reg_msg, reg J D R)
      ∷ (msg_code one_chat_msg, λ conn. one_chat J D R)
      ∷ (msg_code add_friend_msg, add_friend J D R)
      ∷ (msg_code create_group_msg, create_group J D R)
      ∷ (msg_code add_group_msg, add_group J D R)
      ∷ (msg_code group_chat_msg, λ conn. group_chat J D R)
      ∷ (msg_code update_name_msg, update_name J D R)
      ∷ (msg_code heartbeat_msg, λ conn js. heartbeat now conn)
      ∷ []

  -- A handler from the table, or the default one, which only logs.
  unfoldable pub or_default : Option (Conn → Json → Done J D R) → Conn → Json → Done J D R
  or_default none conn js = pure tt
  or_default (some h) conn js = h conn js

  -- `getHandler`
  unfoldable pub get_handler : ℕ → ℤ → Conn → Json → Done J D R
  unfolding or_default handlers
  get_handler now id = or_default (lookup id (handlers now))

  unfoldable pub handle_json : ℕ → Conn → Json → Done J D R
  handle_json now conn js = do
    update_conn_time now conn
    id ← or_throw (get_int js "msgid")
    get_handler now id conn js

  unfoldable pub on_parsed : ℕ → Conn → Option Json → State Db Link → State Db Link
  on_parsed now conn none s = s
  on_parsed now conn (some js) s = (handle_json now conn js s).1

  -- The `try` block for one message: what is caught is logged, and the loop goes on.
  unfoldable pub handle_body : ℕ → Conn → Str → State Db Link → State Db Link
  unfolding on_parsed handle_json
  handle_body now conn msg s = on_parsed now conn (parse msg) s

  -- `ChatServer::onMessage`: the rest of the buffer, and the state.
  unfoldable pub server_read : ℕ → Conn → Str → State Db Link → Str × State Db Link
  server_read now conn = on_message (handle_body now conn) (λ s. s)

  -- `ChatServer::onConnection`; `up` is `conn->connected()`.
  unfoldable pub on_connection : Bool → Conn → Done J D R
  on_connection up conn = if up then pure tt else (client_close J D R conn >> emit (closed conn))

  -- `checkHeartbeat`
  unfoldable pub check_heartbeat : ℕ → Done J D R
  unfolding overdue
  check_heartbeat now s = for_each (λ c. emit (closed c)) (overdue now s.last_time) s

  -- `reset`, on the way out of `main`.
  unfoldable pub reset : Done J D R
  reset = user_reset_state D >> pure tt
