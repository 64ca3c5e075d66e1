-- ===== src/Client/Events.antt =====
-- The slots of `ChatClient` for its timers and its socket.
use qt_chat.Base.{ℕ, ◌-◌, true, false, ◌&&◌, not, [], ◌∷◌}
use qt_chat.Base.Tests.{if◌then◌else◌, ltb}
use qt_chat.Base.Int.{is_pos}
use qt_chat.Base.Lists.{Str, codes, is_empty}
use qt_chat.Wire.{packet}
use qt_chat.Server.Replies.{msgid, heartbeat_msg}
use qt_chat.Client.{
  QtJson, Client, wrote, aborted, connects, signal, connected, disconnected, connection_error,
  Socket, is_connected, unconnected, put,
}
use qt_chat.Client.Calls.{connect_to, ask_login}

module _ (J : QtJson) where
  open J use {Json, Array, object, compact}

  -- `sendHeartbeat`
  unfoldable pub send_heartbeat : ℕ → Socket → Client Array → Client Array
  unfolding put
  send_heartbeat now is_connected c =
      if ltb (now - c.last_data) 15
      then c
      else record (put (wrote (packet (compact (object (msgid heartbeat_msg ∷ []))))) c) {
        heartbeat_timeout = true;
      }
  send_heartbeat now _ c = c

  -- `onHeartbeatTimeout`; a single-shot timer that fired runs no more.
  unfoldable pub on_heartbeat_timeout : Client Array → Client Array
  unfolding put
  on_heartbeat_timeout c =
      let d = put aborted (record c { heartbeat_timeout = false; recv_buf = [] }) in
      if c.intentional
      then d
      else put (signal (connection_error (codes "Server heartbeat timeout, reconnecting...")))
          (record d { reconnect = true })

  -- `relogin`
  unfoldable pub relogin : Client Array → Client Array
  unfolding put connect_to
  relogin c =
      if is_pos c.my_id && not (is_empty c.password)
      then connect_to J c.host c.port
          (put aborted (record c { intentional = false; want_relogin = true }))
      else c

  -- `onConnected`
  unfoldable pub on_connected : ℕ → Client Array → Client Array
  unfolding put ask_login
  on_connected now c =
      let d = record c { reconnect = false; intentional = false } in
      if c.want_relogin then ask_login J now c.my_id c.password d else put (signal connected) d

  -- `onDisconnected`
  unfoldable pub on_disconnected : Client Array → Client Array
  unfolding put
  on_disconnected c =
      let d =
        put (signal disconnected)
          (record c { heartbeat = false; heartbeat_timeout = false; recv_buf = [] }) in
      if not c.intentional && not c.reconnect then record d { reconnect = true } else d

  -- `onError`, with the socket's text.
  unfoldable pub on_error : Str → Client Array → Client Array
  unfolding put
  on_error why c =
      if c.intentional
      then c
      else let d = put (signal (connection_error why)) c in
        if c.reconnect then d else record d { reconnect = true }

  -- `onReconnectTimeout`
  unfoldable pub on_reconnect_timeout : Socket → Client Array → Client Array
  unfolding put
  on_reconnect_timeout unconnected c = put (connects c.host c.port) (put aborted c)
  on_reconnect_timeout _ c = c

  -- `onLoginTimeout`
  unfoldable pub on_login_timeout : Client Array → Client Array
  unfolding put
  on_login_timeout c =
      put (signal (connection_error (codes "Server not responding, will retry...")))
        (put aborted (record c { login_timeout = false; recv_buf = [] }))
