-- ===== src/Client/Calls.antt =====
-- The requests of `ChatClient`. `now` is `time(NULL)` and `stamp` the formatted current time.
use qt_chat.Base.{ℕ, true, false, [], ◌∷◌}
use qt_chat.Base.Tests.{if◌then◌else◌}
use qt_chat.Base.Int.{ℤ, minus_one}
use qt_chat.Base.Lists.{Str}
use qt_chat.Wire.{packet}
use qt_chat.Server.Api.{num, text}
use qt_chat.Server.Replies.{
  msgid, login_msg, loginout_msg, reg_msg, one_chat_msg, add_friend_msg, create_group_msg,
  add_group_msg, group_chat_msg, update_name_msg,
}
use qt_chat.Client.{QtJson, Client, wrote, aborted, connects, disconnects, put}

module _ (J : QtJson) where
  open J use {Json, Array, object, compact}

  -- `connectToServer`
  unfoldable pub connect_to : Str → ℕ → Client Array → Client Array
  unfolding put
  connect_to host port c =
      put (connects host port)
        (put aborted (record c { intentional = false; host = host; port = port }))

  -- `sendJson`
  unfoldable pub send : ℕ → Json → Client Array → Client Array
  unfolding put
  send now js c = put (wrote (packet (compact js))) (record c { last_data = now })

  unfoldable pub login_request : ℤ → Str → Json
  login_request id pwd = object (msgid login_msg ∷ ("id", num id) ∷ ("password", text pwd) ∷ [])

  unfoldable pub ask_login : ℕ → ℤ → Str → Client Array → Client Array
  unfolding send login_request
  ask_login now id pwd c =
      let d =
        send now (login_request id pwd)
          (record c { intentional = false; my_id = id; password = pwd; want_relogin = true }) in
      record d { login_timeout = true }

  unfoldable pub ask_reg : ℕ → Str → Str → Client Array → Client Array
  unfolding send
  ask_reg now name pwd =
      send now (object (msgid reg_msg ∷ ("name", text name) ∷ ("password", text pwd) ∷ []))

  unfoldable pub ask_one_chat : ℕ → Str → ℤ → Str → Client Array → Client Array
  unfolding send
  ask_one_chat now stamp toid msg c =
      send now
        (object (
          msgid one_chat_msg
          ∷ ("id", num c.my_id)
          ∷ ("name", text c.my_name)
          ∷ ("toid", num toid)
          ∷ ("msg", text msg)
          ∷ ("time", text stamp)
          ∷ []))
        c

  unfoldable pub ask_add_friend : ℕ → ℤ → Client Array → Client Array
  unfolding send
  ask_add_friend now friendid c =
      send now
        (object (msgid add_friend_msg ∷ ("id", num c.my_id) ∷ ("friendid", num friendid) ∷ [])) c

  unfoldable pub ask_create_group : ℕ → Str → Str → Client Array → Client Array
  unfolding send
  ask_create_group now name desc c =
      send now
        (object (
          msgid create_group_msg
          ∷ ("id", num c.my_id)
          ∷ ("groupname", text name)
          ∷ ("groupdesc", text desc)
          ∷ []))
        c

  unfoldable pub ask_add_group : ℕ → ℤ → Client Array → Client Array
  unfolding send
  ask_add_group now groupid c =
      send now (object (msgid add_group_msg ∷ ("id", num c.my_id) ∷ ("groupid", num groupid) ∷ []))
        c

  unfoldable pub ask_group_chat : ℕ → Str → ℤ → Str → Client Array → Client Array
  unfolding send
  ask_group_chat now stamp groupid msg c =
      send now
        (object (
          msgid group_chat_msg
          ∷ ("id", num c.my_id)
          ∷ ("name", text c.my_name)
          ∷ ("groupid", num groupid)
          ∷ ("msg", text msg)
          ∷ ("time", text stamp)
          ∷ []))
        c

  unfoldable pub ask_update_name : ℕ → ℤ → Str → Client Array → Client Array
  unfolding send
  ask_update_name now id name =
      send now (object (msgid update_name_msg ∷ ("id", num id) ∷ ("name", text name) ∷ []))

  -- `loginout`
  unfoldable pub log_out : ℕ → Client Array → Client Array
  unfolding send put
  log_out now c =
      if c.intentional
      then c
      else let d = record c {
        intentional = true;
        want_relogin = false;
        reconnect = false;
        login_timeout = false;
        heartbeat = false;
        heartbeat_timeout = false;
      } in
        let e = send now (object (msgid loginout_msg ∷ ("id", num c.my_id) ∷ [])) d in
        put disconnects (record e { recv_buf = [] })

  -- `setServerIp` and `setServerPort`: the next `connectToServer` of the dialog takes them, a
  -- reconnect does not. The settings that they store are those of the next start.
  abbrev pub set_server_ip : Str → Client Array → Client Array
  set_server_ip ip c = record c { server_ip = ip }

  abbrev pub set_server_port : ℕ → Client Array → Client Array
  set_server_port port c = record c { server_port = port }

  -- `resetLoginState`
  unfoldable pub reset_login_state : Client Array → Client Array
  reset_login_state c = record c { my_id = minus_one; password = []; want_relogin = false }
