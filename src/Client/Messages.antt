-- ===== src/Client/Messages.antt =====
-- `handleMessage` and `onReadyRead` of `ChatClient`.
use qt_chat.Base.{ℕ, true, false, not, ◌||◌, [], ◌∷◌, ◌++◌, Option, none, some}
use qt_chat.Base.Tests.{if◌then◌else◌}
use qt_chat.Base.Int.{ℤ, pos, eq_ℤ}
use qt_chat.Base.Lists.{Str, codes}
use qt_chat.Base.Map.{Map, lookup, int_eq}
use qt_chat.Wire.{on_message}
use qt_chat.Server.Replies.{
  msg_code, login_msg_ack, reg_msg_ack, one_chat_msg, group_chat_msg, friend_state_change_msg,
  add_friend_msg, create_group_msg, add_group_msg, update_name_msg, heartbeat_msg,
}
use qt_chat.Client.{
  QtJson, Client, aborted, signal, Signal, login_success, login_failed, reg_success, reg_failed,
  received_chat, received_group, friend_state_changed, friend_added, group_created, group_joined,
  name_updated, name_update_failed, put,
}
use qt_chat.Client.Calls.{reset_login_state}

module _ (J : QtJson) where
  open J use {Json, Array, contains, to_int, to_text, array, parse}

  abbrev tell : Signal Array → Client Array → Client Array
  tell s = put (signal s)

  -- The part of the login reply for a login that went through.
  unfoldable pub welcome : Json → Client Array → Client Array
  unfolding put
  welcome js c =
      if not (contains js "id") || not (contains js "name")
      then c
      else let d =
          tell
            (login_success (to_int js "id") (to_text js "name") (array js "friends")
              (array js "groups") (array js "offlinemsg"))
            (record c { my_id = to_int js "id"; my_name = to_text js "name" }) in
        record d { heartbeat = true }

  unfoldable pub on_login_ack : Json → Client Array → Client Array
  unfolding welcome reset_login_state put
  on_login_ack js c =
      let d = record c { login_timeout = false } in
      if not (contains js "errno")
      then d
      else if eq_ℤ (to_int js "errno") (pos 0)
      then welcome js d
      else tell (login_failed (to_text js "errmsg"))
          (reset_login_state J (record d { reconnect = false }))

  unfoldable pub on_reg_ack : Json → Client Array → Client Array
  unfolding put
  on_reg_ack js =
      if eq_ℤ (to_int js "errno") (pos 0)
      then tell (reg_success (to_int js "id"))
      else tell (reg_failed (codes "register failed"))

  unfoldable pub on_name_reply : Json → Client Array → Client Array
  unfolding put
  on_name_reply js =
      if contains js "errno"
      then tell (name_update_failed (to_text js "errmsg"))
      else tell (name_updated (to_int js "id") (to_text js "name"))

  -- The cases of the `switch` of `handleMessage`.
  unfoldable pub cases : Json → Map ℤ (Client Array → Client Array)
  unfolding on_login_ack on_reg_ack on_name_reply put
  cases js =
      (msg_code login_msg_ack, on_login_ack js)
      ∷ (msg_code reg_msg_ack, on_reg_ack js)
      ∷ (
        msg_code one_chat_msg,
        tell (
            received_chat (to_int js "id") (to_text js "name") (to_text js "msg")
              (to_text js "time")),
      )
      ∷ (
        msg_code group_chat_msg,
        tell (
            received_group (to_int js "groupid") (to_int js "id") (to_text js "name")
              (to_text js "msg") (to_text js "time")),
      )
      ∷ (
        msg_code friend_state_change_msg,
        tell (friend_state_changed (to_int js "friendid") (to_text js "state")),
      )
      ∷ (
        msg_code add_friend_msg,
        tell (friend_added (to_int js "id") (to_text js "name") (to_text js "state")),
      )
      ∷ (
        msg_code create_group_msg,
        tell (group_created (to_int js "groupid") (to_text js "groupname")),
      )
      ∷ (msg_code add_group_msg, tell (group_joined (to_int js "groupid") (to_text js "groupname")))
      ∷ (msg_code update_name_msg, on_name_reply js)
      ∷ (msg_code heartbeat_msg, λ c. record c { heartbeat_timeout = false })
      ∷ []

  abbrev pub or_nothing : Option (Client Array → Client Array) → Client Array → Client Array
  or_nothing none c = c
  or_nothing (some f) c = f c

  -- `handleMessage`
  unfoldable pub handle_message : Json → Client Array → Client Array
  unfolding cases
  handle_message js = or_nothing (lookup (to_int js "msgid") (cases js))

  abbrev pub on_document : Option Json → Client Array → Client Array
  on_document none c = c
  on_document (some js) c = handle_message js c

  -- One message of the read loop: what does not parse is skipped.
  unfoldable pub handle_bytes : Str → Client Array → Client Array
  unfolding handle_message
  handle_bytes msg = on_document (parse msg)

  -- `onReadyRead`, with what `readAll` gave. The windows' slots on the signals are not part of it.
  unfoldable pub on_ready_read : ℕ → Str → Client Array → Client Array
  unfolding handle_bytes put
  on_ready_read now chunk c =
      let (rest, d) =
        on_message handle_bytes (put aborted) (c.recv_buf ++ chunk)
          (record c { last_data = now }) in
      record d { recv_buf = rest }
