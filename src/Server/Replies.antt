-- ===== src/Server/Replies.antt =====
-- The json objects that the handlers of `ChatService` send back, field by field.
use qt_chat.Base.{String, List, [], ◌∷◌, ◌++◌, map}
use qt_chat.Base.Int.{ℤ, pos}
use qt_chat.Base.Lists.{Str}
use qt_chat.Server.Api.{JsonApi, Field, num, text, texts}
use qt_chat.Server.Models.{User, Group, GroupUser}

-- `EnMsgType` of ChatServer/include/public.hpp and of QtClient/Client/chatclient.h.
pub data MsgType : Type 0 where
  login_msg login_msg_ack loginout_msg reg_msg reg_msg_ack one_chat_msg add_friend_msg : MsgType
  create_group_msg add_group_msg group_chat_msg friend_state_change_msg : MsgType
  update_name_msg heartbeat_msg : MsgType

unfoldable pub msg_code : MsgType → ℤ
msg_code login_msg = pos 1
msg_code login_msg_ack = pos 2
msg_code loginout_msg = pos 3
msg_code reg_msg = pos 4
msg_code reg_msg_ack = pos 5
msg_code one_chat_msg = pos 6
msg_code add_friend_msg = pos 7
msg_code create_group_msg = pos 8
msg_code add_group_msg = pos 9
msg_code group_chat_msg = pos 10
msg_code friend_state_change_msg = pos 11
msg_code update_name_msg = pos 12
msg_code heartbeat_msg = pos 13

abbrev pub msgid : MsgType → String × Field
msgid t = ("msgid", num (msg_code t))

module _ (J : JsonApi) where
  open J use {Json, object, dump}

  unfoldable pub error_reply : MsgType → Str → Json
  error_reply t why = object (msgid t ∷ ("errno", num (pos 1)) ∷ ("errmsg", text why) ∷ [])

  -- A field that the reply has only where its list is not empty.
  abbrev list_field : String → List Str → List (String × Field)
  list_field key [] = []
  list_field key (s ∷ ss) = (key, texts (s ∷ ss)) ∷ []

  friend_json : User → Str
  friend_json u =
      dump (object (("id", num u.id) ∷ ("name", text u.name) ∷ ("state", text u.state) ∷ []))

  member_json : GroupUser → Str
  member_json g = dump (
      object (
        ("id", num g.user.id)
        ∷ ("name", text g.user.name)
        ∷ ("state", text g.user.state)
        ∷ ("role", text g.role)
        ∷ []))

  group_json : Group → Str
  unfolding member_json
  group_json g = dump (
      object (
        ("id", num g.id)
        ∷ ("groupname", text g.name)
        ∷ ("groupdesc", text g.desc)
        ∷ ("users", texts (map member_json g.users))
        ∷ []))

  -- The reply to a login that went through.
  unfoldable pub login_ack : User → List Str → List User → List Group → Json
  unfolding friend_json group_json
  login_ack user offline friends groups = object (
      msgid login_msg_ack
      ∷ ("errno", num (pos 0))
      ∷ ("id", num user.id)
      ∷ ("name", text user.name)
      ∷ (list_field "offlinemsg" offline
          ++ (list_field "friends" (map friend_json friends)
              ++ list_field "groups" (map group_json groups))))

  unfoldable pub reg_ack : ℤ → Json
  reg_ack id = object (msgid reg_msg_ack ∷ ("errno", num (pos 0)) ∷ ("id", num id) ∷ [])

  unfoldable pub reg_refused : Json
  reg_refused = object (msgid reg_msg_ack ∷ ("errno", num (pos 1)) ∷ [])

  unfoldable pub friend_reply : User → Json
  friend_reply u = object (
      msgid add_friend_msg
      ∷ ("id", num u.id)
      ∷ ("name", text u.name)
      ∷ ("state", text u.state)
      ∷ [])

  unfoldable pub group_created : Group → Json
  group_created g = object (
      msgid create_group_msg
      ∷ ("groupid", num g.id)
      ∷ ("groupname", text g.name)
      ∷ ("groupdesc", text g.desc)
      ∷ [])

  unfoldable pub group_joined : Group → Json
  group_joined g =
      object (msgid add_group_msg ∷ ("groupid", num g.id) ∷ ("groupname", text g.name) ∷ [])

  unfoldable pub name_updated : ℤ → Str → Json
  name_updated id name = object (msgid update_name_msg ∷ ("id", num id) ∷ ("name", text name) ∷ [])

  unfoldable pub friend_state : ℤ → Str → Json
  friend_state id state =
      object (msgid friend_state_change_msg ∷ ("friendid", num id) ∷ ("state", text state) ∷ [])

  unfoldable pub heartbeat_reply : Json
  heartbeat_reply = object (msgid heartbeat_msg ∷ [])
