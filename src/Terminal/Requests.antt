-- ===== src/Terminal/Requests.antt =====
-- The requests of the command line client. `sent_ok` is whether `send` gave another result than -1,
-- and `stamp` is what `getCurrentTime` made.
use qt_chat.Base.{Bool, false, [], ◌∷◌, ◌++◌, Option, none, some}
use qt_chat.Base.Tests.{if◌then◌else◌}
use qt_chat.Base.Int.{ℤ}
use qt_chat.Base.Lists.{c_str, Str, codes, take}
use qt_chat.Config.{split_at}
use qt_chat.Server.Api.{JsonApi, num, text}
use qt_chat.Server.Models.Text.{atoi}
use qt_chat.Server.Replies.{
  msgid, login_msg, loginout_msg, reg_msg, one_chat_msg, add_friend_msg, create_group_msg,
  add_group_msg, group_chat_msg,
}
use qt_chat.Terminal.{
  Cli, transmits, prints, help_text, waiting_login, waiting_reg, choosing, ended, tell,
}

module _ (J : JsonApi) where
  open J use {Json, object, dump}

  -- `send` of the text with its zero at the end.
  unfoldable pub request_bytes : Json → Str
  unfolding c_str
  request_bytes js = c_str (dump js) ++ 0 ∷ []

  unfoldable pub transmit : Json → Cli → Cli
  unfolding request_bytes tell
  transmit js = tell (transmits (request_bytes js))

  -- The login of the first menu; `getline` into 50 bytes.
  unfoldable pub choose_login : ℤ → Str → Cli → Cli
  unfolding transmit
  choose_login id pwd c =
      let js = object (msgid login_msg ∷ ("id", num id) ∷ ("password", text (take 49 pwd)) ∷ []) in
      transmit js (record c { logged_in = false; place = waiting_login })

  unfoldable pub choose_reg : Str → Str → Cli → Cli
  unfolding transmit
  choose_reg name pwd c =
      let js =
        object
          (msgid reg_msg ∷ ("name", text (take 49 name)) ∷ ("password", text (take 49 pwd)) ∷ []) in
      transmit js (record c { place = waiting_reg })

  unfoldable pub addfriend : Str → Cli → Cli
  unfolding transmit
  addfriend str c =
      transmit
        (object (msgid add_friend_msg ∷ ("id", num c.user.id) ∷ ("friendid", num (atoi str)) ∷ []))
        c

  unfoldable pub addgroup : Str → Cli → Cli
  unfolding transmit
  addgroup str c =
      transmit
        (object (msgid add_group_msg ∷ ("id", num c.user.id) ∷ ("groupid", num (atoi str)) ∷ [])) c

  abbrev pub chat_to : Str → Option (Str × Str) → Cli → Cli
  unfolding transmit tell
  chat_to stamp none c = tell (prints (codes "chat command invalid!")) c
  chat_to stamp (some (friend, message)) c =
      transmit
        (object (
          msgid one_chat_msg
          ∷ ("id", num c.user.id)
          ∷ ("name", text c.user.name)
          ∷ ("toid", num (atoi friend))
          ∷ ("msg", text message)
          ∷ ("time", text stamp)
          ∷ []))
        c

  -- `chat`; 58 is the colon.
  unfoldable pub chat : Str → Str → Cli → Cli
  unfolding split_at transmit tell
  chat stamp str c = chat_to stamp (split_at 58 str) c

  abbrev groupchat_to : Str → Option (Str × Str) → Cli → Cli
  unfolding transmit tell
  groupchat_to stamp none c = tell (prints (codes "groupchat command invalid!")) c
  groupchat_to stamp (some (group, message)) c =
      transmit
        (object (
          msgid group_chat_msg
          ∷ ("id", num c.user.id)
          ∷ ("name", text c.user.name)
          ∷ ("groupid", num (atoi group))
          ∷ ("msg", text message)
          ∷ ("time", text stamp)
          ∷ []))
        c

  unfoldable pub groupchat : Str → Str → Cli → Cli
  unfolding split_at transmit tell
  groupchat stamp str c = groupchat_to stamp (split_at 58 str) c

  abbrev creategroup_of : Option (Str × Str) → Cli → Cli
  unfolding transmit tell
  creategroup_of none c = tell (prints (codes "creategroup command invalid!")) c
  creategroup_of (some (name, desc)) c =
      transmit
        (object (
          msgid create_group_msg
          ∷ ("id", num c.user.id)
          ∷ ("groupname", text name)
          ∷ ("groupdesc", text desc)
          ∷ []))
        c

  unfoldable pub creategroup : Str → Cli → Cli
  unfolding split_at transmit tell
  creategroup str c = creategroup_of (split_at 58 str) c

  -- `loginout`, which leaves the menu unless `send` failed.
  unfoldable pub loginout_command : Bool → Cli → Cli
  unfolding transmit
  loginout_command sent_ok c =
      let asked = transmit (object (msgid loginout_msg ∷ ("id", num c.user.id) ∷ [])) c in
      if sent_ok then record asked { running = false; place = choosing } else asked

  unfoldable pub help : Cli → Cli
  unfolding tell
  help = tell help_text

-- The third choice of the first menu.
unfoldable pub choose_quit : Cli → Cli
choose_quit c = record c { place = ended }
