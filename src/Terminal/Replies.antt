-- ===== src/Terminal/Replies.antt =====
-- The thread of the command line client that reads: `readTaskHandler` and the two responses.
-- `none` stands for an exception that nothing catches, which ends the process; what was printed on
-- the way to it is left out.
use qt_chat.Base.{String, ◌+◌, true, false, List, [], ◌∷◌, ◌++◌, Option, none, some}
use qt_chat.Base.Tests.{if◌then◌else◌}
use qt_chat.Base.Int.{pos, eq_ℤ}
use qt_chat.Base.Lists.{c_str, Str, codes}
use qt_chat.Server.Api.{JsonApi}
use qt_chat.Server.Models.{User, GroupUser, Group}
use qt_chat.Server.Replies.{msg_code, one_chat_msg, group_chat_msg, login_msg_ack, reg_msg_ack}
use qt_chat.Terminal.{JsonLists, Cli, Effect, chat_line, group_line, user_data, prints, ended, tell}

infixl 5 ◌>>=◌
abbrev pub ◌>>=◌ : {A B : Type 0} → Option A → (A → Option B) → Option B
none >>= f = none
some a >>= f = f a

module _ (J : JsonApi) (L : JsonLists J) where
  open J use {Json, contains, get_int, get_text, parse}
  open L use {get_texts, shown}

  -- The password of these users is not set.
  unfoldable pub friend_of : Json → Option User
  friend_of js = do
    id ← get_int js "id"
    name ← get_text js "name"
    state ← get_text js "state"
    some (record { id = id; name = name; password = []; state = state })

  unfoldable pub member_of : Json → Option GroupUser
  unfolding friend_of
  member_of js = do
    user ← friend_of js
    role ← get_text js "role"
    some (record { user = user; role = role })

  -- A loop that parses each text and takes a value out of it.
  unfoldable pub parse_all : {A : Type 0} → (Json → Option A) → List Str → Option (List A)
  parse_all f [] = some []
  parse_all f (s ∷ ss) = do js ← parse s; a ← f js; rest ← parse_all f ss; some (a ∷ rest)

  unfoldable pub group_of : Json → Option Group
  unfolding parse_all member_of
  group_of js = do
    id ← get_int js "id"
    name ← get_text js "groupname"
    desc ← get_text js "groupdesc"
    texts ← get_texts js "users"
    users ← parse_all member_of texts
    some (record { id = id; name = name; desc = desc; users = users })

  -- A list of the reply, which replaces the old one where the reply has it.
  unfoldable pub list_of :
      {A : Type 0} → (Json → Option A) → String → List A → Json → Option (List A)
  unfolding parse_all
  list_of f key old js = if contains js key then (get_texts js key >>= parse_all f) else some old

  unfoldable pub chat_out : Json → Option Effect
  chat_out js = do
    time ← get_text js "time"
    name ← get_text js "name"
    msg ← get_text js "msg"
    some (chat_line time (shown js "id") name msg)

  unfoldable pub group_out : Json → Option Effect
  group_out js = do
    time ← get_text js "time"
    name ← get_text js "name"
    msg ← get_text js "msg"
    some (group_line (shown js "groupid") time (shown js "id") name msg)

  -- An offline message; what is not a chat message is shown as one of a group.
  unfoldable pub offline_out : Json → Option Effect
  unfolding chat_out group_out msg_code
  offline_out js = do
    t ← get_int js "msgid"
    if eq_ℤ t (msg_code one_chat_msg) then chat_out js else group_out js

  unfoldable pub tell_all : List Effect → Cli → Cli
  unfolding tell
  tell_all [] c = c
  tell_all (o ∷ os) c = tell_all os (tell o c)

  -- The part of `doLoginResponse` for a login that went through.
  unfoldable pub take_login : Json → Cli → Option Cli
  unfolding list_of friend_of group_of offline_out tell_all tell
  take_login js c = do
    id ← get_int js "id"
    name ← get_text js "name"
    friends ← list_of friend_of "friends" c.friends js
    groups ← list_of group_of "groups" c.groups js
    outs ← list_of offline_out "offlinemsg" [] js
    let user = record c.user { id = id; name = name }
    let known = record c { user = user; friends = friends; groups = groups }
    some (record (tell_all outs (tell (user_data user friends groups) known)) { logged_in = true })

  -- `doLoginResponse`
  unfoldable pub do_login_response : Json → Cli → Option Cli
  unfolding take_login tell
  do_login_response js c = do
    errno ← get_int js "errno"
    if eq_ℤ errno (pos 0)
        then take_login js c
        else some (record (tell (prints (shown js "errmsg")) c) { logged_in = false })

  -- `doRegResponse`
  unfoldable pub do_reg_response : Json → Cli → Option Cli
  unfolding tell
  do_reg_response js c = do
    errno ← get_int js "errno"
    if eq_ℤ errno (pos 0)
        then some (
            tell
              (prints (
                codes "name register success, userid is "
                ++ shown js "id"
                ++ codes ", do not forget it!"))
              c)
        else some (tell (prints (codes "name is already exist, register error!")) c)

  -- `sem_post`
  unfoldable pub sem_post : Cli → Cli
  sem_post c = record c { posts = c.posts + 1 }

  unfoldable pub on_json : Json → Cli → Option Cli
  unfolding chat_out group_out do_login_response do_reg_response sem_post msg_code tell
  on_json js c = do
    t ← get_int js "msgid"
    if eq_ℤ t (msg_code one_chat_msg)
        then (chat_out js >>= λ o. some (tell o c))
        else if eq_ℤ t (msg_code group_chat_msg)
        then (group_out js >>= λ o. some (tell o c))
        else if eq_ℤ t (msg_code login_msg_ack)
        then (do_login_response js c >>= λ d. some (sem_post d))
        else if eq_ℤ t (msg_code reg_msg_ack)
        then (do_reg_response js c >>= λ d. some (sem_post d))
        else some c

  abbrev pub or_ended : Cli → Option Cli → Cli
  or_ended c none = record c { place = ended }
  or_ended c (some d) = d

  -- One round of `readTaskHandler` on what `recv` gave, at most 1023 bytes of it; nothing means that
  -- the connection is closed.
  unfoldable pub on_recv : Str → Cli → Cli
  unfolding on_json c_str
  on_recv [] c = record c { place = ended }
  on_recv (b ∷ s) c = or_ended c (parse (c_str (b ∷ s)) >>= λ js. on_json js c)
