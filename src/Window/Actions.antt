-- ===== src/Window/Actions.antt =====
-- The slots of `Widget` for what the user does. `now` is `time(NULL)`, `time` and `stamp` are
-- formatted current times, and an answer is what a `QInputDialog` gave, `none` if it was cancelled.
use qt_chat.Base.{ℕ, zero, suc, true, false, not, ◌||◌, List, [], ◌∷◌, Option, none, some}
use qt_chat.Base.Tests.{if◌then◌else◌}
use qt_chat.Base.Int.{ℤ, minus_one, eq_ℤ}
use qt_chat.Base.Lists.{Str, is_empty}
use qt_chat.Client.{QtJson}
use qt_chat.Client.Calls.{
  ask_one_chat, ask_group_chat, ask_add_friend, ask_create_group, ask_add_group, ask_update_name,
  log_out, reset_login_state,
}
use qt_chat.Client.Events.{relogin}
use qt_chat.Window.{QtText, ChatMsg, Item, Root, Window}
use qt_chat.Window.Chat.{append_to_history, add_message, switch_to, set_status}

-- `setExpanded(!isExpanded())` on the n-th root.
unfoldable pub toggle_root : ℕ → List Root → List Root
toggle_root n [] = []
toggle_root zero (r ∷ rs) = record r { expanded = not r.expanded } ∷ rs
toggle_root (suc n) (r ∷ rs) = r ∷ toggle_root n rs

module _ (J : QtJson) (T : QtText J.Array) where
  open J use {Array}
  open T use {trimmed, before_bracket}

  -- `close`, with its `closeEvent`.
  unfoldable pub close_window : ℕ → Window Array → Window Array
  unfolding log_out
  close_window now w = record w { client = log_out J now w.client; visible = false }

  -- The message of `onSendClicked`.
  unfoldable pub own_message : Str → Str → ChatMsg
  own_message time text = record { is_right = true; name = []; time = time; text = text }

  unfoldable pub post : ℕ → Str → Str → Window Array → Window Array
  unfolding ask_one_chat ask_group_chat
  post now stamp text w =
      if not w.current_group
      then record w { client = ask_one_chat J now stamp w.current text w.client }
      else record w { client = ask_group_chat J now stamp w.current text w.client }

  -- The rest of `onSendClicked` for a text.
  unfoldable pub send_text : ℕ → Str → Str → Str → Window Array → Window Array
  unfolding post add_message append_to_history own_message
  send_text now stamp time text w =
      let m = own_message time text in
      let shown = add_message m (post now stamp text w) in
      record (append_to_history w.current w.current_group m shown) { input = [] }

  -- `onSendClicked`
  unfoldable pub on_send : ℕ → Str → Str → Window Array → Window Array
  unfolding send_text
  on_send now stamp time w =
      if eq_ℤ w.current minus_one || not w.online
      then w
      else if is_empty (trimmed w.input)
      then w
      else send_text now stamp time (trimmed w.input) w

  abbrev pub on_add_friend : ℕ → Option ℤ → Window Array → Window Array
  on_add_friend now none w = w
  on_add_friend now (some id) w = record w { client = ask_add_friend J now id w.client }

  -- `onCreateGroupClicked`: the second dialog is not shown after an empty name.
  abbrev pub on_create_group : ℕ → Option Str → Option Str → Window Array → Window Array
  on_create_group now none desc w = w
  on_create_group now (some []) desc w = w
  on_create_group now (some (c ∷ cs)) none w = w
  on_create_group now (some (c ∷ cs)) (some desc) w = record w {
    client = ask_create_group J now (c ∷ cs) desc w.client;
  }

  abbrev pub on_add_group : ℕ → Option ℤ → Window Array → Window Array
  on_add_group now none w = w
  on_add_group now (some id) w = record w { client = ask_add_group J now id w.client }

  -- `onLogoutClicked`
  unfoldable pub on_logout : ℕ → Window Array → Window Array
  unfolding set_status close_window log_out
  on_logout now w =
      let left = set_status false w in
      close_window now (record left { client = log_out J now left.client })

  -- The slot of `main` on `switchAccountRequested`.
  unfoldable pub switch_account_requested : ℕ → Window Array → Window Array
  unfolding close_window
  switch_account_requested now w = close_window now (record w { switch_requested = true })

  -- `onSwitchAccountClicked`
  unfoldable pub on_switch_account : ℕ → Window Array → Window Array
  unfolding switch_account_requested log_out reset_login_state
  on_switch_account now w =
      let left = record w { client = reset_login_state J (log_out J now w.client) } in
      switch_account_requested now (close_window now left)

  -- `onEditNameClicked`
  unfoldable pub rename : ℕ → Str → Window Array → Window Array
  unfolding ask_update_name
  rename now name w =
      if not (is_empty name)
      then record w { pending_name = name; client = ask_update_name J now w.my_id name w.client }
      else record w { pending_name = [] }

  unfoldable pub on_edit_name : ℕ → Option Str → Window Array → Window Array
  unfolding rename
  on_edit_name now none w = record w { pending_name = [] }
  on_edit_name now (some name) w = rename now (trimmed name) w

  -- `onTreeItemClicked` on an item below a root.
  unfoldable pub on_item_clicked : Item → Window Array → Window Array
  unfolding switch_to
  on_item_clicked i =
      switch_to i.id i.is_group (if i.is_group then i.label else before_bracket i.label)

  -- `onTreeItemClicked` on the n-th root.
  unfoldable pub on_root_clicked : ℕ → Window Array → Window Array
  unfolding toggle_root
  on_root_clicked n w = record w { tree = toggle_root n w.tree }

  -- `toggleStatus`, which `eventFilter` calls for a press on the user's name.
  unfoldable pub toggle_status : ℕ → Window Array → Window Array
  unfolding log_out set_status relogin
  toggle_status now w =
      if w.online
      then set_status false (record w { client = log_out J now w.client })
      else record w { client = relogin J w.client }
