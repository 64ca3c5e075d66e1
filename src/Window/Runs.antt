-- ===== src/Window/Runs.antt =====
-- The events of the chat window and what they do, one after another; and, beside the code, the
-- log of the messages that they bring.
use qt_chat.Base.{ℕ, Bool, true, false, not, ◌&&◌, List, [], ◌∷◌, ◌++◌, Option}
use qt_chat.Base.Tests.{if◌then◌else◌}
use qt_chat.Base.Int.{ℤ, minus_one, eq_ℤ}
use qt_chat.Base.Lists.{Str, is_empty}
use qt_chat.Server.Replies.{msg_code, one_chat_msg, group_chat_msg}
use qt_chat.Client.{QtJson}
use qt_chat.Window.{QtText, ChatMsg, Item, Window}
use qt_chat.Window.Chat.{set_status}
use qt_chat.Window.Actions.{
  close_window, own_message, on_send, on_add_friend, on_create_group, on_add_group, on_logout,
  on_switch_account, on_edit_name, on_item_clicked, on_root_clicked, toggle_status,
}
use qt_chat.Window.Slots.{
  received, document, chat_of, on_login_success, on_chat_msg, on_group_msg, on_friend_state_changed,
  on_friend_added, on_group_created, on_name_updated, on_name_update_failed,
}

pub data Event (A : Type 0) : Type 0 where
  typed : Str → Event A
  send_clicked : ℕ → Str → Str → Event A
  item_clicked : Item → Event A
  root_clicked : ℕ → Event A
  label_pressed : ℕ → Event A
  add_friend_clicked : ℕ → Option ℤ → Event A
  create_group_clicked : ℕ → Option Str → Option Str → Event A
  add_group_clicked : ℕ → Option ℤ → Event A
  edit_name_clicked : ℕ → Option Str → Event A
  logout_clicked : ℕ → Event A
  switch_clicked : ℕ → Event A
  closed : ℕ → Event A
  link_down : Event A
  logged_in : A → Event A
  chat_msg : ℤ → Str → Str → Str → Event A
  group_msg : ℤ → ℤ → Str → Str → Str → Event A
  friend_state : ℤ → Str → Event A
  friend_new : ℤ → Str → Str → Event A
  group_new : ℤ → Str → Event A
  name_changed : ℤ → Str → Event A
  name_refused : ℕ → Option Str → Event A

-- A message of the log, with the chat that it belongs to.
pub record Arrival : Type 0 where
  pub in_group : Bool
  pub target : ℤ
  pub msg : ChatMsg

unfoldable pub belongs : Bool → ℤ → Arrival → Bool
belongs is_group id e = (if is_group then e.in_group else not e.in_group) && eq_ℤ e.target id

unfoldable pub pick : Bool → ℤ → List Arrival → List ChatMsg
unfolding belongs
pick is_group id [] = []
pick is_group id (e ∷ es) =
    if belongs is_group id e then e.msg ∷ pick is_group id es else pick is_group id es

module _ (J : QtJson) (T : QtText J.Array) where
  open J use {Json, Array, to_int}
  open T use {trimmed, texts}

  unfoldable pub step : Event Array → Window Array → Window Array
  unfolding on_send on_item_clicked on_root_clicked toggle_status on_logout on_switch_account
      close_window set_status on_login_success on_chat_msg on_group_msg on_friend_state_changed
      on_friend_added on_group_created on_name_updated on_edit_name on_name_update_failed
  step (typed s) w = record w { input = s }
  step (send_clicked now stamp time) w = on_send J T now stamp time w
  step (item_clicked i) w = on_item_clicked J T i w
  step (root_clicked n) w = on_root_clicked J T n w
  step (label_pressed now) w = toggle_status J T now w
  step (add_friend_clicked now answer) w = on_add_friend J T now answer w
  step (create_group_clicked now name desc) w = on_create_group J T now name desc w
  step (add_group_clicked now answer) w = on_add_group J T now answer w
  step (edit_name_clicked now answer) w = on_edit_name J T now answer w
  step (logout_clicked now) w = on_logout J T now w
  step (switch_clicked now) w = on_switch_account J T now w
  step (closed now) w = close_window J T now w
  step link_down w = set_status false w
  step (logged_in offline_msgs) w = on_login_success J T offline_msgs w
  step (chat_msg fromid name msg time) w = on_chat_msg J T fromid name msg time w
  step (group_msg groupid fromid name msg time) w = on_group_msg J T groupid fromid name msg time w
  step (friend_state id state) w = on_friend_state_changed J T id state w
  step (friend_new id name state) w = on_friend_added J T id name state w
  step (group_new id name) w = on_group_created J T id name w
  step (name_changed id name) w = on_name_updated J T id name w
  step (name_refused now answer) w = on_name_update_failed J T now answer w

  unfoldable pub run : List (Event Array) → Window Array → Window Array
  unfolding step
  run [] w = w
  run (e ∷ es) w = run es (step e w)

  unfoldable pub entry_of : Json → List Arrival
  unfolding chat_of
  entry_of js =
      if eq_ℤ (to_int js "msgid") (msg_code one_chat_msg)
      then record { in_group = false; target = to_int js "id"; msg = chat_of J T js } ∷ []
      else if eq_ℤ (to_int js "msgid") (msg_code group_chat_msg)
      then record { in_group = true; target = to_int js "groupid"; msg = chat_of J T js } ∷ []
      else []

  unfoldable pub offline_entries : List Str → List Arrival
  unfolding entry_of document
  offline_entries [] = []
  offline_entries (s ∷ ss) = entry_of (document J T s) ++ offline_entries ss

  unfoldable pub sent : Str → Window Array → List Arrival
  unfolding own_message
  sent time w =
      if not (eq_ℤ w.current minus_one) && w.online && not (is_empty (trimmed w.input))
      then record {
        in_group = w.current_group;
        target = w.current;
        msg = own_message J T time (trimmed w.input);
      }
        ∷ []
      else []

  -- The messages that an event brings to the window.
  unfoldable pub entries : Event Array → Window Array → List Arrival
  unfolding sent offline_entries received
  entries (send_clicked now stamp time) w = sent time w
  entries (logged_in offline_msgs) w = offline_entries (texts offline_msgs)
  entries (chat_msg fromid name msg time) w =
      record { in_group = false; target = fromid; msg = received name time msg } ∷ []
  entries (group_msg groupid fromid name msg time) w =
      if eq_ℤ fromid w.my_id
      then []
      else record { in_group = true; target = groupid; msg = received name time msg } ∷ []
  entries _ w = []

  unfoldable pub log : List (Event Array) → Window Array → List Arrival
  unfolding entries step
  log [] w = []
  log (e ∷ es) w = entries e w ++ log es (step e w)
