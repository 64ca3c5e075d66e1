-- ===== src/Window/Slots.antt =====
-- The slots of `Widget` for the signals of `ChatClient`, and the constructor.
use qt_chat.Base.{ℕ, true, false, not, ◌&&◌, List, [], ◌∷◌, ◌++◌, Option, none, some}
use qt_chat.Base.Tests.{if◌then◌else◌}
use qt_chat.Base.Int.{ℤ, minus_one, eq_ℤ}
use qt_chat.Base.Lists.{Str, codes}
use qt_chat.Base.Map.{Map}
use qt_chat.Server.Replies.{msg_code, one_chat_msg, group_chat_msg}
use qt_chat.Client.{QtJson, Client}
use qt_chat.Window.{QtText, ChatMsg, Item, Root, select_one, Window}
use qt_chat.Window.Tree.{friend_item, group_item, add_child, change_state}
use qt_chat.Window.Chat.{
  add_one, append_to_history, add_message, update_friend_badge, update_group_badge, set_status,
}
use qt_chat.Window.Actions.{on_edit_name}

-- A message that came in.
unfoldable pub received : Str → Str → Str → ChatMsg
received name time text = record { is_right = false; name = name; time = time; text = text }

module _ (J : QtJson) (T : QtText J.Array) where
  open J use {Json, Array, to_int, to_text, object, parse}
  open T use {texts}

  abbrev or_object : Option Json → Json
  or_object none = object []
  or_object (some js) = js

  -- `QJsonDocument::fromJson(…).object()`
  unfoldable pub document : Str → Json
  document s = or_object (parse s)

  unfoldable pub chat_of : Json → ChatMsg
  unfolding received
  chat_of js = received (to_text js "name") (to_text js "time") (to_text js "msg")

  unfoldable pub count_friend : ℤ → Window Array → Window Array
  unfolding add_one
  count_friend id w = record w { unread_friend = add_one id w.unread_friend }

  unfoldable pub count_group : ℤ → Window Array → Window Array
  unfolding add_one
  count_group id w = record w { unread_group = add_one id w.unread_group }

  -- The body of the loop over the offline messages, in the constructor and in the slot on
  -- `loginSuccess`.
  unfoldable pub merge_one : Json → Window Array → Window Array
  unfolding count_friend count_group append_to_history chat_of
  merge_one js w =
      if eq_ℤ (to_int js "msgid") (msg_code one_chat_msg)
      then count_friend (to_int js "id") (append_to_history (to_int js "id") false (chat_of js) w)
      else if eq_ℤ (to_int js "msgid") (msg_code group_chat_msg)
      then count_group (to_int js "groupid")
          (append_to_history (to_int js "groupid") true (chat_of js) w)
      else w

  unfoldable pub merge_offline : List Str → Window Array → Window Array
  unfolding merge_one document
  merge_offline [] w = w
  merge_offline (s ∷ ss) w = merge_offline ss (merge_one (document s) w)

  -- `updateFriendBadge` for each key of `m_unreadFriend`, and the same for groups.
  unfoldable pub friend_badges : Map ℤ ℕ → Window Array → Window Array
  unfolding update_friend_badge
  friend_badges [] w = w
  friend_badges (e ∷ es) w = friend_badges es (update_friend_badge e.0 w)

  unfoldable pub group_badges : Map ℤ ℕ → Window Array → Window Array
  unfolding update_group_badge
  group_badges [] w = w
  group_badges (e ∷ es) w = group_badges es (update_group_badge e.0 w)

  unfoldable pub all_badges : Window Array → Window Array
  unfolding friend_badges group_badges
  all_badges w = group_badges w.unread_group (friend_badges w.unread_friend w)

  -- One round of the replay of the slot on `loginSuccess`.
  unfoldable pub replay_one : Json → Window Array → Window Array
  unfolding add_message chat_of
  replay_one js w =
      let is_group = eq_ℤ (to_int js "msgid") (msg_code group_chat_msg) in
      let match_id = if is_group then to_int js "groupid" else to_int js "id" in
      if (if is_group then w.current_group else not w.current_group) && eq_ℤ match_id w.current
      then add_message (chat_of js) w
      else w

  unfoldable pub replay : List Str → Window Array → Window Array
  unfolding replay_one document
  replay [] w = w
  replay (s ∷ ss) w = replay ss (replay_one (document s) w)

  -- The slot on `loginSuccess`.
  unfoldable pub on_login_success : Array → Window Array → Window Array
  unfolding set_status merge_offline all_badges replay
  on_login_success offline_msgs w =
      let merged = all_badges (merge_offline (texts offline_msgs) (set_status true w)) in
      if not (eq_ℤ merged.current minus_one) then replay (texts offline_msgs) merged else merged

  -- `onChatMsg`
  unfoldable pub on_chat_msg : ℤ → Str → Str → Str → Window Array → Window Array
  unfolding received append_to_history add_message count_friend update_friend_badge
  on_chat_msg fromid name msg time w =
      let m = received name time msg in
      let kept = append_to_history fromid false m w in
      if eq_ℤ fromid w.current && not w.current_group
      then add_message m kept
      else update_friend_badge fromid (count_friend fromid kept)

  -- The rest of `onGroupMsg` for a message of another member.
  unfoldable pub keep_group_msg : ℤ → ChatMsg → Window Array → Window Array
  unfolding append_to_history add_message count_group update_group_badge
  keep_group_msg groupid m w =
      let kept = append_to_history groupid true m w in
      if eq_ℤ groupid w.current && w.current_group
      then add_message m kept
      else update_group_badge groupid (count_group groupid kept)

  -- `onGroupMsg`
  unfoldable pub on_group_msg : ℤ → ℤ → Str → Str → Str → Window Array → Window Array
  unfolding keep_group_msg received
  on_group_msg groupid fromid name msg time w =
      if eq_ℤ fromid w.my_id then w else keep_group_msg groupid (received name time msg) w

  unfoldable pub on_friend_state_changed : ℤ → Str → Window Array → Window Array
  unfolding change_state
  on_friend_state_changed id state w = record w { tree = change_state T id state w.tree }

  unfoldable pub on_friend_added : ℤ → Str → Str → Window Array → Window Array
  unfolding add_child friend_item
  on_friend_added id name state w = record w {
    tree = add_child (codes "Friends") (friend_item id name state) w.tree;
  }

  -- `onGroupCreated`, which `onGroupJoined` calls.
  unfoldable pub on_group_created : ℤ → Str → Window Array → Window Array
  unfolding add_child group_item
  on_group_created id name w = record w {
    tree = add_child (codes "Groups") (group_item id name) w.tree;
  }

  -- `onNameUpdated`
  unfoldable pub on_name_updated : ℤ → Str → Window Array → Window Array
  unfolding set_status
  on_name_updated id name w =
      if eq_ℤ id w.my_id
      then set_status w.online (record w { pending_name = []; user_name = name })
      else w

  -- `onNameUpdateFailed`: after the warning the dialog for the name is shown again.
  unfoldable pub on_name_update_failed : ℕ → Option Str → Window Array → Window Array
  unfolding on_edit_name
  on_name_update_failed now answer = on_edit_name J T now answer

  unfoldable pub friend_items : List Str → List Item
  unfolding document friend_item
  friend_items [] = []
  friend_items (s ∷ ss) =
      let js = document s in
      friend_item (to_int js "id") (to_text js "name") (to_text js "state") ∷ friend_items ss

  -- `loadFriends`
  unfoldable pub load_friends : Array → Window Array → Window Array
  unfolding friend_items
  load_friends friends w =
      let root : Root = record {
        name = codes "Friends";
        expanded = true;
        children = friend_items (texts friends);
      } in
      record w { tree = w.tree ++ root ∷ [] }

  unfoldable pub group_items : List Str → List Item
  unfolding document group_item
  group_items [] = []
  group_items (s ∷ ss) =
      let js = document s in group_item (to_int js "id") (to_text js "groupname") ∷ group_items ss

  -- `loadGroups`
  unfoldable pub load_groups : Array → Window Array → Window Array
  unfolding group_items
  load_groups groups w =
      let root : Root = record {
        name = codes "Groups";
        expanded = true;
        children = group_items (texts groups);
      } in
      record w { tree = w.tree ++ root ∷ [] }

  -- The members before the body of the constructor runs.
  unfoldable pub fresh : Client Array → ℤ → Str → Window Array
  fresh client id name = record {
    client = client;
    my_id = id;
    user_name = name;
    pending_name = [];
    current = minus_one;
    current_name = [];
    current_group = false;
    online = true;
    unread_friend = [];
    unread_group = [];
    friend_history = [];
    group_history = [];
    tree = [];
    view = [];
    input = [];
    input_enabled = true;
    title = select_one;
    user_label = record { green = true; shown_name = name; shown_id = id };
    visible = false;
    switch_requested = false;
  }

  -- The constructor, and the `show` of `main`.
  unfoldable pub open_window : Client Array → ℤ → Str → Array → Array → Array → Window Array
  unfolding fresh merge_offline set_status load_friends load_groups all_badges
  open_window client id name friends groups offline_msgs =
      let merged = merge_offline (texts offline_msgs) (fresh client id name) in
      let loaded = load_groups groups (load_friends friends (set_status true merged)) in
      record (all_badges loaded) { visible = true }
