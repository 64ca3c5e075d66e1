-- ===== src/Window/Chat.antt =====
-- The histories and the bubbles: `appendToHistory`, `rebuildChatFromHistory`, `addMessage`,
-- `switchToTarget` and `setStatus`.
use qt_chat.Base.{ℕ, ◌+◌, Bool, true, false, not, ◌&&◌, List, [], ◌∷◌, ◌++◌, Option, none, some}
use qt_chat.Base.Tests.{if◌then◌else◌, ltb}
use qt_chat.Base.Int.{ℤ, minus_one, eq_ℤ}
use qt_chat.Base.Lists.{Str, codes, length, is_empty}
use qt_chat.Base.Map.{Map, lookup, insert, erase, int_eq}
use qt_chat.Window.{ChatMsg, Bubble, Title, offline, with_group, with_friend, Window}
use qt_chat.Window.Tree.{update_badge}

-- `m_friendMsgHistory[targetId]`, with the empty history for a new id.
abbrev pub or_empty {ℓ} : {A : Type ℓ} → Option (List A) → List A
or_empty none = []
or_empty (some xs) = xs

-- `m_unreadFriend.value(id, 0)`
abbrev pub or_zero : Option ℕ → ℕ
or_zero none = 0
or_zero (some n) = n

abbrev pub tail {ℓ} : {A : Type ℓ} → List A → List A
tail [] = []
tail (x ∷ xs) = xs

-- `append`, and `removeFirst` over 500.
unfoldable pub push_bounded : ChatMsg → List ChatMsg → List ChatMsg
push_bounded m hist =
    let longer = hist ++ m ∷ [] in if ltb 500 (length longer) then tail longer else longer

unfoldable pub append_to : ℤ → ChatMsg → Map ℤ (List ChatMsg) → Map ℤ (List ChatMsg)
unfolding push_bounded
append_to id m h = insert id (push_bounded m (or_empty (lookup id h))) h

unfoldable pub add_one : ℤ → Map ℤ ℕ → Map ℤ ℕ
add_one id u = insert id (or_zero (lookup id u) + 1) u

-- The header of `addMessage`.
unfoldable pub header_of : ChatMsg → Option Str
header_of m =
    if not m.is_right && not (is_empty m.name)
    then some (m.name ++ codes "  " ++ m.time)
    else if m.is_right
    then some m.time
    else none

unfoldable pub bubble : ChatMsg → Bubble
unfolding header_of
bubble m = record { right = m.is_right; header = header_of m; body = m.text }

unfoldable pub title_of : Bool → Str → Title
title_of is_group name = if is_group then with_group name else with_friend name

module _ {A : Type 0} where
  -- `appendToHistory`
  unfoldable pub append_to_history : ℤ → Bool → ChatMsg → Window A → Window A
  unfolding append_to
  append_to_history id is_group m w =
      if is_group
      then record w { group_history = append_to id m w.group_history }
      else record w { friend_history = append_to id m w.friend_history }

  -- `addMessage`: the bubble goes below the others.
  unfoldable pub add_message : ChatMsg → Window A → Window A
  unfolding bubble
  add_message m w = record w { view = w.view ++ bubble m ∷ [] }

  unfoldable pub add_messages : List ChatMsg → Window A → Window A
  unfolding add_message
  add_messages [] w = w
  add_messages (m ∷ ms) w = add_messages ms (add_message m w)

  abbrev pub history_of : Bool → ℤ → Window A → List ChatMsg
  history_of is_group id w =
      or_empty (lookup id (if is_group then w.group_history else w.friend_history))

  -- `operator[]` of `QMap` enters an empty history where there is none.
  abbrev pub enter_history : Bool → ℤ → Window A → Window A
  enter_history true id w = record w {
    group_history = insert id (or_empty (lookup id w.group_history)) w.group_history;
  }
  enter_history false id w = record w {
    friend_history = insert id (or_empty (lookup id w.friend_history)) w.friend_history;
  }

  -- `rebuildChatFromHistory`
  unfoldable pub rebuild : ℤ → Bool → Window A → Window A
  unfolding add_messages
  rebuild id is_group w = add_messages (history_of is_group id w) (enter_history is_group id w)

  unfoldable pub update_friend_badge : ℤ → Window A → Window A
  unfolding update_badge
  update_friend_badge id w = record w {
    tree = update_badge (codes "Friends") id (or_zero (lookup id w.unread_friend)) w.tree;
  }

  unfoldable pub update_group_badge : ℤ → Window A → Window A
  unfolding update_badge
  update_group_badge id w = record w {
    tree = update_badge (codes "Groups") id (or_zero (lookup id w.unread_group)) w.tree;
  }

  -- The unread part of `switchToTarget`.
  unfoldable pub clear_unread : ℤ → Bool → Window A → Window A
  unfolding update_friend_badge update_group_badge
  clear_unread id is_group w =
      if is_group
      then update_group_badge id (record w { unread_group = erase id w.unread_group })
      else update_friend_badge id (record w { unread_friend = erase id w.unread_friend })

  -- `switchToTarget`
  unfoldable pub switch_to : ℤ → Bool → Str → Window A → Window A
  unfolding clear_unread title_of rebuild
  switch_to id is_group name w =
      let opened = record w { current = id; current_name = name; current_group = is_group } in
      let cleared = clear_unread id is_group opened in
      rebuild id is_group (record cleared { title = title_of is_group name; view = [] })

  -- `setStatus`
  unfoldable pub set_status : Bool → Window A → Window A
  unfolding title_of
  set_status on w = record w {
    online = on;
    user_label = record { green = on; shown_name = w.user_name; shown_id = w.my_id };
    input_enabled = on;
    title =
        if not on
        then offline
        else if not (eq_ℤ w.current minus_one)
        then title_of w.current_group w.current_name
        else w.title;
  }
