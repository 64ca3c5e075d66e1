-- ===== src/Window/Counts.antt =====
-- What the operations of the window do to its unread counts.
use qt_chat.Base.{ℕ, ◌+◌, Bool, true, false, not, ◌&&◌, List, [], ◌∷◌, ◌≡◌, refl, ap, ◌∙◌, arith}
use qt_chat.Base.Tests.{if◌then◌else◌}
use qt_chat.Base.Int.{ℤ, eq_ℤ, eq_ℤ_iff}
use qt_chat.Base.Lists.{Str, length, length-append}
use qt_chat.Base.Map.{Map, lookup, erase, lookup-insert, lookup-erase, int_eq}
use qt_chat.Client.{QtJson}
use qt_chat.Window.{QtText, ChatMsg, Window}
use qt_chat.Window.Chat.{
  or_zero, add_one, append_to_history, add_message, add_messages, set_status, update_friend_badge,
  update_group_badge, enter_history, rebuild, clear_unread, title_of, switch_to, history_of,
}
use qt_chat.Window.Slots.{
  count_friend, count_group, merge_one, merge_offline, friend_badges, group_badges, all_badges,
  replay, replay_one, document, on_login_success,
}
use qt_chat.Window.Actions.{on_send, send_text, post}
use qt_chat.Window.Pushes.{pick-append}
use qt_chat.Window.Runs.{belongs, pick, entry_of, offline_entries}

-- `m_unreadFriend.value(id, 0)` or `m_unreadGroup.value(id, 0)`
abbrev pub unread : {A : Type 0} → Bool → ℤ → Window A → ℕ
unread g k w = or_zero (lookup k (if g then w.unread_group else w.unread_friend))

-- The chat is the open one.
unfoldable pub is_open : {A : Type 0} → Bool → ℤ → Window A → Bool
is_open g k w = eq_ℤ w.current k && (if g then w.current_group else not w.current_group)

pub add_one-lookup :
    (k id : ℤ) (u : Map ℤ ℕ)
    → or_zero (lookup k (add_one id u))
      ≡ (if eq_ℤ id k then or_zero (lookup k u) + 1 else or_zero (lookup k u))
unfolding add_one
add_one-lookup k id u = rw lookup-insert (ground (arith, eq_ℤ_iff id k))

erase-lookup :
    (k id : ℤ) (u : Map ℤ ℕ)
    → or_zero (lookup k (erase id u)) ≡ (if eq_ℤ id k then 0 else or_zero (lookup k u))
erase-lookup k id u = rw lookup-erase (ground arith)

-- The count of a chat after a click on a chat.
abbrev pub clicked : Bool → Bool → ℤ → ℤ → ℕ → ℕ
clicked g b id k n = if (if g then b else not b) && eq_ℤ id k then 0 else n

module _ {A : Type 0} where
  add_messages-unread :
      (g : Bool) (k : ℤ) (ms : List ChatMsg) (w : Window A)
      → unread g k (add_messages ms w) ≡ unread g k w
  unfolding add_messages
  add_messages-unread g k [] w = refl
  add_messages-unread g k (m ∷ ms) w = add_messages-unread g k ms (add_message m w)

  rebuild-unread :
      (g b : Bool) (k id : ℤ) (w : Window A) → unread g k (rebuild id b w) ≡ unread g k w
  unfolding rebuild
  rebuild-unread g true k id w =
      add_messages-unread g k (history_of true id w) (enter_history true id w)
  rebuild-unread g false k id w =
      add_messages-unread g k (history_of false id w) (enter_history false id w)

  pub switch_to-unread :
      (g b : Bool) (k id : ℤ) (name : Str) (w : Window A)
      → unread g k (switch_to id b name w) ≡ clicked g b id k (unread g k w)
  unfolding switch_to clear_unread update_friend_badge update_group_badge
  switch_to-unread g true k id name w =
      let opened = record w { current = id; current_name = name; current_group = true } in
      rebuild-unread g true k id
        (record (clear_unread id true opened) { title = title_of true name; view = [] })
      ∙ ground (arith, erase-lookup k id w.unread_group)
  switch_to-unread g false k id name w =
      let opened = record w { current = id; current_name = name; current_group = false } in
      rebuild-unread g false k id
        (record (clear_unread id false opened) { title = title_of false name; view = [] })
      ∙ ground (arith, erase-lookup k id w.unread_friend)

module _ (J : QtJson) (T : QtText J.Array) where
  open J use {Json, Array, to_int}

  merge_one-unread :
      (g : Bool) (k : ℤ) (js : Json) (w : Window Array)
      → unread g k (merge_one J T js w) ≡ unread g k w + length (pick g k (entry_of J T js))
  unfolding merge_one entry_of pick belongs count_friend count_group append_to_history
  merge_one-unread g k js w = ground (
    arith,
    add_one-lookup k (to_int js "id") w.unread_friend,
    add_one-lookup k (to_int js "groupid") w.unread_group,
  )

  pub merge_offline-unread :
      (g : Bool) (k : ℤ) (ss : List Str) (w : Window Array)
      → unread g k (merge_offline J T ss w)
        ≡ unread g k w + length (pick g k (offline_entries J T ss))
  unfolding merge_offline offline_entries pick
  merge_offline-unread g k [] w = omega arith
  merge_offline-unread g k (s ∷ ss) w =
      let one = entry_of J T (document J T s) in
      let more = offline_entries J T ss in
      omega (
        arith,
        merge_offline-unread g k ss (merge_one J T (document J T s) w),
        merge_one-unread g k (document J T s) w,
        ap length (pick-append g k one more),
        length-append (pick g k one) (pick g k more),
      )

  friend_badges-unread :
      (g : Bool) (k : ℤ) (u : Map ℤ ℕ) (w : Window Array)
      → unread g k (friend_badges J T u w) ≡ unread g k w
  unfolding friend_badges update_friend_badge
  friend_badges-unread g k [] w = refl
  friend_badges-unread g k (e ∷ es) w = friend_badges-unread g k es (update_friend_badge e.0 w)

  group_badges-unread :
      (g : Bool) (k : ℤ) (u : Map ℤ ℕ) (w : Window Array)
      → unread g k (group_badges J T u w) ≡ unread g k w
  unfolding group_badges update_group_badge
  group_badges-unread g k [] w = refl
  group_badges-unread g k (e ∷ es) w = group_badges-unread g k es (update_group_badge e.0 w)

  pub all_badges-unread :
      (g : Bool) (k : ℤ) (w : Window Array) → unread g k (all_badges J T w) ≡ unread g k w
  unfolding all_badges
  all_badges-unread g k w =
      group_badges-unread g k w.unread_group (friend_badges J T w.unread_friend w)
      ∙ friend_badges-unread g k w.unread_friend w

  replay-unread :
      (g : Bool) (k : ℤ) (ss : List Str) (w : Window Array)
      → unread g k (replay J T ss w) ≡ unread g k w
  unfolding replay replay_one add_message
  replay-unread g k [] w = refl
  replay-unread g k (s ∷ ss) w =
      replay-unread g k ss (replay_one J T (document J T s) w) ∙ ground arith

  pub login-unread :
      (g : Bool) (k : ℤ) (a : Array) (w : Window Array)
      → unread g k (on_login_success J T a w)
        ≡ unread g k w + length (pick g k (offline_entries J T (T.texts a)))
  unfolding on_login_success
  login-unread g k a w =
      let merged = merge_offline J T (T.texts a) (set_status true w) in
      ground (
        arith,
        replay-unread g k (T.texts a) (all_badges J T merged),
        all_badges-unread g k merged,
        merge_offline-unread g k (T.texts a) (set_status true w),
      )

  pub send-unread :
      (g : Bool) (k : ℤ) (now : ℕ) (stamp time : Str) (w : Window Array)
      → unread g k (on_send J T now stamp time w) ≡ unread g k w
  unfolding on_send send_text post append_to_history add_message
  send-unread g k now stamp time w = ground arith
