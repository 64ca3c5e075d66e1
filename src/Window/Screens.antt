-- ===== src/Window/Screens.antt =====
-- What each event does to the bubbles and to the choice of the open chat.
use qt_chat.Base.{
  ℕ, Bool, true, ◌&&◌, ◌||◌, List, [], ◌∷◌, ◌++◌, append_assoc, append-nil, map, ◌≡◌, ◌≢◌, refl,
  sym, ap, ◌∙◌, arith,
}
use qt_chat.Base.Tests.{if-true, if-false}
use qt_chat.Base.Int.{ℤ, minus_one, eq_ℤ, eq_ℤ_iff, eq_ℤ_refl}
use qt_chat.Base.Lists.{Str}
use qt_chat.Base.Map.{Map}
use qt_chat.Server.Replies.{msg_code, one_chat_msg, group_chat_msg}
use qt_chat.Client.{QtJson}
use qt_chat.Window.{QtText, ChatMsg, Bubble, Window}
use qt_chat.Window.Chat.{
  bubble, append_to_history, add_message, add_messages, update_friend_badge, update_group_badge,
  set_status,
}
use qt_chat.Window.Slots.{
  document, chat_of, merge_one, merge_offline, friend_badges, group_badges, all_badges, replay_one,
  replay, on_login_success, on_chat_msg, on_group_msg, received,
}
use qt_chat.Window.Actions.{on_send, send_text, post, own_message}
use qt_chat.Window.Ends.{map-bubble-append}
use qt_chat.Window.Runs.{
  chat_msg, group_msg, Arrival, belongs, pick, entry_of, offline_entries, sent, entries,
}
use qt_chat.Window.Pushes.{pick-append}

-- The bubbles, and which chat is open.
abbrev pub Screen : Type 0
Screen = List Bubble × ℤ × Bool

-- The screen with the bubbles of those messages below that belong to its chat.
abbrev pub under : List Arrival → Screen → Screen
under es s = (s.0 ++ map bubble (pick s.2 s.1 es), s.1, s.2)

pub under-append : (es fs : List Arrival) (s : Screen) → under fs (under es s) ≡ under (es ++ fs) s
under-append es fs s =
    ap (λ v. (v, s.1, s.2))
      (append_assoc s.0 (map bubble (pick s.2 s.1 es)) (map bubble (pick s.2 s.1 fs))
        ∙ ap (λ v. s.0 ++ v)
            (sym (map-bubble-append (pick s.2 s.1 es) (pick s.2 s.1 fs))
              ∙ ap (map bubble) (sym (pick-append s.2 s.1 es fs))))

pub under-nil : (s : Screen) → under [] s ≡ s
unfolding pick
under-nil s = ap (λ v. (v, s.1, s.2)) (append-nil s.0)

pub pick_self :
    (g : Bool) (k : ℤ) (m : ChatMsg)
    → pick g k (record { in_group = g; target = k; msg = m } ∷ []) ≡ m ∷ []
unfolding pick
pick_self g k m = ground (arith, eq_ℤ_refl k)

module _ {A : Type 0} where
  abbrev pub screen : Window A → Screen
  screen w = (w.view, w.current, w.current_group)

  -- The screen with the bubbles of the messages below.
  abbrev pub below : List ChatMsg → Window A → Screen
  below ms w = (w.view ++ map bubble ms, w.current, w.current_group)

  pub append-screen :
      (b : Bool) (k : ℤ) (m : ChatMsg) (w : Window A)
      → screen (append_to_history k b m w) ≡ screen w
  unfolding append_to_history
  append-screen b k m w = ground arith

  pub add_messages-screen :
      (ms : List ChatMsg) (w : Window A) → screen (add_messages ms w) ≡ below ms w
  unfolding add_messages add_message
  add_messages-screen [] w = ap (λ v. (v, w.current, w.current_group)) (sym (append-nil w.view))
  add_messages-screen (m ∷ ms) w =
      add_messages-screen ms (add_message m w)
      ∙ ap (λ v. (v, w.current, w.current_group))
          (append_assoc w.view (bubble m ∷ []) (map bubble ms))

module _ (J : QtJson) (T : QtText J.Array) where
  open J use {Json, Array, to_int}

  unfoldable pub is_chat : Json → Bool
  is_chat js =
      eq_ℤ (to_int js "msgid") (msg_code one_chat_msg)
      || eq_ℤ (to_int js "msgid") (msg_code group_chat_msg)

  unfoldable pub all_chats : List Str → Bool
  unfolding is_chat document
  all_chats [] = true
  all_chats (s ∷ ss) = is_chat (document J T s) && all_chats ss

  pub merge_offline-screen :
      (ss : List Str) (w : Window Array) → screen (merge_offline J T ss w) ≡ screen w
  unfolding merge_offline merge_one append_to_history
  merge_offline-screen [] w = refl
  merge_offline-screen (s ∷ ss) w =
      merge_offline-screen ss (merge_one J T (document J T s) w) ∙ ground arith

  pub friend_badges-screen :
      (u : Map ℤ ℕ) (w : Window Array) → screen (friend_badges J T u w) ≡ screen w
  unfolding friend_badges
  friend_badges-screen [] w = refl
  friend_badges-screen (e ∷ es) w = friend_badges-screen es (update_friend_badge e.0 w)

  pub group_badges-screen :
      (u : Map ℤ ℕ) (w : Window Array) → screen (group_badges J T u w) ≡ screen w
  unfolding group_badges
  group_badges-screen [] w = refl
  group_badges-screen (e ∷ es) w = group_badges-screen es (update_group_badge e.0 w)

  pub replay_one-screen :
      (js : Json) (w : Window Array)
      → is_chat js ≡ true
      → screen (replay_one J T js w) ≡ under (entry_of J T js) (screen w)
  unfolding replay_one is_chat entry_of pick belongs msg_code add_message chat_of received
  replay_one-screen js w h = ground (
    arith,
    eq_ℤ_iff (to_int js "msgid") (msg_code one_chat_msg),
    eq_ℤ_iff (to_int js "msgid") (msg_code group_chat_msg),
    append-nil w.view,
  )

  pub replay-screen :
      (ss : List Str) (w : Window Array)
      → all_chats ss ≡ true
      → screen (replay J T ss w) ≡ under (offline_entries J T ss) (screen w)
  unfolding replay all_chats offline_entries pick
  replay-screen [] w h = sym (under-nil (screen w))
  replay-screen (s ∷ ss) w h =
      replay-screen ss (replay_one J T (document J T s) w) (ground (arith, h))
      ∙ ap (under (offline_entries J T ss))
          (replay_one-screen (document J T s) w (ground (arith, h)))
      ∙ under-append (entry_of J T (document J T s)) (offline_entries J T ss) (screen w)

  pub all_badges-screen : (w : Window Array) → screen (all_badges J T w) ≡ screen w
  unfolding all_badges
  all_badges-screen w =
      group_badges-screen w.unread_group (friend_badges J T w.unread_friend w)
      ∙ friend_badges-screen w.unread_friend w

  pub login-screen :
      (a : Array) (w : Window Array)
      → w.current ≢ minus_one
      → all_chats (T.texts a) ≡ true
      → screen (on_login_success J T a w) ≡ under (offline_entries J T (T.texts a)) (screen w)
  unfolding on_login_success
  login-screen a w n h =
      let merged = all_badges J T (merge_offline J T (T.texts a) (set_status true w)) in
      let e : screen merged ≡ screen w =
        all_badges-screen (merge_offline J T (T.texts a) (set_status true w))
        ∙ merge_offline-screen (T.texts a) (set_status true w) in
      let opened : merged.current ≢ minus_one = λ c. n (sym (ap (λ s. s.1) e) ∙ c) in
      sym (
        ap screen (
          if-true (replay J T (T.texts a) merged) merged
            (ground (arith, opened, eq_ℤ_iff merged.current minus_one))))
      ∙ replay-screen (T.texts a) merged h
      ∙ ap (under (offline_entries J T (T.texts a))) e

  pub login_closed-screen :
      (a : Array) (w : Window Array)
      → w.current ≡ minus_one
      → screen (on_login_success J T a w) ≡ screen w
  unfolding on_login_success
  login_closed-screen a w c =
      let merged = all_badges J T (merge_offline J T (T.texts a) (set_status true w)) in
      let e : screen merged ≡ screen w =
        all_badges-screen (merge_offline J T (T.texts a) (set_status true w))
        ∙ merge_offline-screen (T.texts a) (set_status true w) in
      let closed : merged.current ≡ minus_one = ap (λ s. s.1) e ∙ c in
      sym (
        ap screen (
          if-false (replay J T (T.texts a) merged) merged
            (ground (arith, closed, eq_ℤ_iff merged.current minus_one))))
      ∙ e

  pub post-screen :
      (now : ℕ) (stamp text : Str) (w : Window Array)
      → screen (post J T now stamp text w) ≡ screen w
  unfolding post
  post-screen now stamp text w = ground arith

  pub send_text-screen :
      (now : ℕ) (stamp time text : Str) (w : Window Array)
      → screen (send_text J T now stamp time text w)
        ≡ under
            (record {
              in_group = w.current_group;
              target = w.current;
              msg = own_message J T time text;
            }
              ∷ [])
            (screen w)
  unfolding send_text
  send_text-screen now stamp time text w =
      let m = own_message J T time text in
      append-screen w.current_group w.current m (add_message m (post J T now stamp text w))
      ∙ ap (λ s. (s.0 ++ bubble m ∷ [], s.1, s.2)) (post-screen now stamp text w)
      ∙ ap (λ ms. (w.view ++ map bubble ms, w.current, w.current_group))
          (sym (pick_self w.current_group w.current m))

  pub send-screen :
      (now : ℕ) (stamp time : Str) (w : Window Array)
      → screen (on_send J T now stamp time w) ≡ under (sent J T time w) (screen w)
  unfolding on_send sent
  send-screen now stamp time w =
      ground (arith, under-nil (screen w), send_text-screen now stamp time (T.trimmed w.input) w)

  pub chat_msg-screen :
      (from : ℤ) (name msg time : Str) (w : Window Array)
      → screen (on_chat_msg J T from name msg time w)
        ≡ under (entries J T (chat_msg from name msg time) w) (screen w)
  unfolding on_chat_msg entries pick
  chat_msg-screen from name msg time w = ground (arith, under-nil (screen w), append-nil w.view)

  pub group_msg-screen :
      (group from : ℤ) (name msg time : Str) (w : Window Array)
      → screen (on_group_msg J T group from name msg time w)
        ≡ under (entries J T (group_msg group from name msg time) w) (screen w)
  unfolding on_group_msg entries pick
  group_msg-screen group from name msg time w =
      ground (arith, under-nil (screen w), append-nil w.view)
