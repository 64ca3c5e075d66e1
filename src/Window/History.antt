-- ===== src/Window/History.antt =====
-- The histories of the window against the log of the messages.
use qt_chat.Base.{ℕ, Bool, true, false, List, [], ◌∷◌, ◌≡◌, refl, sym, ap, ◌∙◌, none, some, arith}
use qt_chat.Base.Tests.{if◌then◌else◌}
use qt_chat.Base.Int.{ℤ, eq_ℤ_iff}
use qt_chat.Base.Lists.{Str}
use qt_chat.Base.Map.{Map, lookup, insert, lookup-insert, int_eq}
use qt_chat.Client.{QtJson}
use qt_chat.Window.{QtText, ChatMsg, Window}
use qt_chat.Window.Chat.{
  enter_history, rebuild, clear_unread, title_of, switch_to, add_message, set_status,
  update_friend_badge, update_group_badge, add_messages, history_of, or_empty,
}
use qt_chat.Window.Slots.{
  merge_one, merge_offline, friend_badges, group_badges, replay, replay_one, on_login_success,
  document, chat_of, all_badges, received, on_chat_msg, on_group_msg,
}
use qt_chat.Window.Actions.{on_send, send_text, own_message, post}
use qt_chat.Window.Pushes.{pushes, pushes-append, pick-append, history-append_to_history}
use qt_chat.Window.Runs.{
  Event, send_clicked, item_clicked, label_pressed, add_friend_clicked, create_group_clicked,
  add_group_clicked, edit_name_clicked, name_refused, name_changed, logged_in, chat_msg, group_msg,
  typed, root_clicked, logout_clicked, switch_clicked, closed, link_down, friend_state, friend_new,
  group_new, sent, pick, step, entry_of, offline_entries, entries,
}

enter-same :
    (id k : ℤ) (h : Map ℤ (List ChatMsg))
    → or_empty (lookup id (insert k (or_empty (lookup k h)) h)) ≡ or_empty (lookup id h)
enter-same id k h = rw lookup-insert (ground (arith, eq_ℤ_iff k id))

module _ {A : Type 0} where
  add_messages-history :
      (g : Bool) (id : ℤ) (ms : List ChatMsg) (w : Window A)
      → history_of g id (add_messages ms w) ≡ history_of g id w
  unfolding add_messages
  add_messages-history g id [] w = refl
  add_messages-history g id (m ∷ ms) w = add_messages-history g id ms (add_message m w)

  rebuild-history :
      (g b : Bool) (id k : ℤ) (w : Window A) → history_of g id (rebuild k b w) ≡ history_of g id w
  unfolding rebuild
  rebuild-history true true id k w =
      add_messages-history true id (history_of true k w) (enter_history true k w)
      ∙ enter-same id k w.group_history
  rebuild-history true false id k w =
      add_messages-history true id (history_of false k w) (enter_history false k w)
  rebuild-history false true id k w =
      add_messages-history false id (history_of true k w) (enter_history true k w)
  rebuild-history false false id k w =
      add_messages-history false id (history_of false k w) (enter_history false k w)
      ∙ enter-same id k w.friend_history

  switch_to-history :
      (g b : Bool) (id k : ℤ) (name : Str) (w : Window A)
      → history_of g id (switch_to k b name w) ≡ history_of g id w
  unfolding switch_to
  switch_to-history g true id k name w =
      let cleared =
        clear_unread k true (record w { current = k; current_name = name; current_group = true }) in
      rebuild-history g true id k (record cleared { title = title_of true name; view = [] })
  switch_to-history g false id k name w =
      let cleared =
        clear_unread k false
          (record w { current = k; current_name = name; current_group = false }) in
      rebuild-history g false id k (record cleared { title = title_of false name; view = [] })

module _ (J : QtJson) (T : QtText J.Array) where
  open J use {Json, Array, to_int}

  merge_one-history :
      (g : Bool) (id : ℤ) (js : Json) (w : Window Array)
      → history_of g id (merge_one J T js w)
        ≡ pushes (pick g id (entry_of J T js)) (history_of g id w)
  unfolding merge_one entry_of pick pushes
  merge_one-history g id js w = ground (
    arith,
    history-append_to_history g false id (to_int js "id") (chat_of J T js) w,
    history-append_to_history g true id (to_int js "groupid") (chat_of J T js) w,
  )

  pub merge_offline-history :
      (g : Bool) (id : ℤ) (ss : List Str) (w : Window Array)
      → history_of g id (merge_offline J T ss w)
        ≡ pushes (pick g id (offline_entries J T ss)) (history_of g id w)
  unfolding merge_offline offline_entries pick pushes
  merge_offline-history g id [] w = refl
  merge_offline-history g id (s ∷ ss) w =
      merge_offline-history g id ss (merge_one J T (document J T s) w)
      ∙ ap (pushes (pick g id (offline_entries J T ss))) (merge_one-history g id (document J T s) w)
      ∙ sym (
          pushes-append (pick g id (entry_of J T (document J T s)))
            (pick g id (offline_entries J T ss)) (history_of g id w))
      ∙ ap (λ ms. pushes ms (history_of g id w))
          (sym (pick-append g id (entry_of J T (document J T s)) (offline_entries J T ss)))

  friend_badges-history :
      (g : Bool) (id : ℤ) (u : Map ℤ ℕ) (w : Window Array)
      → history_of g id (friend_badges J T u w) ≡ history_of g id w
  unfolding friend_badges
  friend_badges-history g id [] w = refl
  friend_badges-history g id (e ∷ es) w = friend_badges-history g id es (update_friend_badge e.0 w)

  group_badges-history :
      (g : Bool) (id : ℤ) (u : Map ℤ ℕ) (w : Window Array)
      → history_of g id (group_badges J T u w) ≡ history_of g id w
  unfolding group_badges
  group_badges-history g id [] w = refl
  group_badges-history g id (e ∷ es) w = group_badges-history g id es (update_group_badge e.0 w)

  pub all_badges-history :
      (g : Bool) (id : ℤ) (w : Window Array)
      → history_of g id (all_badges J T w) ≡ history_of g id w
  unfolding all_badges
  all_badges-history g id w =
      group_badges-history g id w.unread_group (friend_badges J T w.unread_friend w)
      ∙ friend_badges-history g id w.unread_friend w

  replay-history :
      (g : Bool) (id : ℤ) (ss : List Str) (w : Window Array)
      → history_of g id (replay J T ss w) ≡ history_of g id w
  unfolding replay replay_one
  replay-history g id [] w = refl
  replay-history g id (s ∷ ss) w =
      replay-history g id ss (replay_one J T (document J T s) w) ∙ ground arith

  login-history :
      (g : Bool) (id : ℤ) (a : Array) (w : Window Array)
      → history_of g id (on_login_success J T a w)
        ≡ pushes (pick g id (offline_entries J T (T.texts a))) (history_of g id w)
  unfolding on_login_success
  login-history g id a w =
      let merged = merge_offline J T (T.texts a) (set_status true w) in
      ground (
        arith,
        replay-history g id (T.texts a) (all_badges J T merged),
        all_badges-history g id merged,
        merge_offline-history g id (T.texts a) (set_status true w),
      )

  post-history :
      (g : Bool) (id : ℤ) (now : ℕ) (stamp text : Str) (w : Window Array)
      → history_of g id (post J T now stamp text w) ≡ history_of g id w
  unfolding post
  post-history g id now stamp text w = ground arith

  send_text-history :
      (g : Bool) (id : ℤ) (now : ℕ) (stamp time text : Str) (w : Window Array)
      → history_of g id (send_text J T now stamp time text w)
        ≡ pushes
            (pick g id (
              record {
                in_group = w.current_group;
                target = w.current;
                msg = own_message J T time text;
              }
              ∷ []))
            (history_of g id w)
  unfolding send_text
  send_text-history g id now stamp time text w =
      history-append_to_history g w.current_group id w.current (own_message J T time text)
        (add_message (own_message J T time text) (post J T now stamp text w))
      ∙ ap
          (pushes (
            pick g id (
              record {
                in_group = w.current_group;
                target = w.current;
                msg = own_message J T time text;
              }
              ∷ [])))
          (post-history g id now stamp text w)

  send-history :
      (g : Bool) (id : ℤ) (now : ℕ) (stamp time : Str) (w : Window Array)
      → history_of g id (on_send J T now stamp time w)
        ≡ pushes (pick g id (sent J T time w)) (history_of g id w)
  unfolding on_send sent pick pushes
  send-history g id now stamp time w =
      ground (arith, send_text-history g id now stamp time (T.trimmed w.input) w)

  chat_msg-history :
      (g : Bool) (id from : ℤ) (name msg time : Str) (w : Window Array)
      → history_of g id (on_chat_msg J T from name msg time w)
        ≡ pushes (pick g id (entries J T (chat_msg from name msg time) w)) (history_of g id w)
  unfolding on_chat_msg entries
  chat_msg-history g id from name msg time w =
      ground (arith, history-append_to_history g false id from (received name time msg) w)

  group_msg-history :
      (g : Bool) (id group from : ℤ) (name msg time : Str) (w : Window Array)
      → history_of g id (on_group_msg J T group from name msg time w)
        ≡ pushes
            (pick g id (entries J T (group_msg group from name msg time) w))
            (history_of g id w)
  unfolding on_group_msg entries pick pushes
  group_msg-history g id group from name msg time w =
      ground (arith, history-append_to_history g true id group (received name time msg) w)

  -- What a step does to any history: the messages of its entries for that chat are appended.
  pub step-history :
      (g : Bool) (id : ℤ) (e : Event Array) (w : Window Array)
      → history_of g id (step J T e w) ≡ pushes (pick g id (entries J T e w)) (history_of g id w)
  unfolding step entries pick pushes
  step-history g id (send_clicked now stamp time) w = send-history g id now stamp time w
  step-history g id (item_clicked i) w =
      switch_to-history g i.is_group id i.id
        (if i.is_group then i.label else T.before_bracket i.label) w
  step-history g id (label_pressed now) w = ground arith
  step-history g id (add_friend_clicked now none) w = refl
  step-history g id (add_friend_clicked now (some k)) w = refl
  step-history g id (create_group_clicked now none desc) w = refl
  step-history g id (create_group_clicked now (some []) desc) w = refl
  step-history g id (create_group_clicked now (some (c ∷ cs)) none) w = refl
  step-history g id (create_group_clicked now (some (c ∷ cs)) (some desc)) w = refl
  step-history g id (add_group_clicked now none) w = refl
  step-history g id (add_group_clicked now (some k)) w = refl
  step-history g id (edit_name_clicked now none) w = refl
  step-history g id (edit_name_clicked now (some name)) w = ground arith
  step-history g id (name_refused now none) w = refl
  step-history g id (name_refused now (some name)) w = ground arith
  step-history g id (name_changed k name) w = ground arith
  step-history g id (logged_in a) w = login-history g id a w
  step-history g id (chat_msg from name msg time) w = chat_msg-history g id from name msg time w
  step-history g id (group_msg group from name msg time) w =
      group_msg-history g id group from name msg time w
  step-history g id (typed s) w = refl
  step-history g id (root_clicked n) w = refl
  step-history g id (logout_clicked now) w = refl
  step-history g id (switch_clicked now) w = refl
  step-history g id (closed now) w = refl
  step-history g id link_down w = refl
  step-history g id (friend_state k state) w = refl
  step-history g id (friend_new k name state) w = refl
  step-history g id (group_new k name) w = refl
