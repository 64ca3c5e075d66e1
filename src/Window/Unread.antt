-- ===== src/Window/Unread.antt =====
-- The unread counts of the window against the messages since the last click on a chat.
use qt_chat.Base.{ℕ, ◌+◌, Bool, true, List, [], ◌∷◌, none, some, ◌≡◌, refl, ap, ◌∙◌, arith}
use qt_chat.Base.Tests.{if◌then◌else◌}
use qt_chat.Base.Int.{ℤ, eq_ℤ_iff}
use qt_chat.Base.Lists.{Str, length}
use qt_chat.Base.Map.{lookup, int_eq}
use qt_chat.Client.{QtJson, Client}
use qt_chat.Window.{QtText, Window}
use qt_chat.Window.Chat.{
  append_to_history, add_message, set_status, update_friend_badge, update_group_badge,
}
use qt_chat.Window.Slots.{
  count_friend, count_group, merge_offline, keep_group_msg, on_chat_msg, on_group_msg, fresh,
  load_friends, load_groups, open_window,
}
use qt_chat.Window.Runs.{
  Event, send_clicked, item_clicked, label_pressed, add_friend_clicked, create_group_clicked,
  add_group_clicked, edit_name_clicked, name_refused, name_changed, logged_in, chat_msg, group_msg,
  typed, root_clicked, logout_clicked, switch_clicked, closed, link_down, friend_state, friend_new,
  group_new, belongs, pick, step, run, offline_entries, entries,
}
use qt_chat.Window.Counts.{
  unread, is_open, clicked, add_one-lookup, switch_to-unread, merge_offline-unread,
  all_badges-unread, login-unread, send-unread,
}

module _ (J : QtJson) (T : QtText J.Array) where
  open J use {Json, Array, to_int}

  -- The count of a chat after an event, beside the code: a click on the chat clears it, offline
  -- messages always count, and other messages that come in count unless the chat is open.
  unfoldable pub counted_after : Bool → ℤ → Event Array → Window Array → ℕ → ℕ
  unfolding is_open pick entries
  counted_after g k (item_clicked i) w n = clicked g i.is_group i.id k n
  counted_after g k (send_clicked now stamp time) w n = n
  counted_after g k (logged_in a) w n = n + length (pick g k (entries J T (logged_in a) w))
  counted_after g k e w n = if is_open g k w then n else n + length (pick g k (entries J T e w))

  chat_msg-unread :
      (g : Bool) (k from : ℤ) (name msg time : Str) (w : Window Array)
      → unread g k (on_chat_msg J T from name msg time w)
        ≡ counted_after g k (chat_msg from name msg time) w (unread g k w)
  unfolding counted_after on_chat_msg entries pick belongs is_open append_to_history add_message
      count_friend update_friend_badge
  chat_msg-unread g k from name msg time w = ground (
    arith,
    add_one-lookup k from w.unread_friend,
    eq_ℤ_iff from k,
    eq_ℤ_iff from w.current,
    eq_ℤ_iff w.current k,
  )

  group_msg-unread :
      (g : Bool) (k group from : ℤ) (name msg time : Str) (w : Window Array)
      → unread g k (on_group_msg J T group from name msg time w)
        ≡ counted_after g k (group_msg group from name msg time) w (unread g k w)
  unfolding counted_after on_group_msg keep_group_msg entries pick belongs is_open append_to_history
      add_message count_group update_group_badge
  group_msg-unread g k group from name msg time w = ground (
    arith,
    add_one-lookup k group w.unread_group,
    eq_ℤ_iff group k,
    eq_ℤ_iff group w.current,
    eq_ℤ_iff w.current k,
  )

  step-unread :
      (g : Bool) (k : ℤ) (e : Event Array) (w : Window Array)
      → unread g k (step J T e w) ≡ counted_after g k e w (unread g k w)
  unfolding step counted_after entries pick
  step-unread g k (send_clicked now stamp time) w = send-unread J T g k now stamp time w
  step-unread g k (item_clicked i) w =
      switch_to-unread g i.is_group k i.id
        (if i.is_group then i.label else T.before_bracket i.label) w
  step-unread g k (label_pressed now) w = ground arith
  step-unread g k (add_friend_clicked now none) w = ground arith
  step-unread g k (add_friend_clicked now (some id)) w = ground arith
  step-unread g k (create_group_clicked now none desc) w = ground arith
  step-unread g k (create_group_clicked now (some []) desc) w = ground arith
  step-unread g k (create_group_clicked now (some (c ∷ cs)) none) w = ground arith
  step-unread g k (create_group_clicked now (some (c ∷ cs)) (some desc)) w = ground arith
  step-unread g k (add_group_clicked now none) w = ground arith
  step-unread g k (add_group_clicked now (some id)) w = ground arith
  step-unread g k (edit_name_clicked now none) w = ground arith
  step-unread g k (edit_name_clicked now (some name)) w = ground arith
  step-unread g k (name_refused now none) w = ground arith
  step-unread g k (name_refused now (some name)) w = ground arith
  step-unread g k (name_changed id name) w = ground arith
  step-unread g k (logged_in a) w = login-unread J T g k a w
  step-unread g k (chat_msg from name msg time) w = chat_msg-unread g k from name msg time w
  step-unread g k (group_msg group from name msg time) w =
      group_msg-unread g k group from name msg time w
  step-unread g k (typed s) w = ground arith
  step-unread g k (root_clicked n) w = ground arith
  step-unread g k (logout_clicked now) w = ground arith
  step-unread g k (switch_clicked now) w = ground arith
  step-unread g k (closed now) w = ground arith
  step-unread g k link_down w = ground arith
  step-unread g k (friend_state id state) w = ground arith
  step-unread g k (friend_new id name state) w = ground arith
  step-unread g k (group_new id name) w = ground arith

  -- The count of a chat after events, beside the code, from a count before them.
  unfoldable pub counted_over : Bool → ℤ → List (Event Array) → Window Array → ℕ → ℕ
  unfolding counted_after step
  counted_over g k [] w n = n
  counted_over g k (e ∷ es) w n = counted_over g k es (step J T e w) (counted_after g k e w n)

  run-unread :
      (g : Bool) (k : ℤ) (es : List (Event Array)) (w : Window Array)
      → unread g k (run J T es w) ≡ counted_over g k es w (unread g k w)
  unfolding run counted_over
  run-unread g k [] w = refl
  run-unread g k (e ∷ es) w =
      run-unread g k es (step J T e w)
      ∙ ap (counted_over g k es (step J T e w)) (step-unread g k e w)

  opened-unread :
      (g : Bool) (k id : ℤ) (client : Client Array) (name : Str) (friends groups offline : Array)
      → unread g k (open_window J T client id name friends groups offline)
        ≡ length (pick g k (offline_entries J T (T.texts offline)))
  unfolding open_window fresh lookup
  opened-unread g k id client name friends groups offline =
      let merged = merge_offline J T (T.texts offline) (fresh J T client id name) in
      all_badges-unread J T g k
        (load_groups J T groups (load_friends J T friends (set_status true merged)))
      ∙ merge_offline-unread J T g k (T.texts offline) (fresh J T client id name)
      ∙ ground arith

  -- Whatever events follow the opening of the window, the unread count of a chat is the number of
  -- messages of that chat that came in since the last click on it, among the offline messages of a
  -- login and those that came in while it was not the open chat; what the user sends does not count.
  pub unread_since_click :
      (g : Bool) (k id : ℤ) (client : Client Array) (name : Str) (friends groups offline : Array)
      → (es : List (Event Array))
      → unread g k (run J T es (open_window J T client id name friends groups offline))
        ≡ counted_over g k es
            (open_window J T client id name friends groups offline)
            (length (pick g k (offline_entries J T (T.texts offline))))
  unread_since_click g k id client name friends groups offline es =
      run-unread g k es (open_window J T client id name friends groups offline)
      ∙ ap (counted_over g k es (open_window J T client id name friends groups offline))
          (opened-unread g k id client name friends groups offline)
