-- ===== src/Window/View.antt =====
-- The open chat shows the end of its history.
use qt_chat.Base.{
  Bool, true, false, ◌&&◌, List, [], ◌∷◌, ◌++◌, map, none, some, ◌≡◌, ◌≢◌, ◌⊎◌, inl, inr, sym, ap,
  ◌∙◌, arith,
}
use qt_chat.Base.Tests.{if◌then◌else◌, Bool-cases}
use qt_chat.Base.Int.{ℤ, minus_one, eq_ℤ, eq_ℤ_iff}
use qt_chat.Base.Lists.{Str}
use qt_chat.Client.{QtJson, Client}
use qt_chat.Window.{QtText, Item, Bubble, Window}
use qt_chat.Window.Chat.{
  bubble, history_of, set_status, rebuild, switch_to, clear_unread, title_of, enter_history,
}
use qt_chat.Window.Slots.{merge_offline, fresh, open_window, load_friends, load_groups}
use qt_chat.Window.Ends.{Ends, pushes-Ends}
use qt_chat.Window.Pushes.{pushes}
use qt_chat.Window.History.{step-history}
use qt_chat.Window.Screens.{
  under, under-nil, screen, add_messages-screen, merge_offline-screen, all_badges-screen,
  login-screen, login_closed-screen, send-screen, chat_msg-screen, group_msg-screen, all_chats,
}
use qt_chat.Window.Runs.{
  Event, send_clicked, item_clicked, label_pressed, add_friend_clicked, create_group_clicked,
  add_group_clicked, edit_name_clicked, name_refused, name_changed, logged_in, chat_msg, group_msg,
  typed, root_clicked, logout_clicked, switch_clicked, closed, link_down, friend_state, friend_new,
  group_new, pick, step, run, entries,
}

module _ (J : QtJson) (T : QtText J.Array) where
  open J use {Json, Array, to_int}

  -- Every event but a click on an item of the tree and a login.
  stays : Event Array → Bool
  stays (item_clicked i) = false
  stays (logged_in a) = false
  stays _ = true

  step-screen :
      (e : Event Array) (w : Window Array)
      → stays e ≡ true
      → screen (step J T e w) ≡ under (entries J T e w) (screen w)
  unfolding stays step entries
  step-screen (item_clicked i) w h = ground arith
  step-screen (send_clicked now stamp time) w h = send-screen J T now stamp time w
  step-screen (logged_in a) w h = ground arith
  step-screen (chat_msg from name msg time) w h = chat_msg-screen J T from name msg time w
  step-screen (group_msg group from name msg time) w h =
      group_msg-screen J T group from name msg time w
  step-screen (label_pressed now) w h = ground (arith, under-nil (screen w))
  step-screen (add_friend_clicked now none) w h = sym (under-nil (screen w))
  step-screen (add_friend_clicked now (some k)) w h = sym (under-nil (screen w))
  step-screen (create_group_clicked now none desc) w h = sym (under-nil (screen w))
  step-screen (create_group_clicked now (some []) desc) w h = sym (under-nil (screen w))
  step-screen (create_group_clicked now (some (c ∷ cs)) none) w h = sym (under-nil (screen w))
  step-screen (create_group_clicked now (some (c ∷ cs)) (some desc)) w h =
      sym (under-nil (screen w))
  step-screen (add_group_clicked now none) w h = sym (under-nil (screen w))
  step-screen (add_group_clicked now (some k)) w h = sym (under-nil (screen w))
  step-screen (edit_name_clicked now none) w h = sym (under-nil (screen w))
  step-screen (edit_name_clicked now (some name)) w h = ground (arith, under-nil (screen w))
  step-screen (name_refused now none) w h = sym (under-nil (screen w))
  step-screen (name_refused now (some name)) w h = ground (arith, under-nil (screen w))
  step-screen (name_changed k name) w h = ground (arith, under-nil (screen w))
  step-screen (typed s) w h = sym (under-nil (screen w))
  step-screen (root_clicked k) w h = sym (under-nil (screen w))
  step-screen (logout_clicked now) w h = sym (under-nil (screen w))
  step-screen (switch_clicked now) w h = sym (under-nil (screen w))
  step-screen (closed now) w h = sym (under-nil (screen w))
  step-screen link_down w h = sym (under-nil (screen w))
  step-screen (friend_state k state) w h = sym (under-nil (screen w))
  step-screen (friend_new k name state) w h = sym (under-nil (screen w))
  step-screen (group_new k name) w h = sym (under-nil (screen w))

  -- A click on an item opens its chat with the whole history that is kept of it.
  switch_to-view :
      (k : ℤ) (b : Bool) (name : Str) (w : Window Array)
      → screen (switch_to k b name w) ≡ (map bubble (history_of b k w), k, b)
  unfolding switch_to rebuild
  switch_to-view k true name w = add_messages-screen (history_of true k w) (
      enter_history true k
        (record (clear_unread k true
          (record w { current = k; current_name = name; current_group = true })) {
            title = title_of true name;
            view = [];
          }))
  switch_to-view k false name w = add_messages-screen (history_of false k w) (
      enter_history false k
        (record (clear_unread k false
          (record w { current = k; current_name = name; current_group = false })) {
            title = title_of false name;
            view = [];
          }))

  -- Whether a login brings only chat messages.
  unfoldable pub only_chats : Event Array → Bool
  unfolding all_chats
  only_chats (logged_in a) = all_chats J T (T.texts a)
  only_chats _ = true

  unfoldable pub all_only_chats : List (Event Array) → Bool
  unfolding only_chats
  all_only_chats [] = true
  all_only_chats (e ∷ es) = only_chats e && all_only_chats es

  -- No chat is open, or the bubbles end with the history of the open one.
  abbrev Shown : Window Array → Type 0
  Shown w = (w.current ≡ minus_one) ⊎ Ends w.view (history_of w.current_group w.current w)

  under-Shown :
      (e : Event Array) (w : Window Array)
      → screen (step J T e w) ≡ under (entries J T e w) (screen w)
      → Shown w
      → Shown (step J T e w)
  under-Shown e w eq (inl c) = inl (ap (λ s. s.1) eq ∙ c)
  under-Shown e w eq (inr h) =
      let ms = pick w.current_group w.current (entries J T e w) in
      let (old, p) = pushes-Ends ms w.view (history_of w.current_group w.current w) h in
      inr (
        old,
        ap (λ s. s.0) eq
            ∙ p
            ∙ ap (λ h. old ++ map bubble h)
                (sym (step-history J T w.current_group w.current e w)
                  ∙ sym (ap (λ s. history_of s.2 s.1 (step J T e w)) eq)),
      )

  login-Shown :
      (a : Array) (w : Window Array)
      → all_chats J T (T.texts a) ≡ true
      → Shown w
      → Shown (step J T (logged_in a) w)
  unfolding step entries
  login-Shown a w h s = elim (Bool-cases (eq_ℤ w.current minus_one)) [
    | inl t ↦
        inl (ap (λ s. s.1) (login_closed-screen J T a w ((eq_ℤ_iff _ _).0 t)) ∙ (eq_ℤ_iff _ _).0 t)
    | inr f ↦
        under-Shown (logged_in a) w
          (login-screen J T a w (λ c. ground (arith, f, c, eq_ℤ_iff w.current minus_one)) h) s
  ]

  click-Shown : (i : Item) (w : Window Array) → Shown (step J T (item_clicked i) w)
  unfolding step pick entries pushes
  click-Shown i w =
      let name = if i.is_group then i.label else T.before_bracket i.label in
      let eq = switch_to-view i.id i.is_group name w in
      inr (
        [],
        ap (λ s. s.0) eq
            ∙ ap (map bubble) (
                sym (step-history J T i.is_group i.id (item_clicked i) w)
                ∙ sym (ap (λ s. history_of s.2 s.1 (step J T (item_clicked i) w)) eq)),
      )

  step-Shown :
      (e : Event Array) (w : Window Array) → only_chats e ≡ true → Shown w → Shown (step J T e w)
  unfolding only_chats stays
  step-Shown (item_clicked i) w h s = click-Shown i w
  step-Shown (logged_in a) w h s = login-Shown a w h s
  step-Shown e w h s = under-Shown e w (step-screen e w h) s

  run-Shown :
      (es : List (Event Array)) (w : Window Array)
      → all_only_chats es ≡ true
      → Shown w
      → Shown (run J T es w)
  unfolding run all_only_chats
  run-Shown [] w h s = s
  run-Shown (e ∷ es) w h s =
      run-Shown es (step J T e w) (ground (arith, h)) (step-Shown e w (ground (arith, h)) s)

  opened-current :
      (client : Client Array) (id : ℤ) (name : Str) (friends groups offline : Array)
      → (open_window J T client id name friends groups offline).current ≡ minus_one
  unfolding open_window fresh
  opened-current client id name friends groups offline =
      let merged = merge_offline J T (T.texts offline) (fresh J T client id name) in
      ap (λ s. s.1)
        (all_badges-screen J T
            (load_groups J T groups (load_friends J T friends (set_status true merged)))
          ∙ merge_offline-screen J T (T.texts offline) (fresh J T client id name))

  -- Whatever events follow the opening of the window, as long as every login brings only messages
  -- with the ids of chat messages: while a chat is open, the bubbles end with those of its whole
  -- history.
  pub chat_ends_with_history :
      (client : Client Array) (id : ℤ) (name : Str) (friends groups offline : Array)
      → (es : List (Event Array)) → all_only_chats es ≡ true
      → (run J T es (open_window J T client id name friends groups offline)).current ≢ minus_one
      → let w = run J T es (open_window J T client id name friends groups offline) in
        (old : List Bubble) × (w.view ≡ old ++ map bubble (history_of w.current_group w.current w))
  chat_ends_with_history client id name friends groups offline es h n =
      elim (run-Shown es (open_window J T client id name friends groups offline) h
        (inl (opened-current client id name friends groups offline))) [
          | inl c ↦ absurd (n c)
          | inr ends ↦ ends
        ]
