-- ===== src/Window/Refines.antt =====
-- The chat window against the unbounded log of the messages of a session.
use qt_chat.Base.{
  Bool, true, List, [], ◌∷◌, ◌++◌, append_assoc, append-nil, ◌≡◌, sym, ap, ◌∙◌, arith,
}
use qt_chat.Base.Int.{ℤ}
use qt_chat.Base.Lists.{Str}
use qt_chat.Base.Map.{lookup}
use qt_chat.Client.{QtJson, Client}
use qt_chat.Window.{QtText, Window}
use qt_chat.Window.Chat.{set_status, history_of}
use qt_chat.Window.Slots.{fresh, merge_offline, load_friends, load_groups, open_window}
use qt_chat.Window.Runs.{Event, Arrival, pick, step, run, offline_entries, entries, log}
use qt_chat.Window.Pushes.{pushes, newest, pushes-newest, pick-append}
use qt_chat.Window.History.{merge_offline-history, all_badges-history, step-history}

module _ (J : QtJson) (T : QtText J.Array) where
  open J use {Array}

  run-history :
      (g : Bool) (k : ℤ) (es : List (Event Array)) (w : Window Array) (known : List Arrival)
      → history_of g k w ≡ newest (pick g k known)
      → history_of g k (run J T es w) ≡ newest (pick g k (known ++ log J T es w))
  unfolding run log
  run-history g k [] w known h = h ∙ ap (λ l. newest (pick g k l)) (sym (append-nil known))
  run-history g k (e ∷ es) w known h =
      run-history g k es (step J T e w) (known ++ entries J T e w) (
        step-history J T g k e w
        ∙ ap (pushes (pick g k (entries J T e w))) h
        ∙ pushes-newest (pick g k known) (pick g k (entries J T e w))
        ∙ ap newest (sym (pick-append g k known (entries J T e w))))
      ∙ ap (λ l. newest (pick g k l))
          (append_assoc known (entries J T e w) (log J T es (step J T e w)))

  fresh-history :
      (g : Bool) (k id : ℤ) (client : Client Array) (name : Str)
      → history_of g k (fresh J T client id name) ≡ []
  unfolding fresh lookup
  fresh-history g k id client name = ground arith

  opened-history :
      (g : Bool) (k id : ℤ) (client : Client Array) (name : Str) (friends groups offline : Array)
      → history_of g k (open_window J T client id name friends groups offline)
        ≡ newest (pick g k (offline_entries J T (T.texts offline)))
  unfolding open_window fresh
  opened-history g k id client name friends groups offline =
      let merged = merge_offline J T (T.texts offline) (fresh J T client id name) in
      all_badges-history J T g k
        (load_groups J T groups (load_friends J T friends (set_status true merged)))
      ∙ merge_offline-history J T g k (T.texts offline) (fresh J T client id name)
      ∙ ap (pushes (pick g k (offline_entries J T (T.texts offline))))
          (fresh-history g k id client name)
      ∙ pushes-newest [] (pick g k (offline_entries J T (T.texts offline)))

  -- Whatever events follow the opening of the window, the history that it keeps of a chat is the
  -- newest 500 of all messages of that chat that came in or were sent: those of the offline list
  -- first, then those of the events, in their order.
  pub histories_keep_newest :
      (g : Bool) (k id : ℤ) (client : Client Array) (name : Str) (friends groups offline : Array)
      → (es : List (Event Array))
      → history_of g k (run J T es (open_window J T client id name friends groups offline))
        ≡ newest (
            pick g k (
              offline_entries J T (T.texts offline)
              ++ log J T es (open_window J T client id name friends groups offline)))
  histories_keep_newest g k id client name friends groups offline es =
      run-history g k es (open_window J T client id name friends groups offline)
        (offline_entries J T (T.texts offline))
        (opened-history g k id client name friends groups offline)
