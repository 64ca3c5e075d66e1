-- ===== src/Dialog/Runs.antt =====
-- The events of the login dialog, and its timer and buttons against the pending action.
use qt_chat.Base.{
  ℕ, Bool, true, false, not, List, [], ◌∷◌, Option, none, some, ◌≡◌, ◌⊎◌, inl, refl, arith,
}
use qt_chat.Base.Int.{ℤ}
use qt_chat.Base.Lists.{Str}
use qt_chat.Client.{QtJson, Client, Socket}
use qt_chat.Dialog.{
  Pending, nothing, login, reg, Dialog, new_dialog, on_retry_timeout, on_connection_error,
  on_login_clicked, on_register_clicked, on_cancel_clicked, on_link_up, on_login_success,
  on_login_failed, on_reg_success, on_reg_failed, show_server_settings,
}

pub data Event (A : Type 0) : Type 0 where
  edited : Str → Str → Str → Str → Event A
  login_clicked : ℕ → Socket → ℤ → Event A
  register_clicked : ℕ → Socket → Event A
  cancel_clicked : ℕ → Event A
  settings_shown : Option (Str × ℕ) → Event A
  timed_out : ℕ → Event A
  link_error : Event A
  link_up : ℕ → Event A
  logged_in : ℤ → Str → A → A → A → Event A
  login_refused : Str → Event A
  registered : ℤ → Event A
  reg_refused : Str → Event A

abbrev pub is_waiting : Pending → Bool
is_waiting nothing = false
is_waiting login = true
is_waiting reg = true

module _ (J : QtJson) where
  open J use {Array}

  unfoldable pub step : Event Array → Dialog Array → Dialog Array
  unfolding on_retry_timeout on_connection_error on_login_clicked on_register_clicked
      on_cancel_clicked on_link_up on_login_success on_login_failed on_reg_success on_reg_failed
  step (edited id pwd name reg_pwd) d = record d {
    login_id = id;
    login_pwd = pwd;
    reg_name = name;
    reg_pwd = reg_pwd;
  }
  step (login_clicked now link id) d = on_login_clicked J now link id d
  step (register_clicked now link) d = on_register_clicked J now link d
  step (cancel_clicked now) d = on_cancel_clicked J now d
  step (settings_shown answer) d = show_server_settings J answer d
  step (timed_out now) d = on_retry_timeout J now d
  step link_error d = on_connection_error J d
  step (link_up now) d = on_link_up J now d
  step (logged_in id name friends groups offline) d =
      on_login_success J id name friends groups offline d
  step (login_refused reason) d = on_login_failed J reason d
  step (registered id) d = on_reg_success J id d
  step (reg_refused reason) d = on_reg_failed J reason d

  unfoldable pub run : List (Event Array) → Dialog Array → Dialog Array
  unfolding step
  run [] d = d
  run (e ∷ es) d = run es (step e d)

  -- The timer runs while an action is pending, and the buttons are off then, and only then
  -- unless the dialog was accepted.
  record IsValid (d : Dialog Array) : Type 0 where
    timer : d.retry ≡ is_waiting d.pending
    buttons : (d.inputs ≡ not (is_waiting d.pending)) ⊎ ((d.accepted ≡ true) × (d.inputs ≡ false))

  step-IsValid : (e : Event Array) (d : Dialog Array) → IsValid d → IsValid (step e d)
  unfolding step
  step-IsValid (settings_shown none) d v = v
  step-IsValid (settings_shown (some a)) d v = ground arith
  step-IsValid e d v = ground arith

  run-IsValid : (es : List (Event Array)) (d : Dialog Array) → IsValid d → IsValid (run es d)
  unfolding run
  run-IsValid [] d v = v
  run-IsValid (e ∷ es) d v = run-IsValid es (step e d) (step-IsValid e d v)

  -- Whatever events follow the opening of the dialog: its timer runs exactly while a login or a
  -- registration is pending, and its buttons are off exactly then, except that they stay off after
  -- a login that was accepted.
  pub timer_while_pending :
      (client : Client Array) (es : List (Event Array))
      → let d = run es (new_dialog J client) in
        (d.retry ≡ is_waiting d.pending)
        × ((d.inputs ≡ not (is_waiting d.pending)) ⊎ ((d.accepted ≡ true) × (d.inputs ≡ false)))
  unfolding new_dialog
  timer_while_pending client es =
      let v = run-IsValid es (new_dialog J client) (record { timer = refl; buttons = inl refl }) in
      (v.timer, v.buttons)
