-- ===== src/Session/Phases.antt =====
-- The phases of the Qt client's `main`: the window of an accepted login, and the hidden dialog.
use qt_chat.Base.{
  Bool, true, false, List, [], ◌∷◌, none, some, ◌≡◌, refl, sym, ap, ◌∙◌, arith, subst, inl, inr, ℕ,
}
use qt_chat.Base.Tests.{if◌then◌else◌, Bool-cases, if-true, if-false}
use qt_chat.Base.Int.{minus_one}
use qt_chat.Client.{QtJson, Client}
use qt_chat.Client.Calls.{log_out, reset_login_state, send}
use qt_chat.Client.{put}
use qt_chat.Window.Actions.{on_switch_account, switch_account_requested, close_window}
use qt_chat.Dialog.{Dialog, nothing, new_dialog}
use qt_chat.Dialog.Runs as Dialogs
use qt_chat.Window.{QtText, Window}
use qt_chat.Window.Runs as Windows
use qt_chat.Session.{
  Session, at_dialog, at_window, over, Event, dialog_does, dialog_closed, window_does, dialog_hears,
  client_does, reaches, client_of, window_of, after_dialog, after_window, heard, step, run, start,
}

module _ (J : QtJson) (T : QtText J.Array) (empty : J.Array) where
  open J use {Array}

  -- An accepted dialog asks for nothing more, and its timer is off.
  pub record Hidden (d : Dialog Array) : Type 0 where
    pub accepted : d.accepted ≡ true
    pub asks_nothing : d.pending ≡ nothing
    pub no_timer : d.retry ≡ false

  -- A dialog that is shown is not accepted; beside a window there is a hidden dialog.
  unfoldable pub IsValid : Session Array → Type 0
  IsValid (at_dialog d) = d.accepted ≡ false
  IsValid (at_window d w) = Hidden d
  IsValid (over c) = Unit

  hears-Hidden :
      (e : Dialogs.Event Array) (d : Dialog Array) (c : Client Array)
      → reaches e d ≡ true
      → Hidden d
      → Hidden (Dialogs.step J e (record d { client = c }))
  unfolding reaches Dialogs.step
  hears-Hidden (Dialogs.settings_shown o) d c s h = ground (arith, s)
  hears-Hidden (Dialogs.timed_out now) d c s h = absurd (ground (arith, s, h.no_timer))
  hears-Hidden e d c s h = ground (arith, s)

  accepts-Hidden :
      (e : Dialogs.Event Array) (d : Dialog Array)
      → d.accepted ≡ false
      → (Dialogs.step J e d).accepted ≡ true
      → Hidden (Dialogs.step J e d)
  unfolding Dialogs.step
  accepts-Hidden (Dialogs.settings_shown none) d n a = ground (arith, a)
  accepts-Hidden (Dialogs.settings_shown (some x)) d n a = ground (arith, a)
  accepts-Hidden e d n a = ground (arith, a)

  -- What reaches a hidden dialog leaves the client alone.
  hears-client :
      (e : Dialogs.Event Array) (d : Dialog Array) (c : Client Array)
      → reaches e d ≡ true
      → Hidden d
      → (Dialogs.step J e (record d { client = c })).client ≡ c
  unfolding reaches Dialogs.step
  hears-client (Dialogs.settings_shown o) d c s h = ground (arith, s)
  hears-client (Dialogs.timed_out now) d c s h = absurd (ground (arith, s, h.no_timer))
  hears-client e d c s h = ground (arith, s, h.asks_nothing)

  if-IsValid :
      (b : Bool) (x y : Session Array) → IsValid x → IsValid y → IsValid (if b then x else y)
  if-IsValid true x y h k = h
  if-IsValid false x y h k = k

  after_dialog-IsValid :
      (d : Dialog Array) → (d.accepted ≡ true → Hidden d) → IsValid (after_dialog J T empty d)
  unfolding after_dialog IsValid
  after_dialog-IsValid d h = elim (Bool-cases d.accepted) [
    | inl t ↦ subst IsValid (if-true (at_window d (window_of J T empty d)) (at_dialog d) t) (h t)
    | inr f ↦ subst IsValid (if-false (at_window d (window_of J T empty d)) (at_dialog d) f) f
  ]

  after_window-IsValid :
      (d : Dialog Array) (w : Window Array) → Hidden d → IsValid (after_window J T empty d w)
  unfolding after_window IsValid new_dialog
  after_window-IsValid d w h =
      if-IsValid w.visible (at_window d w)
        (if w.switch_requested then at_dialog (new_dialog J w.client) else over w.client) h
        (if-IsValid w.switch_requested (at_dialog (new_dialog J w.client)) (over w.client) refl tt)

  step-IsValid : (e : Event Array) (s : Session Array) → IsValid s → IsValid (step J T empty e s)
  unfolding step IsValid heard
  step-IsValid (dialog_does e) (at_dialog d) v =
      after_dialog-IsValid (Dialogs.step J e d) (accepts-Hidden e d v)
  step-IsValid (dialog_does e) (at_window d w) v = v
  step-IsValid (dialog_does e) (over c) v = v
  step-IsValid dialog_closed (at_dialog d) v = tt
  step-IsValid dialog_closed (at_window d w) v = v
  step-IsValid dialog_closed (over c) v = v
  step-IsValid (window_does e) (at_dialog d) v = v
  step-IsValid (window_does e) (at_window d w) v = after_window-IsValid d (Windows.step J T e w) v
  step-IsValid (window_does e) (over c) v = v
  step-IsValid (dialog_hears e) (at_dialog d) v = v
  step-IsValid (dialog_hears e) (at_window d w) v = elim (Bool-cases (reaches e d)) [
    | inl t ↦
        subst IsValid (if-true (heard J T empty e d w) (at_window d w) t)
          (hears-Hidden e d w.client t v)
    | inr f ↦ subst IsValid (if-false (heard J T empty e d w) (at_window d w) f) v
  ]
  step-IsValid (dialog_hears e) (over c) v = v
  step-IsValid (client_does f) (at_dialog d) v = v
  step-IsValid (client_does f) (at_window d w) v = v
  step-IsValid (client_does f) (over c) v = v

  run-IsValid :
      (es : List (Event Array)) (s : Session Array) → IsValid s → IsValid (run J T empty es s)
  unfolding run
  run-IsValid [] s v = v
  run-IsValid (e ∷ es) s v = run-IsValid es (step J T empty e s) (step-IsValid e s v)

  hears-silent :
      (e : Dialogs.Event Array) (s : Session Array)
      → IsValid s
      → client_of (step J T empty (dialog_hears e) s) ≡ client_of s
  unfolding step IsValid heard
  hears-silent e (at_dialog d) v = refl
  hears-silent e (at_window d w) v = elim (Bool-cases (reaches e d)) [
    | inl t ↦
        ap client_of (sym (if-true (heard J T empty e d w) (at_window d w) t))
        ∙ hears-client e d w.client t v
    | inr f ↦ ap client_of (sym (if-false (heard J T empty e d w) (at_window d w) f))
  ]
  hears-silent e (over c) v = refl

  -- Through any rounds of dialogs and windows, whatever the slots of the client do to it: no slot of
  -- the hidden dialog of the round, on a signal of the client or on its own timer while that runs,
  -- changes anything about the client; the dialog asks for no login, registration or logout of its
  -- own.
  pub hidden_dialog_silent :
      (c : Client Array) (es : List (Event Array)) (e : Dialogs.Event Array)
      → client_of (step J T empty (dialog_hears e) (run J T empty es (start J T empty c)))
        ≡ client_of (run J T empty es (start J T empty c))
  unfolding start new_dialog IsValid
  hidden_dialog_silent c es e =
      hears-silent e (run J T empty es (start J T empty c))
        (run-IsValid es (start J T empty c) refl)

  -- A client that knows no id and no password, and does not log in by itself.
  pub record Fresh (c : Client Array) : Type 0 where
    pub no_id : c.my_id ≡ minus_one
    pub no_password : c.password ≡ []
    pub no_relogin : c.want_relogin ≡ false
    pub on_purpose : c.intentional ≡ true

  log_out-intentional : (now : ℕ) (c : Client Array) → (log_out J now c).intentional ≡ true
  unfolding log_out send put
  log_out-intentional now c = ground arith

  log_out-again : (now : ℕ) (c : Client Array) → c.intentional ≡ true → log_out J now c ≡ c
  unfolding log_out
  log_out-again now c h = sym (if-true c _ h)

  -- A click on "Switch account" ends the window and starts a new round over the same client, logged
  -- out, which neither knows an id and a password nor logs in by itself.
  pub switch_starts_over :
      (now : ℕ) (d : Dialog Array) (w : Window Array)
      → (c : Client Array) × (step J T empty
            (window_does (Windows.switch_clicked now))
            (at_window d w)
          ≡ at_dialog (new_dialog J c))
        × Fresh c
  unfolding step after_window Windows.step on_switch_account switch_account_requested close_window
  switch_starts_over now d w =
      let once = reset_login_state J (log_out J now w.client) in
      let kept = log_out-intentional now w.client in
      let again = log_out-again now once kept in
      (
        (Windows.step J T (Windows.switch_clicked now) w).client,
        refl,
        subst Fresh (sym (ap (log_out J now) again ∙ again))
            (record { no_id = refl; no_password = refl; no_relogin = refl; on_purpose = kept }),
      )
