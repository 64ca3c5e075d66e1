-- ===== src/Tests/SessionRuns.antt =====
-- A round of the Qt client: a login, a window, a signal to the hidden dialog, and a switch.
use qt_chat.Base.{◌≡◌, refl, List, [], ◌∷◌}
use qt_chat.Base.Int.{pos}
use qt_chat.Base.Lists.{Str, codes}
use qt_chat.Dialog.{Dialog, new_dialog}
use qt_chat.Dialog.Runs as Dialogs
use qt_chat.Window.{Window}
use qt_chat.Window.Runs as Windows
use qt_chat.Session.{
  at_dialog, at_window, Event, dialog_does, window_does, dialog_hears, client_of, window_of, step,
  run, start,
}
use qt_chat.Session.Phases.{Fresh, hidden_dialog_silent, switch_starts_over}
use qt_chat.Tests.WindowRuns.{qt, words, core}

abbrev login_comes : Dialogs.Event (List Str)
login_comes = Dialogs.logged_in (pos 5) (codes "ann") [] [] []

abbrev round : List (Event (List Str))
round = dialog_does login_comes ∷ window_does Windows.link_down ∷ []

-- The link of the open window comes up again, and the hidden dialog hears it.
hidden_dialog_silent_example :
    client_of (
      step qt words []
        (dialog_hears (Dialogs.link_up 9))
        (run qt words [] round (start qt words [] core)))
    ≡ client_of (run qt words [] round (start qt words [] core))
hidden_dialog_silent_example = hidden_dialog_silent qt words [] core round (Dialogs.link_up 9)

abbrev accepted : Dialog (List Str)
accepted = Dialogs.step qt login_comes (new_dialog qt core)

abbrev opened : Window (List Str)
opened = window_of qt words [] accepted

login_opens :
    run qt words [] (dialog_does login_comes ∷ []) (start qt words [] core)
    ≡ at_window accepted opened
unfolding run start
login_opens = refl

switch_starts_over_example :
    (c : _) × (step qt words [] (window_does (Windows.switch_clicked 9)) (at_window accepted opened)
      ≡ at_dialog (new_dialog qt c))
    × Fresh qt words [] c
switch_starts_over_example = switch_starts_over qt words [] 9 accepted opened
