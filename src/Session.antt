-- ===== src/Session.antt =====
-- The `main` of the Qt client, QtClient/Client/main.cpp: login dialogs and chat windows in turn, over
-- one `ChatClient`. The dialog of a round lives on, hidden, while the window of the round is open,
-- and still hears the signals of the client and its own timer.
pub mod Phases
use qt_chat.Base.{Bool, true, false, List, [], ◌∷◌, Option, none, some}
use qt_chat.Base.Tests.{if◌then◌else◌}
use qt_chat.Client.{QtJson, Client}
use qt_chat.Dialog.{Dialog, new_dialog}
use qt_chat.Dialog.Runs as Dialogs
use qt_chat.Window.{QtText, Window}
use qt_chat.Window.Slots.{open_window}
use qt_chat.Window.Runs as Windows

pub data Session (A : Type 0) : Type 0 where
  at_dialog : Dialog A → Session A
  at_window : Dialog A → Window A → Session A
  over : Client A → Session A

-- An event of the dialog that is shown, its close, an event of the window, a signal of the client to
-- the hidden dialog or its timer, or what the slots of the client did to the client.
pub data Event (A : Type 0) : Type 0 where
  dialog_does : Dialogs.Event A → Event A
  dialog_closed : Event A
  window_does : Windows.Event A → Event A
  dialog_hears : Dialogs.Event A → Event A
  client_does : (Client A → Client A) → Event A

-- The signals of the client that the dialog is connected to.
unfoldable pub is_signal : {A : Type 0} → Dialogs.Event A → Bool
is_signal Dialogs.link_error = true
is_signal (Dialogs.link_up now) = true
is_signal (Dialogs.logged_in id name friends groups offline) = true
is_signal (Dialogs.login_refused reason) = true
is_signal (Dialogs.registered id) = true
is_signal (Dialogs.reg_refused reason) = true
is_signal _ = false

-- What may reach a hidden dialog: the signals of the client, and its timer while that runs.
unfoldable pub reaches : {A : Type 0} → Dialogs.Event A → Dialog A → Bool
unfolding is_signal
reaches (Dialogs.timed_out now) d = d.retry
reaches e d = is_signal e

abbrev pub client_of : {A : Type 0} → Session A → Client A
client_of (at_dialog d) = d.client
client_of (at_window d w) = w.client
client_of (over c) = c

-- `empty` is `QJsonArray()`.
module _ (J : QtJson) (T : QtText J.Array) (empty : J.Array) where
  open J use {Array}

  abbrev or_array : Option Array → Array
  or_array none = empty
  or_array (some a) = a

  -- The window that a round opens.
  unfoldable pub window_of : Dialog Array → Window Array
  unfolding open_window
  window_of d =
      open_window J T d.client d.user_id d.user_name (or_array d.friends) (or_array d.groups)
        (or_array d.offline_msgs)

  -- `exec` returns after `accept`.
  unfoldable pub after_dialog : Dialog Array → Session Array
  unfolding window_of
  after_dialog d = if d.accepted then at_window d (window_of d) else at_dialog d

  -- The event loop ends with the last window; the next round starts if the user asked for it.
  unfoldable pub after_window : Dialog Array → Window Array → Session Array
  unfolding new_dialog
  after_window d w =
      if w.visible
      then at_window d w
      else if w.switch_requested
      then at_dialog (new_dialog J w.client)
      else over w.client

  -- A slot of the hidden dialog, on the client that it shares with the window.
  unfoldable pub heard : Dialogs.Event Array → Dialog Array → Window Array → Session Array
  unfolding Dialogs.step
  heard e d w =
      let d' = Dialogs.step J e (record d { client = w.client }) in
      at_window d' (record w { client = d'.client })

  unfoldable pub step : Event Array → Session Array → Session Array
  unfolding Dialogs.step Windows.step after_dialog after_window heard reaches
  step (dialog_does e) (at_dialog d) = after_dialog (Dialogs.step J e d)
  step dialog_closed (at_dialog d) = over d.client
  step (window_does e) (at_window d w) = after_window d (Windows.step J T e w)
  step (dialog_hears e) (at_window d w) = if reaches e d then heard e d w else at_window d w
  step (client_does f) (at_dialog d) = at_dialog (record d { client = f d.client })
  step (client_does f) (at_window d w) = at_window d (record w { client = f w.client })
  step _ s = s

  unfoldable pub run : List (Event Array) → Session Array → Session Array
  unfolding step
  run [] s = s
  run (e ∷ es) s = run es (step e s)

  -- `main`, with the client of its start.
  unfoldable pub start : Client Array → Session Array
  unfolding new_dialog
  start c = at_dialog (new_dialog J c)
