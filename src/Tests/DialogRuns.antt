-- ===== src/Tests/DialogRuns.antt =====
-- The login dialog over a client without a session.
use qt_chat.Base.{◌≡◌, ◌⊎◌, refl, true, false, not, List, [], ◌∷◌}
use qt_chat.Base.Int.{pos}
use qt_chat.Base.Lists.{codes}
use qt_chat.Wire.{packet}
use qt_chat.Client.{Client, wrote, aborted, connects, signal, connected, unconnected}
use qt_chat.Client.Calls.{log_out}
use qt_chat.Client.Events.{on_connected}
use qt_chat.Client.Reconnect
use qt_chat.Client.Quiet.{Quiet}
use qt_chat.Client.Reconnect.{all_no_link, no_link, dropped, failed, reconnect_fires}
use qt_chat.Dialog.{
  Dialog, login, nothing, new_dialog, on_login_clicked, on_retry_timeout, on_link_up,
}
use qt_chat.Dialog.Runs.{
  Event, edited, login_clicked, link_error, is_waiting, run, timer_while_pending,
}
use qt_chat.Dialog.Login.{click_logs_in, timeout_gives_up}
use qt_chat.Tests.ClientRuns.{qt, session}

abbrev start : Client (Unit {0})
start = record session { want_relogin = false }

abbrev filled : Dialog (Unit {0})
filled = record (new_dialog qt start) { login_id = codes "5"; login_pwd = codes "pw" }

abbrev attempt : List (Event (Unit {0}))
attempt =
    edited (codes "5") (codes "pw") [] [] ∷ login_clicked 9 unconnected (pos 5) ∷ link_error ∷ []

timer_while_pending_example :
    let d = run qt attempt (new_dialog qt start) in
    (d.retry ≡ is_waiting d.pending)
    × ((d.inputs ≡ not (is_waiting d.pending)) ⊎ ((d.accepted ≡ true) × (d.inputs ≡ false)))
timer_while_pending_example = timer_while_pending qt start attempt

timer_runs : (run qt attempt (new_dialog qt start)).retry ≡ true
unfolding run new_dialog
timer_runs = refl

click_logs_in_example :
    let clicked = on_login_clicked qt 9 unconnected (pos 5) filled in
    let up = on_link_up qt 9 (record clicked { client = on_connected qt 9 clicked.client }) in
    (up.client.trace
      ≡ wrote (packet (codes "{}")) ∷ signal connected ∷ connects (codes "h") 6000 ∷ aborted ∷ [])
    × (up.pending ≡ login)
    × (up.retry ≡ true)
    × (up.client.login_timeout ≡ true)
unfolding new_dialog
click_logs_in_example = click_logs_in qt 9 (pos 5) filled refl refl refl

timeout_gives_up_example :
    let d = on_login_clicked qt 9 unconnected (pos 5) filled in
    let out = on_retry_timeout qt 19 d in
    (out.pending ≡ nothing)
    × (out.inputs ≡ true)
    × (out.retry ≡ false)
    × (Quiet
        (log_out qt 19 d.client).trace
        (Reconnect.run qt (dropped ∷ failed [] ∷ reconnect_fires unconnected ∷ []) out.client))
unfolding on_login_clicked new_dialog all_no_link
timeout_gives_up_example =
    timeout_gives_up qt 19 (dropped ∷ failed [] ∷ reconnect_fires unconnected ∷ [])
      (on_login_clicked qt 9 unconnected (pos 5) filled) refl refl
