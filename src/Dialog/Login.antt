-- ===== src/Dialog/Login.antt =====
-- The dialog and the client together: a login from the click to the request, and its end.
use qt_chat.Base.{ℕ, true, false, ◌∷◌, List, ◌≡◌, refl, sym, subst}
use qt_chat.Base.Int.{ℤ}
use qt_chat.Base.Lists.{is_empty}
use qt_chat.Wire.{packet}
use qt_chat.Client.{QtJson, wrote, aborted, connects, signal, connected, unconnected, put}
use qt_chat.Client.Calls.{ask_login, log_out, login_request, send, connect_to}
use qt_chat.Client.Events.{on_connected}
use qt_chat.Client.Reconnect
use qt_chat.Client.Quiet.{Quiet}
use qt_chat.Client.Reconnect.{Event, all_no_link, log_out_final}
use qt_chat.Dialog.{
  Pending, nothing, login, reg, Dialog, on_login_clicked, on_retry_timeout, on_link_up,
}

module _ (J : QtJson) where
  open J use {Array, compact}

  -- A click on the login button without a connection, both fields filled, while the client is not
  -- to log in again by itself; then the connection comes up. The client aborted its socket,
  -- connected to its server, said so, and wrote the login with the id and the password of the
  -- click, and nothing else; the login is pending and the dialog's timer and the client's timer
  -- run.
  pub click_logs_in :
      (now : ℕ) (id : ℤ) (d : Dialog Array)
      → is_empty d.login_id ≡ false
      → is_empty d.login_pwd ≡ false
      → d.client.want_relogin ≡ false
      → let clicked = on_login_clicked J now unconnected id d in
        let up = on_link_up J now (record clicked { client = on_connected J now clicked.client }) in
        (up.client.trace
          ≡ wrote (packet (compact (login_request J id d.login_pwd)))
            ∷ signal connected
            ∷ connects d.client.server_ip d.client.server_port
            ∷ aborted
            ∷ d.client.trace)
        × (up.pending ≡ login)
        × (up.retry ≡ true)
        × (up.client.login_timeout ≡ true)
  unfolding on_login_clicked on_link_up on_connected ask_login connect_to send put
  click_logs_in now id d h k r = rw (h, k, r) (refl, refl, refl, refl)

  timeout-client :
      (p : Pending) (now : ℕ) (d : Dialog Array)
      → d.pending ≡ p
      → ((on_retry_timeout J now d).client ≡ log_out J now d.client)
        × ((on_retry_timeout J now d).pending ≡ nothing)
        × ((on_retry_timeout J now d).inputs ≡ true)
        × ((on_retry_timeout J now d).retry ≡ false)
  unfolding on_retry_timeout
  timeout-client nothing now d e = rw e (refl, refl, refl, refl)
  timeout-client login now d e = rw e (refl, refl, refl, refl)
  timeout-client reg now d e = rw e (refl, refl, refl, refl)

  -- After the timeout of the dialog, with a client that was not logged out: nothing is pending, the
  -- buttons are on, the timer is off, and whatever reads, losses, errors and timers follow in which
  -- the socket does not come up, the client stays logged out and neither connects nor writes after
  -- its logout.
  pub timeout_gives_up :
      (now : ℕ) (es : List Event) (d : Dialog Array)
      → d.client.intentional ≡ false
      → all_no_link es ≡ true
      → let out = on_retry_timeout J now d in
        (out.pending ≡ nothing)
        × (out.inputs ≡ true)
        × (out.retry ≡ false)
        × Quiet (log_out J now d.client).trace (Reconnect.run J es out.client)
  timeout_gives_up now es d h n =
      let (c, p, i, r) = timeout-client d.pending now d refl in
      (
        p,
        i,
        r,
        subst (λ k. Quiet (log_out J now d.client).trace (Reconnect.run J es k)) (sym c)
            (log_out_final J now es d.client h n),
      )
