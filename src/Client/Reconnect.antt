-- ===== src/Client/Reconnect.antt =====
-- What the client does when the connection is lost: in a session, and after a logout.
use qt_chat.Base.{ℕ, ◌≡◌, refl, ap, subst, Bool, true, false, ◌&&◌, List, [], ◌∷◌, inl, inr, arith}
use qt_chat.Base.Tests.{if◌then◌else◌, if-true, if-false, Bool-cases}
use qt_chat.Base.Lists.{Str}
use qt_chat.Wire.{packet}
use qt_chat.Client.{
  QtJson, Client, Out, wrote, aborted, connects, signal, connected, disconnected, Socket,
  is_connected, unconnected, busy, put,
}
use qt_chat.Client.Calls.{login_request, ask_login, send, log_out}
use qt_chat.Client.Events.{
  on_connected, on_disconnected, on_error, on_reconnect_timeout, on_login_timeout,
  on_heartbeat_timeout, send_heartbeat,
}
use qt_chat.Client.Messages.{on_ready_read}
use qt_chat.Client.Quiet.{Quiet, reads-Keeps}

-- What the event loop may call: the four slots of the socket, and the slots of the timers that run.
pub data Event : Type 0 where
  linked : ℕ → Event
  reads : ℕ → Str → Event
  dropped : Event
  failed : Str → Event
  reconnect_fires : Socket → Event
  login_timer_fires : Event
  heartbeat_fires : ℕ → Socket → Event
  heartbeat_timer_fires : Event

-- The socket does not come up: no connection is reported, and no timer finds it connected.
unfoldable pub no_link : Event → Bool
no_link (linked now) = false
no_link (heartbeat_fires now is_connected) = false
no_link _ = true

unfoldable pub all_no_link : List Event → Bool
unfolding no_link
all_no_link [] = true
all_no_link (e ∷ es) = no_link e && all_no_link es

module _ (J : QtJson) where
  open J use {Array, compact}

  unfoldable pub fire : Event → Client Array → Client Array
  unfolding on_connected on_ready_read on_disconnected on_error on_reconnect_timeout
      on_login_timeout on_heartbeat_timeout
  fire (linked now) c = on_connected J now c
  fire (reads now chunk) c = on_ready_read J now chunk c
  fire dropped c = on_disconnected J c
  fire (failed why) c = on_error J why c
  fire (reconnect_fires s) c = if c.reconnect then on_reconnect_timeout J s c else c
  fire login_timer_fires c = if c.login_timeout then on_login_timeout J c else c
  fire (heartbeat_fires now s) c = if c.heartbeat then send_heartbeat J now s c else c
  fire heartbeat_timer_fires c = if c.heartbeat_timeout then on_heartbeat_timeout J c else c

  unfoldable pub run : List Event → Client Array → Client Array
  run [] c = c
  run (e ∷ es) c = run es (fire e c)

  module _ (base : List (Out Array)) where
    unless_connected :
        (s : Socket) (now : ℕ) (b : Bool) (c : Client Array)
        → no_link (heartbeat_fires now s) ≡ true
        → Quiet base c
        → Quiet base (if b then send_heartbeat J now s c else c)
    unfolding send_heartbeat no_link
    unless_connected is_connected now b c n q = absurd (ground (arith, n))
    unless_connected unconnected now true c n q = q
    unless_connected unconnected now false c n q = q
    unless_connected busy now true c n q = q
    unless_connected busy now false c n q = q

    fire-Quiet :
        (e : Event) (c : Client Array) → no_link e ≡ true → Quiet base c → Quiet base (fire e c)
    unfolding fire on_disconnected on_error no_link put
    fire-Quiet (linked now) c n q = absurd (ground (arith, n))
    fire-Quiet (reads now chunk) c n q = reads-Keeps J base now chunk c q
    fire-Quiet dropped c n q =
        let (outs, e, silent) = q.since in
        rw q.on_purpose (record {
          on_purpose = refl;
          no_reconnect = q.no_reconnect;
          no_login = q.no_login;
          no_heartbeat_timeout = refl;
          since = (signal disconnected ∷ outs, ap (◌∷◌ (signal disconnected)) e, silent);
        })
    fire-Quiet (failed why) c n q = subst (Quiet base) (if-true c _ q.on_purpose) q
    fire-Quiet (reconnect_fires s) c n q = subst (Quiet base) (if-false _ c q.no_reconnect) q
    fire-Quiet login_timer_fires c n q = subst (Quiet base) (if-false _ c q.no_login) q
    fire-Quiet (heartbeat_fires now s) c n q = unless_connected s now c.heartbeat c n q
    fire-Quiet heartbeat_timer_fires c n q =
        subst (Quiet base) (if-false _ c q.no_heartbeat_timeout) q

    run-Quiet :
        (es : List Event) (c : Client Array)
        → all_no_link es ≡ true
        → Quiet base c
        → Quiet base (run es c)
    unfolding run all_no_link
    run-Quiet [] c n q = q
    run-Quiet (e ∷ es) c n q =
        run-Quiet es (fire e c) (ground (arith, n)) (fire-Quiet e c (ground (arith, n)) q)

  -- After `loginout` in a session, whatever sequence of reads, losses, errors and timers follows in
  -- which the socket does not come up: the client stays logged out, the timer that reconnects does not
  -- run, and it neither connects nor writes.
  pub log_out_final :
      (now : ℕ) (es : List Event) (c : Client Array)
      → c.intentional ≡ false
      → all_no_link es ≡ true
      → Quiet (log_out J now c).trace (run es (log_out J now c))
  unfolding log_out
  log_out_final now es c session n = run-Quiet (log_out J now c).trace es (log_out J now c) n (
      rw session (record {
        on_purpose = refl;
        no_reconnect = refl;
        no_login = refl;
        no_heartbeat_timeout = refl;
        since = ([], refl, refl);
      }))

  -- A logout while the socket is connecting does not last: if the connection then comes up and is
  -- lost again, the reconnect timer runs, and when it fires the client connects to its last address.
  pub late_link_revives :
      (now later : ℕ) (c : Client Array)
      → c.intentional ≡ false
      → let out = log_out J now c in
        let d = run (linked later ∷ dropped ∷ reconnect_fires unconnected ∷ []) out in
        (d.intentional ≡ false)
        × (d.reconnect ≡ true)
        × (d.trace
            ≡ connects c.host c.port ∷ aborted ∷ signal disconnected ∷ signal connected ∷ out.trace)
  unfolding run fire log_out on_connected on_disconnected on_reconnect_timeout send put
  late_link_revives now later c session = rw session (refl, refl, refl)

  -- When the connection of a session is lost, the reconnect timer's slot is called and the connection
  -- comes up: the timer was running by then, so that the client reports the loss, connects to the
  -- address of its last `connectToServer` and sends a login with the same id and password, with the
  -- login timer running, the reconnect timer stopped and the buffer empty.
  pub relogin_after_drop :
      (now : ℕ) (c : Client Array)
      → c.want_relogin ≡ true
      → c.intentional ≡ false
      → let d = run (dropped ∷ reconnect_fires unconnected ∷ linked now ∷ []) c in
        (d.trace
          ≡ wrote (packet (compact (login_request J c.my_id c.password)))
            ∷ connects c.host c.port
            ∷ aborted
            ∷ signal disconnected
            ∷ c.trace)
        × (d.login_timeout ≡ true)
        × (d.reconnect ≡ false)
        × (d.recv_buf ≡ [])
  unfolding run fire on_connected on_reconnect_timeout on_disconnected ask_login send put
  relogin_after_drop now c again session = elim (Bool-cases c.reconnect) [
    | inl running ↦ rw (again, session, running) (refl, refl, refl, refl)
    | inr idle ↦ rw (again, session, idle) (refl, refl, refl, refl)
  ]
