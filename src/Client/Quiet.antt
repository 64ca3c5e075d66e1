-- ===== src/Client/Quiet.antt =====
-- A client that is logged out on purpose, and the messages that it may still read.
use qt_chat.Base.{
  ℕ, zero, suc, Bool, true, false, not, ◌&&◌, List, [], ◌∷◌, ◌++◌, Option, none, some, ◌≡◌, refl,
  sym, ap, ◌∙◌, arith, inl, inr, ◌||◌,
}
use qt_chat.Base.Tests.{if◌then◌else◌, Bool-cases}
use qt_chat.Base.Int.{ℤ, pos, eq_ℤ}
use qt_chat.Base.Lists.{Str, length, codes}
use qt_chat.Base.Map.{Map, lookup, int_eq}
use qt_chat.Wire.{Frame, incomplete, rejected, frame, next_frame, serve, on_message}
use qt_chat.Client.{
  QtJson, Client, Out, wrote, aborted, connects, disconnects, signal, Signal, put, login_success,
  login_failed, reg_success, reg_failed, name_updated, name_update_failed,
}
use qt_chat.Client.Calls.{reset_login_state}
use qt_chat.Client.Messages.{
  welcome, on_login_ack, on_reg_ack, on_name_reply, cases, or_nothing, handle_message, on_document,
  handle_bytes, on_ready_read,
}

-- Calls that bring bytes or a connection to the network.
abbrev pub is_silent : {A : Type 0} → Out A → Bool
is_silent (wrote s) = false
is_silent (connects host port) = false
is_silent aborted = true
is_silent disconnects = true
is_silent (signal s) = true

abbrev pub all_silent : {A : Type 0} → List (Out A) → Bool
all_silent [] = true
all_silent (o ∷ os) = is_silent o && all_silent os

-- The client is logged out on purpose, neither the timer that reconnects nor the timers that wait
-- for an answer run, and since `base` it neither wrote nor connected.
pub record Quiet {A : Type 0} (base : List (Out A)) (c : Client A) : Type 0 where
  pub on_purpose : c.intentional ≡ true
  pub no_reconnect : c.reconnect ≡ false
  pub no_login : c.login_timeout ≡ false
  pub no_heartbeat_timeout : c.heartbeat_timeout ≡ false
  pub since : (outs : List (Out A)) × (c.trace ≡ outs ++ base) × (all_silent outs ≡ true)

module _ (J : QtJson) (base : List (Out J.Array)) where
  open J use {Json, Array, contains, to_int, to_text, array, parse}

  abbrev pub Keeps : (Client Array → Client Array) → Type 0
  Keeps f = (c : Client Array) → Quiet base c → Quiet base (f c)

  pub put-Keeps : (o : Out Array) → is_silent o ≡ true → Keeps (put o)
  unfolding put
  put-Keeps o h c q =
      let (outs, e, s) = q.since in
      record {
        on_purpose = q.on_purpose;
        no_reconnect = q.no_reconnect;
        no_login = q.no_login;
        no_heartbeat_timeout = q.no_heartbeat_timeout;
        since = (o ∷ outs, ap (◌∷◌ o) e, ground (arith, h, s));
      }

  if-Keeps :
      (b : Bool) (f g : Client Array → Client Array)
      → Keeps f
      → Keeps g
      → Keeps (if b then f else g)
  if-Keeps true f g h k = h
  if-Keeps false f g h k = k

  if-Quiet :
      (b : Bool) (c d : Client Array)
      → Quiet base c
      → Quiet base d
      → Quiet base (if b then c else d)
  if-Quiet true c d h k = h
  if-Quiet false c d h k = k

  -- Fields that say nothing of timers, calls and the logout.
  same-Quiet :
      (c d : Client Array)
      → Quiet base c
      → (d.intentional ≡ c.intentional)
        × (d.reconnect ≡ c.reconnect)
        × (d.login_timeout ≡ c.login_timeout)
        × (d.heartbeat_timeout ≡ c.heartbeat_timeout)
        × (d.trace ≡ c.trace)
      → Quiet base d
  same-Quiet c d q (i, r, l, t, e) =
      let (outs, f, s) = q.since in
      record {
        on_purpose = i ∙ q.on_purpose;
        no_reconnect = r ∙ q.no_reconnect;
        no_login = l ∙ q.no_login;
        no_heartbeat_timeout = t ∙ q.no_heartbeat_timeout;
        since = (outs, e ∙ f, s);
      }

  abbrev AllKeep : Map ℤ (Client Array → Client Array) → Type 0
  AllKeep [] = Unit {0}
  AllKeep ((k, f) ∷ m) = Keeps f × AllKeep m

  lookup-Keeps :
      (k : ℤ) (m : Map ℤ (Client Array → Client Array))
      → AllKeep m
      → Keeps (or_nothing J (lookup k m))
  unfolding lookup
  lookup-Keeps k [] h = λ c q. q
  lookup-Keeps k ((j, f) ∷ m) h = elim (Bool-cases (eq_ℤ j k)) [
    | inl t ↦ rw t h.0
    | inr n ↦ rw n (lookup-Keeps k m h.1)
  ]

  tell-Keeps : (s : Signal Array) → Keeps (put (signal s))
  tell-Keeps s = put-Keeps (signal s) refl

  welcome-Keeps : (js : Json) → Keeps (welcome J js)
  unfolding welcome
  welcome-Keeps js c q =
      let said =
        tell-Keeps
          (login_success (to_int js "id") (to_text js "name") (array js "friends")
            (array js "groups") (array js "offlinemsg"))
          (record c { my_id = to_int js "id"; my_name = to_text js "name" })
          (same-Quiet c _ q (refl, refl, refl, refl, refl)) in
      if-Quiet (not (contains js "id") || not (contains js "name")) c _ q
        (same-Quiet _ _ said (refl, refl, refl, refl, refl))

  on_login_ack-Keeps : (js : Json) → Keeps (on_login_ack J js)
  unfolding on_login_ack reset_login_state
  on_login_ack-Keeps js c q =
      let d : Client Array = record c { login_timeout = false } in
      let stopped = same-Quiet c d q (refl, refl, sym q.no_login, refl, refl) in
      if-Quiet (not (contains js "errno")) d _ stopped (
        if-Quiet (eq_ℤ (to_int js "errno") (pos 0)) (welcome J js d) _ (welcome-Keeps js d stopped)
          (tell-Keeps (login_failed (to_text js "errmsg")) _
            (same-Quiet d _ stopped (refl, sym q.no_reconnect, refl, refl, refl))))

  on_reg_ack-Keeps : (js : Json) → Keeps (on_reg_ack J js)
  unfolding on_reg_ack
  on_reg_ack-Keeps js =
      if-Keeps (eq_ℤ (to_int js "errno") (pos 0)) (put (signal (reg_success (to_int js "id"))))
        (put (signal (reg_failed (codes "register failed")))) (tell-Keeps _) (tell-Keeps _)

  on_name_reply-Keeps : (js : Json) → Keeps (on_name_reply J js)
  unfolding on_name_reply
  on_name_reply-Keeps js =
      if-Keeps (contains js "errno") (put (signal (name_update_failed (to_text js "errmsg"))))
        (put (signal (name_updated (to_int js "id") (to_text js "name")))) (tell-Keeps _)
        (tell-Keeps _)

  handle_message-Keeps : (js : Json) → Keeps (handle_message J js)
  unfolding handle_message cases
  handle_message-Keeps js = lookup-Keeps (to_int js "msgid") (cases J js) (
    on_login_ack-Keeps js,
    (
      on_reg_ack-Keeps js,
      (
        tell-Keeps _,
        (
          tell-Keeps _,
          (
            tell-Keeps _,
            (
              tell-Keeps _,
              (
                tell-Keeps _,
                (
                  tell-Keeps _,
                  (
                    on_name_reply-Keeps js,
                    (
                      (λ c q.
                          same-Quiet c _ q (refl, refl, refl, sym q.no_heartbeat_timeout, refl)),
                      tt,
                    ),
                  ),
                ),
              ),
            ),
          ),
        ),
      ),
    ),
  )

  document-Keeps : (o : Option Json) → Keeps (on_document J o)
  document-Keeps none c q = q
  document-Keeps (some js) c q = handle_message-Keeps js c q

  handle_bytes-Keeps : (msg : Str) → Keeps (handle_bytes J msg)
  unfolding handle_bytes
  handle_bytes-Keeps msg = document-Keeps (parse msg)

  frame-Keeps :
      (f : Frame) (fuel : ℕ) (buf : Str) (c : Client Array)
      → ((rest msg : Str)
          → Quiet base (serve (handle_bytes J) (put aborted) fuel rest (handle_bytes J msg c)).1)
      → Quiet base c
      → Quiet base
          (elim f as (λ _. Str × Client Array) [
            | incomplete ↦ (buf, c)
            | rejected ↦ ([], put aborted c)
            | frame msg rest ↦ serve (handle_bytes J) (put aborted) fuel rest (handle_bytes J msg c)
          ]).1
  frame-Keeps incomplete fuel buf c h q = q
  frame-Keeps rejected fuel buf c h q = put-Keeps aborted refl c q
  frame-Keeps (frame msg rest) fuel buf c h q = h rest msg

  serve-Keeps :
      (fuel : ℕ) (buf : Str) (c : Client Array)
      → Quiet base c
      → Quiet base (serve (handle_bytes J) (put aborted) fuel buf c).1
  unfolding serve
  serve-Keeps zero buf c q = q
  serve-Keeps (suc fuel) buf c q =
      frame-Keeps (next_frame buf) fuel buf c
        (λ rest msg. serve-Keeps fuel rest (handle_bytes J msg c) (handle_bytes-Keeps msg c q)) q

  pub reads-Keeps : (now : ℕ) (chunk : Str) → Keeps (on_ready_read J now chunk)
  unfolding on_ready_read on_message
  reads-Keeps now chunk c q =
      let d : Client Array = record c { last_data = now } in
      let buf : Str = c.recv_buf ++ chunk in
      same-Quiet _ _
        (serve-Keeps (length buf) buf d (same-Quiet c d q (refl, refl, refl, refl, refl)))
        (refl, refl, refl, refl, refl)
