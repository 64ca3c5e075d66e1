-- ===== src/Tests/ClientRuns.antt =====
-- The client's theorems on a client with user 5 in a session.
use qt_chat.Base.{◌≡◌, refl, true, false, [], ◌∷◌, Option, none, some}
use qt_chat.Base.Int.{ℤ, pos}
use qt_chat.Base.Tests.{is_some}
use qt_chat.Base.Lists.{codes}
use qt_chat.Wire.{packet}
use qt_chat.Client.{
  QtJson, Client, wrote, aborted, connects, signal, connected, disconnected, unconnected,
}
use qt_chat.Client.Calls.{log_out}
use qt_chat.Client.Quiet.{Quiet}
use qt_chat.Client.Reconnect.{
  dropped, failed, reconnect_fires, linked, reads, all_no_link, run, log_out_final,
  late_link_revives, relogin_after_drop,
}
use qt_chat.Tests.World.{Fields, find_field}

abbrev int_or_zero : Option ℤ → ℤ
int_or_zero none = pos 0
int_or_zero (some n) = n

-- Every object is a heartbeat.
abbrev pub qt : QtJson
qt = record {
  Json = Fields;
  Array = Unit {0};
  contains = λ js k. is_some (find_field k js);
  to_int = λ js k. pos 13;
  to_text = λ js k. [];
  array = λ js k. tt;
  object = λ fs. fs;
  compact = λ js. codes "{}";
  parse = λ s. some [];
}

abbrev pub session : Client (Unit {0})
session = record {
  my_id = pos 5;
  my_name = codes "ann";
  password = codes "pw";
  want_relogin = true;
  intentional = false;
  recv_buf = [];
  host = codes "h";
  port = 6000;
  server_ip = codes "h";
  server_port = 6000;
  last_data = 0;
  reconnect = false;
  login_timeout = false;
  heartbeat = true;
  heartbeat_timeout = true;
  trace = [];
}

log_out_final_example : Quiet (log_out qt 9 session).trace (
    run qt
      (reads 9 (codes "ab") ∷ dropped ∷ failed [] ∷ reconnect_fires unconnected ∷ [])
      (log_out qt 9 session))
unfolding all_no_link
log_out_final_example =
    log_out_final qt 9
      (reads 9 (codes "ab") ∷ dropped ∷ failed [] ∷ reconnect_fires unconnected ∷ []) session refl
      refl

late_link_revives_example :
    let out = log_out qt 9 session in
    let d = run qt (linked 10 ∷ dropped ∷ reconnect_fires unconnected ∷ []) out in
    (d.intentional ≡ false)
    × (d.reconnect ≡ true)
    × (d.trace
        ≡ connects (codes "h") 6000 ∷ aborted ∷ signal disconnected ∷ signal connected ∷ out.trace)
late_link_revives_example = late_link_revives qt 9 10 session refl

relogin_after_drop_example :
    let d = run qt (dropped ∷ reconnect_fires unconnected ∷ linked 9 ∷ []) session in
    (d.trace
      ≡ wrote (packet (codes "{}"))
        ∷ connects (codes "h") 6000
        ∷ aborted
        ∷ signal disconnected
        ∷ [])
    × (d.login_timeout ≡ true)
    × (d.reconnect ≡ false)
    × (d.recv_buf ≡ [])
relogin_after_drop_example = relogin_after_drop qt 9 session refl refl
