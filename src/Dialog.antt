-- ===== src/Dialog.antt =====
-- The login dialog of the Qt client, `LoginDialog` (QtClient/Client/logindialog.cpp): its fields,
-- its slots, and the `ChatClient` that it drives. `now` is `time(NULL)`, `link` the state of the
-- socket, and the numbers that Qt reads from the line edits are arguments.
pub mod Runs
pub mod Login
use qt_chat.Base.{ℕ, Bool, true, false, ◌||◌, [], Option, none, some, ◌++◌}
use qt_chat.Base.Tests.{if◌then◌else◌}
use qt_chat.Base.Int.{ℤ, minus_one}
use qt_chat.Base.Lists.{Str, codes, is_empty}
use qt_chat.Server.Models.Text.{decimal}
use qt_chat.Client.{QtJson, Client, Socket, is_connected, unconnected, busy}
use qt_chat.Client.Calls.{connect_to, ask_login, ask_reg, log_out, set_server_ip, set_server_port}

-- `PendingAction`
pub data Pending : Type 0 where
  nothing : Pending
  login : Pending
  reg : Pending

-- The colours of a status line.
pub data Tone : Type 0 where
  plain : Tone
  waiting : Tone
  failure : Tone
  success : Tone

-- `inputs` is what `setInputsEnabled` was last told: the cancel button is visible when it is
-- false. `retry` is whether the timer runs; `accepted` is whether `accept` was called.
pub record Dialog (A : Type 0) : Type 0 where
  pub client : Client A
  pub pending : Pending
  pub pending_id : ℤ
  pub pending_pwd : Str
  pub pending_reg_name : Str
  pub pending_reg_pwd : Str
  pub login_id : Str
  pub login_pwd : Str
  pub reg_name : Str
  pub reg_pwd : Str
  pub inputs : Bool
  pub retry : Bool
  pub login_status : Str
  pub login_tone : Tone
  pub reg_status : Str
  pub reg_tone : Tone
  pub user_id : ℤ
  pub user_name : Str
  pub friends : Option A
  pub groups : Option A
  pub offline_msgs : Option A
  pub accepted : Bool

module _ (J : QtJson) where
  open J use {Array}

  -- The members as the constructor leaves them.
  unfoldable pub new_dialog : Client Array → Dialog Array
  new_dialog client = record {
    client = client;
    pending = nothing;
    pending_id = minus_one;
    pending_pwd = [];
    pending_reg_name = [];
    pending_reg_pwd = [];
    login_id = [];
    login_pwd = [];
    reg_name = [];
    reg_pwd = [];
    inputs = true;
    retry = false;
    login_status = [];
    login_tone = plain;
    reg_status = [];
    reg_tone = plain;
    user_id = minus_one;
    user_name = [];
    friends = none;
    groups = none;
    offline_msgs = none;
    accepted = false;
  }

  -- The status lines by the pending action.
  abbrev say : Pending → Str → Dialog Array → Dialog Array
  say nothing s d = d
  say login s d = record d { login_status = s }
  say reg s d = record d { reg_status = s }

  abbrev colour : Pending → Tone → Dialog Array → Dialog Array
  colour nothing t d = d
  colour login t d = record d { login_tone = t }
  colour reg t d = record d { reg_tone = t }

  -- The slot on the timeout of `m_retryTimeout`; the timer is a single shot.
  unfoldable pub on_retry_timeout : ℕ → Dialog Array → Dialog Array
  unfolding log_out
  on_retry_timeout now d =
      let out = record d {
        client = log_out J now d.client;
        pending = nothing;
        inputs = true;
        retry = false;
      } in
      say d.pending (codes "Connection timeout, try again") (colour d.pending failure out)

  -- The slot on `connectionError`.
  unfoldable pub on_connection_error : Dialog Array → Dialog Array
  on_connection_error d = say d.pending (codes "Cannot reach server, retrying...") d

  -- The end of both clicks: connect first, or ask at once.
  abbrev reach : Socket → (Client Array → Client Array) → Client Array → Client Array
  reach is_connected ask c = ask c
  reach unconnected ask c = connect_to J c.server_ip c.server_port c
  reach busy ask c = connect_to J c.server_ip c.server_port c

  -- The rest of `onLoginClicked` for filled fields; `id` is `m_loginId->text().toInt()`.
  unfoldable pub start_login : ℕ → Socket → ℤ → Dialog Array → Dialog Array
  unfolding connect_to ask_login
  start_login now link id d = record d {
    inputs = false;
    login_tone = waiting;
    login_status = codes "Connecting...";
    pending_id = id;
    pending_pwd = d.login_pwd;
    pending = login;
    retry = true;
    client = reach link (ask_login J now id d.login_pwd) d.client;
  }

  -- `onLoginClicked`
  unfoldable pub on_login_clicked : ℕ → Socket → ℤ → Dialog Array → Dialog Array
  unfolding start_login
  on_login_clicked now link id d =
      if is_empty d.login_id || is_empty d.login_pwd
      then record d { login_status = codes "Please fill all fields" }
      else start_login now link id d

  -- The rest of `onRegisterClicked` for filled fields.
  unfoldable pub start_reg : ℕ → Socket → Dialog Array → Dialog Array
  unfolding connect_to ask_reg
  start_reg now link d = record d {
    inputs = false;
    reg_tone = waiting;
    reg_status = codes "Connecting...";
    pending_reg_name = d.reg_name;
    pending_reg_pwd = d.reg_pwd;
    pending = reg;
    retry = true;
    client = reach link (ask_reg J now d.reg_name d.reg_pwd) d.client;
  }

  -- `onRegisterClicked`
  unfoldable pub on_register_clicked : ℕ → Socket → Dialog Array → Dialog Array
  unfolding start_reg
  on_register_clicked now link d =
      if is_empty d.reg_name || is_empty d.reg_pwd
      then record d { reg_status = codes "Please fill all fields" }
      else start_reg now link d

  -- `onCancelClicked`
  unfoldable pub on_cancel_clicked : ℕ → Dialog Array → Dialog Array
  unfolding log_out
  on_cancel_clicked now d = record d {
    retry = false;
    client = log_out J now d.client;
    pending = nothing;
    inputs = true;
    login_status = [];
    reg_status = [];
  }

  abbrev ask_pending : ℕ → Pending → Dialog Array → Client Array
  ask_pending now nothing d = d.client
  ask_pending now login d = ask_login J now d.pending_id d.pending_pwd d.client
  ask_pending now reg d = ask_reg J now d.pending_reg_name d.pending_reg_pwd d.client

  -- `onConnected`
  unfoldable pub on_link_up : ℕ → Dialog Array → Dialog Array
  unfolding ask_login ask_reg
  on_link_up now d = record d { client = ask_pending now d.pending d }

  -- `onLoginSuccess`
  unfoldable pub on_login_success : ℤ → Str → Array → Array → Array → Dialog Array → Dialog Array
  on_login_success id name friends groups offline d = record d {
    user_id = id;
    user_name = name;
    friends = some friends;
    groups = some groups;
    offline_msgs = some offline;
    pending = nothing;
    retry = false;
    accepted = true;
  }

  -- `onLoginFailed`
  unfoldable pub on_login_failed : Str → Dialog Array → Dialog Array
  on_login_failed reason d = record d {
    retry = false;
    inputs = true;
    pending = nothing;
    login_tone = failure;
    login_status = reason;
  }

  -- `onRegSuccess`
  unfoldable pub on_reg_success : ℤ → Dialog Array → Dialog Array
  on_reg_success id d = record d {
    retry = false;
    inputs = true;
    pending = nothing;
    reg_tone = success;
    reg_status = codes "Registered! ID: " ++ decimal id;
    reg_name = [];
    reg_pwd = [];
  }

  -- `onRegFailed`
  unfoldable pub on_reg_failed : Str → Dialog Array → Dialog Array
  on_reg_failed reason d = record d {
    retry = false;
    inputs = true;
    pending = nothing;
    reg_tone = failure;
    reg_status = reason;
  }

  -- `showServerSettings`, with what the settings dialog gave.
  abbrev pub show_server_settings : Option (Str × ℕ) → Dialog Array → Dialog Array
  show_server_settings none d = d
  show_server_settings (some (ip, port)) d = record d {
    client = set_server_port J port (set_server_ip J ip d.client);
  }
