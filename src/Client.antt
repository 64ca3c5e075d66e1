-- ===== src/Client.antt =====
-- The Qt client's core, `ChatClient` (QtClient/Client/chatclient.cpp): its fields, which timers run,
-- and what it does to the socket and tells the windows. The state of the socket is an argument of
-- the slots that read it, and Qt's json classes are a parameter.
pub mod Calls
pub mod Events
pub mod Messages
pub mod Quiet
pub mod Reconnect
pub mod Reading
use qt_chat.Base.{ℕ, String, Bool, List, ◌∷◌, Option}
use qt_chat.Base.Int.{ℤ}
use qt_chat.Base.Lists.{Str}
use qt_chat.Server.Api.{Field}

-- `QJsonObject` and `QJsonDocument`. `to_int` and `to_text` give 0 and the empty string where there
-- is no such value, and `array` an empty array; `parse` is `none` on a parse error.
pub record QtJson : Type 1 where
  pub Json : Type 0
  pub Array : Type 0
  pub contains : Json → String → Bool
  pub to_int : Json → String → ℤ
  pub to_text : Json → String → Str
  pub array : Json → String → Array
  pub object : List (String × Field) → Json
  pub compact : Json → Str
  pub parse : Str → Option Json

-- The signals of `ChatClient`, with their arguments.
pub data Signal (A : Type 0) : Type 0 where
  connected : Signal A
  disconnected : Signal A
  connection_error : Str → Signal A
  login_success : ℤ → Str → A → A → A → Signal A
  login_failed : Str → Signal A
  reg_success : ℤ → Signal A
  reg_failed : Str → Signal A
  received_chat : ℤ → Str → Str → Str → Signal A
  received_group : ℤ → ℤ → Str → Str → Str → Signal A
  friend_state_changed : ℤ → Str → Signal A
  friend_added : ℤ → Str → Str → Signal A
  group_created : ℤ → Str → Signal A
  group_joined : ℤ → Str → Signal A
  name_updated : ℤ → Str → Signal A
  name_update_failed : Str → Signal A

-- The calls on the socket, and the signals.
pub data Out (A : Type 0) : Type 0 where
  wrote : Str → Out A
  aborted : Out A
  connects : Str → ℕ → Out A
  disconnects : Out A
  signal : Signal A → Out A

-- `m_socket->state()`; `busy` is every state but the two that the code names.
pub data Socket : Type 0 where
  is_connected : Socket
  unconnected : Socket
  busy : Socket

-- The fields of `ChatClient`, whether each timer runs, and the calls so far, the newest first.
pub record Client (A : Type 0) : Type 0 where
  pub my_id : ℤ
  pub my_name : Str
  pub password : Str
  pub want_relogin : Bool
  pub intentional : Bool
  pub recv_buf : Str
  -- `m_host` and `m_port`, the last address of `connectToServer`
  pub host : Str
  pub port : ℕ
  -- `m_serverIp` and `m_serverPort`, the settings
  pub server_ip : Str
  pub server_port : ℕ
  pub last_data : ℕ
  pub reconnect : Bool
  pub login_timeout : Bool
  pub heartbeat : Bool
  pub heartbeat_timeout : Bool
  pub trace : List (Out A)

unfoldable pub put : {A : Type 0} → Out A → Client A → Client A
put o c = record c { trace = o ∷ c.trace }
