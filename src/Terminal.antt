-- ===== src/Terminal.antt =====
-- The command line client (ChatServer/src/client/main.cpp): its globals, what it sends and prints,
-- and where its main thread stands. Lines from the keyboard and what `recv` gives are arguments.
pub mod Requests
pub mod Commands
pub mod Replies
pub mod Talking
pub mod Parsing
use qt_chat.Base.{ℕ, String, Bool, List, ◌∷◌, Option}
use qt_chat.Base.Int.{ℤ}
use qt_chat.Base.Lists.{Str}
use qt_chat.Server.Api.{JsonApi}
use qt_chat.Server.Models.{User, Group}

-- `get<vector<string>>()`, `none` where it throws, and what `<<` prints of a value.
pub record JsonLists (J : JsonApi) : Type 0 where
  pub get_texts : J.Json → String → Option (List Str)
  pub shown : J.Json → String → Str

-- The calls of `send`, and what is printed: messages by their fields, other lines by their text.
pub data Effect : Type 0 where
  transmits : Str → Effect
  chat_line : Str → Str → Str → Str → Effect
  group_line : Str → Str → Str → Str → Str → Effect
  user_data : User → List User → List Group → Effect
  help_text : Effect
  prints : Str → Effect

-- `choosing` is the first menu; `waiting_login` and `waiting_reg` are before `sem_wait`; `in_menu` is
-- `mainMenu`; `ended` is after `exit`, or after an exception that nothing caught.
pub data Stage : Type 0 where
  choosing : Stage
  waiting_login : Stage
  waiting_reg : Stage
  in_menu : Stage
  ended : Stage

-- The globals; `posts` is the count of `rwsem`.
pub record Cli : Type 0 where
  pub user : User
  pub friends : List User
  pub groups : List Group
  pub running : Bool
  pub logged_in : Bool
  pub posts : ℕ
  pub place : Stage
  pub trace : List Effect

unfoldable pub tell : Effect → Cli → Cli
tell o c = record c { trace = o ∷ c.trace }
