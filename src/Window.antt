-- ===== src/Window.antt =====
-- The chat window of the Qt client, `Widget` (QtClient/Client/widget.h): its fields, the tree of
-- friends and groups, and the bubbles of the open chat. Qt's string functions are a parameter; the
-- calls on the `ChatClient` are those of the module Client.
pub mod Tree
pub mod Chat
pub mod Actions
pub mod Slots
pub mod Runs
pub mod Pushes
pub mod History
pub mod Refines
pub mod Ends
pub mod Screens
pub mod View
pub mod Counts
pub mod Unread
use qt_chat.Base.{ℕ, Bool, List, Option}
use qt_chat.Base.Int.{ℤ}
use qt_chat.Base.Lists.{Str}
use qt_chat.Base.Map.{Map}
use qt_chat.Client.{Client}

-- `QString::trimmed`, `QString::section(" [", 0, 0)`, and `QJsonArray` with each element read as a
-- text.
pub record QtText (A : Type 0) : Type 0 where
  pub trimmed : Str → Str
  pub before_bracket : Str → Str
  pub texts : A → List Str

-- `ChatMsg`
pub record ChatMsg : Type 0 where
  pub is_right : Bool
  pub name : Str
  pub time : Str
  pub text : Str

-- What `addMessage` puts into the layout: the header if there is one, and the text.
pub record Bubble : Type 0 where
  pub right : Bool
  pub header : Option Str
  pub body : Str

-- An item below a root of the tree: `is_group` is the type 2 at `Qt::UserRole`, `id` and `badge`
-- are the data after it, and `lit` is the colour and the weight of a friend who is online.
pub record Item : Type 0 where
  pub is_group : Bool
  pub id : ℤ
  pub label : Str
  pub badge : ℕ
  pub lit : Bool

pub record Root : Type 0 where
  pub name : Str
  pub expanded : Bool
  pub children : List Item

-- The text of `m_chatTitle`, and the three arguments of the text of `m_userLabel`.
pub data Title : Type 0 where
  select_one : Title
  offline : Title
  with_group : Str → Title
  with_friend : Str → Title

pub record UserLabel : Type 0 where
  pub green : Bool
  pub shown_name : Str
  pub shown_id : ℤ

-- The fields of `Widget`, what its widgets show, and the client. `current` is -1 before a chat is
-- opened. Unread counts are unbounded.
pub record Window (A : Type 0) : Type 0 where
  pub client : Client A
  pub my_id : ℤ
  pub user_name : Str
  pub pending_name : Str
  pub current : ℤ
  pub current_name : Str
  pub current_group : Bool
  pub online : Bool
  pub unread_friend : Map ℤ ℕ
  pub unread_group : Map ℤ ℕ
  pub friend_history : Map ℤ (List ChatMsg)
  pub group_history : Map ℤ (List ChatMsg)
  pub tree : List Root
  pub view : List Bubble
  pub input : Str
  pub input_enabled : Bool
  pub title : Title
  pub user_label : UserLabel
  pub visible : Bool
  pub switch_requested : Bool
