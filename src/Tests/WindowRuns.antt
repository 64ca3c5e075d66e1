-- ===== src/Tests/WindowRuns.antt =====
-- The chat window of user 5: a message of user 7 waits, and another comes in after a click on 7.
use qt_chat.Server.Replies.{msg_code}
use qt_chat.Base.{
  sym, ◌∙◌, ◌≡◌, ◌≢◌, refl, true, false, List, [], ◌∷◌, ◌++◌, Option, some, map, arith,
}
use qt_chat.Base.Int.{ℤ, pos, minus_one}
use qt_chat.Base.Tests.{is_some, if◌then◌else◌}
use qt_chat.Base.Lists.{Str, codes, str_eq, take, drop, length}
use qt_chat.Server.Api.{Field, num, text}
use qt_chat.Base.Map.{lookup, insert, erase}
use qt_chat.Client.{QtJson, Client}
use qt_chat.Window.{QtText, Bubble, Item, Window}
use qt_chat.Window.Chat.{bubble, history_of}
use qt_chat.Window.Slots.{open_window}
use qt_chat.Window.Runs.{
  Event, item_clicked, chat_msg, group_msg, logged_in, typed, send_clicked, pick, run,
  offline_entries, log,
}
use qt_chat.Window.Pushes.{newest}
use qt_chat.Window.Refines.{histories_keep_newest}
use qt_chat.Window.View.{all_only_chats, chat_ends_with_history}
use qt_chat.Window.Counts.{unread}
use qt_chat.Window.Unread.{counted_over, unread_since_click}
use qt_chat.Tests.World.{Fields, find_field}

abbrev pub int_or_zero : Option Field → ℤ
int_or_zero (some (num n)) = n
int_or_zero _ = pos 0

abbrev pub text_or_empty : Option Field → Str
text_or_empty (some (text s)) = s
text_or_empty _ = []

-- The text "A" is a chat message of user 7, and any other a message in group 3.
abbrev parse_text : Str → Option Fields
parse_text s =
    if str_eq (take 1 s) (codes "A")
    then some (
        ("msgid", num (pos 6))
        ∷ ("id", num (pos 7))
        ∷ ("name", text (codes "bob"))
        ∷ ("msg", text (drop 1 s))
        ∷ [])
    else some (("msgid", num (pos 10)) ∷ ("groupid", num (pos 3)) ∷ ("msg", text s) ∷ [])

abbrev pub qt : QtJson
qt = record {
  Json = Fields;
  Array = List Str;
  contains = λ js k. is_some (find_field k js);
  to_int = λ js k. int_or_zero (find_field k js);
  to_text = λ js k. text_or_empty (find_field k js);
  array = λ js k. [];
  object = λ fs. fs;
  compact = λ js. codes "{}";
  parse = parse_text;
}

abbrev pub words : QtText (List Str)
words = record { trimmed = λ s. s; before_bracket = λ s. s; texts = λ ss. ss }

abbrev pub core : Client (List Str)
core = record {
  my_id = pos 5;
  my_name = codes "ann";
  password = codes "pw";
  want_relogin = true;
  intentional = false;
  recv_buf = [];
  host = codes "h";
  port = 6000;
  server_ip = codes "h";
  server_port = 6000;
  last_data = 0;
  reconnect = false;
  login_timeout = false;
  heartbeat = true;
  heartbeat_timeout = true;
  trace = [];
}

pub pos_not_minus_one : ¬ (pos 7 ≡ minus_one)
pos_not_minus_one e = ground (arith, e)

abbrev start : Window (List Str)
start = open_window qt words core (pos 5) (codes "ann") [] [] (codes "Ahi" ∷ [])

abbrev bob : Item
bob = record { is_group = false; id = pos 7; label = codes "bob"; badge = 1; lit = true }

-- The chat of user 7 is opened, both sides write, the client logs in again, and a group writes.
abbrev session : List (Event (List Str))
session =
    item_clicked bob
    ∷ chat_msg (pos 7) (codes "bob") (codes "you there?") (codes "t")
    ∷ typed (codes "yes")
    ∷ send_clicked 9 (codes "t") (codes "t")
    ∷ logged_in (codes "Ame" ∷ codes "Bus" ∷ [])
    ∷ group_msg (pos 3) (pos 8) (codes "eve") (codes "hey") (codes "t")
    ∷ []

histories_keep_newest_example :
    history_of false (pos 7) (run qt words session start)
    ≡ newest (
        pick false
          (pos 7)
          (offline_entries qt words (codes "Ahi" ∷ []) ++ log qt words session start))
histories_keep_newest_example =
    histories_keep_newest qt words false (pos 7) (pos 5) core (codes "ann") [] [] (codes "Ahi" ∷ [])
      session

four_messages : length (history_of false (pos 7) (run qt words session start)) ≡ 4
unfolding run open_window find_field str_eq lookup insert erase msg_code
four_messages = refl

bob_is_open : (run qt words session start).current ≡ pos 7
unfolding run open_window find_field str_eq lookup insert erase msg_code
bob_is_open = refl

is_open : (run qt words session start).current ≢ minus_one
is_open e = absurd (pos_not_minus_one (sym bob_is_open ∙ e))

brings_chats : all_only_chats qt words session ≡ true
unfolding all_only_chats find_field str_eq msg_code
brings_chats = refl

chat_ends_with_history_example :
    let w = run qt words session start in
    (old : List Bubble) × (w.view ≡ old ++ map bubble (history_of w.current_group w.current w))
chat_ends_with_history_example =
    chat_ends_with_history qt words core (pos 5) (codes "ann") [] [] (codes "Ahi" ∷ []) session
      brings_chats is_open

unread_since_click_example :
    unread false (pos 7) (run qt words session start)
    ≡ counted_over qt words false
        (pos 7)
        session
        start
        (length (pick false (pos 7) (offline_entries qt words (codes "Ahi" ∷ []))))
unread_since_click_example =
    unread_since_click qt words false (pos 7) (pos 5) core (codes "ann") [] [] (codes "Ahi" ∷ [])
      session

-- The click clears one, the message to the open chat does not count, and the offline one does.
one_unread : unread false (pos 7) (run qt words session start) ≡ 1
unfolding run open_window find_field str_eq lookup insert erase msg_code
one_unread = refl

two_unread_of_the_group : unread true (pos 3) (run qt words session start) ≡ 2
unfolding run open_window find_field str_eq lookup insert erase msg_code
two_unread_of_the_group = refl
