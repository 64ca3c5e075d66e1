-- ===== src/Tests/TerminalRuns.antt =====
-- The command line client of user 5, and objects that print to one text.
use qt_chat.Base.{◌≡◌, refl, true, [], ◌∷◌, ◌++◌, none, some, arith}
use qt_chat.Base.Int.{pos}
use qt_chat.Base.Lists.{codes, take, is_empty}
use qt_chat.Base.Tests.{if◌then◌else◌}
use qt_chat.Wire.{packet}
use qt_chat.Server.Api.{JsonApi, num, text}
use qt_chat.Server.Models.Text.{atoi}
use qt_chat.Server.Replies.{msgid, one_chat_msg}
use qt_chat.Terminal.{JsonLists, Cli, in_menu, ended}
use qt_chat.Terminal.Requests.{request_bytes, transmit}
use qt_chat.Terminal.Commands.{is_space, on_line}
use qt_chat.Terminal.Replies.{on_recv}
use qt_chat.Terminal.Talking.{never_talk}
use qt_chat.Terminal.Parsing.{all_spaces, no_colon, typed_chat}
use qt_chat.Server.Dispatch.{server_read}
use qt_chat.Tests.World.{json, tables, redis, phone, with_conns}

-- The empty text does not parse.
abbrev strict : JsonApi
strict = record json {
  dump = λ js. codes "{\"msgid\":6}";
  parse = λ s. if is_empty s then none else some [];
}

abbrev lists : JsonLists strict
lists = record { get_texts = λ js k. none; shown = λ js k. [] }

abbrev ann : Cli
ann = record {
  user = record { id = pos 5; name = codes "ann"; password = []; state = codes "online" };
  friends = [];
  groups = [];
  running = true;
  logged_in = true;
  posts = 0;
  place = in_menu;
  trace = [];
}

never_talk_example :
    (server_read strict tables redis 7 phone (request_bytes strict []) (with_conns [])
      ≡ ([], with_conns []))
    × (on_recv strict lists (take 10 (packet (codes "{}"))) ann ≡ record ann { place = ended })
never_talk_example =
    never_talk strict lists tables redis 7 phone (with_conns []) [] b'm' (codes "sgid\":6}") refl
      (λ e. ground (arith, e)) refl (codes "{}") 9 ann (omega arith, omega arith)

typed_chat_example :
    on_line strict true
      (codes "noon")
      (codes "  " ++ (codes "chat:" ++ (codes "7" ++ 58 ∷ (codes "see 8:30" ++ b'!' ∷ codes " "))))
      ann
    ≡ transmit strict
        (msgid one_chat_msg
          ∷ ("id", num (pos 5))
          ∷ ("name", text (codes "ann"))
          ∷ ("toid", num (pos 7))
          ∷ ("msg", text (codes "see 8:30!"))
          ∷ ("time", text (codes "noon"))
          ∷ [])
        ann
unfolding all_spaces no_colon is_space atoi
typed_chat_example =
    typed_chat strict true (codes "noon") (codes "  ") (codes " ") (codes "7") (codes "see 8:30")
      b'!' ann refl refl refl refl
