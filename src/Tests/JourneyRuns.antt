-- ===== src/Tests/JourneyRuns.antt =====
-- User 5 writes to user 7, who is connected to the same server.
use qt_chat.Base.{String, ◌≡◌, refl, ap, ◌∙◌, false, List, [], ◌∷◌, some, arith}
use qt_chat.Base.Tests.{if◌then◌else◌, is_some}
use qt_chat.Base.Int.{pos}
use qt_chat.Base.Lists.{Str, codes, str_eq}
use qt_chat.Base.Map.{lookup}
use qt_chat.Wire.{packet}
use qt_chat.Server.Api.{JsonApi}
use qt_chat.Server.State.{sent}
use qt_chat.Server.Dispatch.{server_read}
use qt_chat.Client.{QtJson, wrote, signal, received_chat}
use qt_chat.Client.Messages.{on_ready_read}
use qt_chat.Window.{Window}
use qt_chat.Window.Chat.{history_of, push_bounded}
use qt_chat.Window.Actions.{on_send}
use qt_chat.Window.Slots.{received, fresh, on_chat_msg}
use qt_chat.Journey.{field, Carried, chat_fields, chat_message_arrives}
use qt_chat.Tests.World.{
  Fields, find_field, as_int, json, tables, redis, serving, phone, laptop, with_conns,
}
use qt_chat.Tests.WindowRuns.{qt, words, core, int_or_zero, text_or_empty, pos_not_minus_one}

abbrev hello : Fields
hello = chat_fields (pos 5) (codes "ann") (pos 7) (codes "yes") (codes "noon")

-- Every text parses to the message.
abbrev on_server : JsonApi
on_server = record json { parse = λ s. some hello }

abbrev on_client : QtJson
on_client = record qt { parse = λ s. some hello }

same_field : (key : String) (fs : Fields) → find_field key fs ≡ field key fs
unfolding find_field field
same_field key [] = refl
same_field key ((k, f) ∷ fs) =
    ap (λ o. if str_eq (codes k) (codes key) then some f else o) (same_field key fs)

carried : Carried on_server on_client hello
carried = record {
  js = hello;
  qs = hello;
  there = refl;
  back = refl;
  has = λ key f e. ap is_some (same_field key hello ∙ e);
  get = λ key n e. ap as_int (same_field key hello ∙ e);
  int = λ key n e. ap int_or_zero (same_field key hello ∙ e);
  str = λ key s e. ap text_or_empty (same_field key hello ∙ e);
}

abbrev sender : Window (List Str)
sender = record (fresh on_client words core (pos 5) (codes "ann")) {
  current = pos 7;
  input = codes "yes";
}

abbrev receiver : Window (List Str)
receiver = fresh on_client words core (pos 7) (codes "bob")

chat_message_arrives_example :
    let asked = packet (codes "{}") in
    ((on_send on_client words 9 (codes "noon") (codes "noon") sender).client.trace
      ≡ wrote asked ∷ [])
    × ((server_read on_server tables redis 9 laptop asked
          (with_conns ((pos 7, phone) ∷ []))).1.trace
        ≡ sent phone asked ∷ [])
    × ((on_ready_read on_client 9 asked core).trace
        ≡ signal (received_chat (pos 5) (codes "ann") (codes "yes") (codes "noon")) ∷ [])
    × (history_of false
          (pos 5)
          (on_chat_msg on_client words (pos 5) (codes "ann") (codes "yes") (codes "noon") receiver)
        ≡ push_bounded
            (received (codes "ann") (codes "noon") (codes "yes"))
            (history_of false (pos 5) receiver))
unfolding fresh carried lookup
chat_message_arrives_example =
    chat_message_arrives on_server tables redis serving on_client words 9 (codes "noon")
      (codes "noon") sender laptop phone (with_conns ((pos 7, phone) ∷ [])) core receiver
      pos_not_minus_one refl refl refl carried (omega arith, omega arith) (omega arith, omega arith)
      refl refl
