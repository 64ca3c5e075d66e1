-- ===== src/Tests/CrossingRuns.antt =====
-- A message from user 4 to user 8, who is connected to another server.
use qt_chat.Base.{◌≡◌, refl, true, [], ◌∷◌, some}
use qt_chat.Base.Int.{pos}
use qt_chat.Base.Lists.{codes, str_eq}
use qt_chat.Base.Map.{lookup, int_eq}
use qt_chat.Server.Api.{JsonApi, num}
use qt_chat.Server.State.{published}
use qt_chat.Server.Models.{first_user, online}
use qt_chat.Server.Models.Text.{atoi}
use qt_chat.Server.Chat.{one_chat, redis_message}
use qt_chat.Server.Routing.{table_online, delivery}
use qt_chat.Server.Crossing.{crosses_servers}
use qt_chat.Tests.World.{Fields, find_field, json, tables, redis, serving, phone, with_conns}

abbrev to_user_8 : Fields
to_user_8 = ("id", num (pos 4)) ∷ ("toid", num (pos 8)) ∷ []

-- Every text parses to the message.
abbrev one_message : JsonApi
one_message = record json { parse = λ s. some to_user_8 }

user_8_online : table_online one_message tables redis tt (pos 8) ≡ true
unfolding table_online first_user atoi str_eq online
user_8_online = refl

crosses_servers_example :
    ((one_chat one_message tables redis to_user_8 (with_conns [])).1.trace
      ≡ published (pos 8) (codes "{}") ∷ [])
    × ((redis_message one_message tables redis
          (pos 8)
          (codes "{}")
          (with_conns ((pos 8, phone) ∷ []))).1.trace
        ≡ delivery one_message tables redis ((pos 8, phone) ∷ []) tt (codes "{}") (pos 8) ∷ [])
    × ((redis_message one_message tables redis
          (pos 8)
          (codes "{}")
          (with_conns ((pos 8, phone) ∷ []))).1.conns
        ≡ (pos 8, phone) ∷ [])
    × ((redis_message one_message tables redis
          (pos 8)
          (codes "{}")
          (with_conns ((pos 8, phone) ∷ []))).1.db
        ≡ tt)
unfolding find_field str_eq lookup
crosses_servers_example =
    crosses_servers one_message tables redis serving to_user_8 (pos 8) (pos 4) (with_conns [])
      (with_conns ((pos 8, phone) ∷ [])) phone refl refl refl refl refl user_8_online refl refl
