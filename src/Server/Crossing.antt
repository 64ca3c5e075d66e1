-- ===== src/Server/Crossing.antt =====
-- A chat message between users on two server processes, through Redis.
use qt_chat.Base.{◌≡◌, refl, sym, ap, ◌∙◌, true, ◌∷◌, none, some}
use qt_chat.Base.Tests.{if-true}
use qt_chat.Base.Int.{ℤ}
use qt_chat.Base.Lists.{Str}
use qt_chat.Base.Map.{Map, lookup, int_eq}
use qt_chat.Server.Api.{JsonApi, Mysql, Pubsub}
use qt_chat.Server.State.{Conn, State, published, emit, ◌>>=◌}
use qt_chat.Server.Service.{find_conn, send_json}
use qt_chat.Server.Chat.{one_chat, redis_message, on_channel, send_parsed}
use qt_chat.Server.Routing.{Serving, table_online, deliver_to, away, delivery, one_chat_once}

module _ (J : JsonApi) (D : Mysql) (R : Pubsub) (up : Serving D) where
  open J use {Json, contains, get_int, dump, parse}
  open D use {Db}
  open R use {Link}

  published_only :
      (toid : ℤ) (msg : Str) (m : Map ℤ Conn) (db : Db)
      → lookup toid m ≡ none
      → table_online J D R db toid ≡ true
      → delivery J D R m db msg toid ≡ published toid msg
  unfolding delivery
  published_only toid msg m db nobody on =
      ap (λ o. deliver_to J D R o (away J D R db toid msg) msg) nobody ∙ sym (if-true _ _ on)

  -- While the pool gives connections: a well-formed chat message whose receiver is not connected to
  -- the sender's server `a`, and is online by the table, makes `a` publish it on the receiver's
  -- channel, as its only call; and the server `b` where the receiver is connected, on what it gets
  -- from that channel and can parse back, makes the one call that a delivery within `b` makes, with
  -- its connections and tables as before.
  pub crosses_servers :
      (js : Json) (toid fromid : ℤ) (a b : State Db Link) (c : Conn)
      → contains js "id" ≡ true
      → contains js "toid" ≡ true
      → get_int js "toid" ≡ some toid
      → get_int js "id" ≡ some fromid
      → lookup toid a.conns ≡ none
      → table_online J D R a.db toid ≡ true
      → lookup toid b.conns ≡ some c
      → parse (dump js) ≡ some js
      → ((one_chat J D R js a).1.trace ≡ published toid (dump js) ∷ a.trace)
        × ((redis_message J D R toid (dump js) b).1.trace
            ≡ delivery J D R b.conns b.db (dump js) toid ∷ b.trace)
        × ((redis_message J D R toid (dump js) b).1.conns ≡ b.conns)
        × ((redis_message J D R toid (dump js) b).1.db ≡ b.db)
  unfolding redis_message on_channel send_parsed send_json find_conn delivery emit ◌>>=◌
  crosses_servers js toid fromid a b c p q e f nobody on there back = (
    (one_chat_once J D R up js toid fromid a p q e f).trace
        ∙ ap (λ ev. ev ∷ a.trace) (published_only toid (dump js) a.conns a.db nobody on),
    rw (there, back) refl,
    rw (there, back) refl,
    rw (there, back) refl,
  )
