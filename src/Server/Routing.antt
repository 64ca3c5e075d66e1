-- ===== src/Server/Routing.antt =====
-- Where a message goes: `oneChat`, and the three loops of `groupChat`, against one specification of
-- the delivery to one user.
use qt_chat.Base.{
  ◌≡◌, refl, sym, ap, ◌∙◌, Bool, true, false, List, [], ◌∷◌, ◌++◌, append_assoc, Option, none, some,
}
use qt_chat.Base.Tests.{if◌then◌else◌}
use qt_chat.Base.Int.{ℤ}
use qt_chat.Base.Lists.{Str, str_eq}
use qt_chat.Base.Map.{Map, lookup, int_eq}
use qt_chat.Wire.{packet}
use qt_chat.Server.Api.{JsonApi, Mysql, Pubsub, Sql, select_user}
use qt_chat.Server.State.{Conn, State, Event, sent, ran, published, ok, pure, emit, ◌>>=◌, ◌>>◌}
use qt_chat.Server.Models.{
  online, first_user, offline_statement, with_connection, run_query, run_update, user_query,
  offline_insert,
}
use qt_chat.Server.Models.Rules.{offline_insert-Returns}
use qt_chat.Server.State.Rules.{state-bind}
use qt_chat.Server.Service.{send_json, redis_publish, find_conn}
use qt_chat.Server.Chat.{forward, send_or, route, one_chat}

-- The pool gives a connection, and that changes no table; storing an offline message changes no
-- row of the table of users.
pub record Serving (D : Mysql) : Type 0 where
  pub given : (db : D.Db) → (D.acquire db).0 ≡ true
  pub reads : (sql : Sql) (db : D.Db) → D.query sql (D.acquire db).1 ≡ D.query sql db
  pub stores :
      (id to : ℤ) (msg : Str) (db : D.Db)
      → D.query (select_user id) (D.update (offline_statement to msg (D.escape msg)) db).1
        ≡ D.query (select_user id) db

module _ (J : JsonApi) (D : Mysql) (R : Pubsub) where
  open J use {Json, contains, get_int, dump}
  open D use {Db, query, escape}
  open R use {Link}

  -- The state of the user by the table.
  unfoldable pub table_online : Db → ℤ → Bool
  table_online db id = str_eq (first_user (query (select_user id) db)).state online

  abbrev pub away : Db → ℤ → Str → Event
  away db id msg =
      if table_online db id then published id msg else ran (offline_statement id msg (escape msg))

  abbrev pub deliver_to : Option Conn → Event → Str → Event
  deliver_to (some c) e msg = sent c (packet msg)
  deliver_to none e msg = e

  -- The one delivery that a message for `id` gets.
  unfoldable pub delivery : Map ℤ Conn → Db → Str → ℤ → Event
  delivery m db msg id = deliver_to (lookup id m) (away db id msg) msg

  -- What a run did: the calls it made, the newest first, with the map and the users' rows as before.
  pub record Did (evs : List Event) (s t : State Db Link) : Type 0 where
    pub conns : t.conns ≡ s.conns
    pub users : (id : ℤ) → query (select_user id) t.db ≡ query (select_user id) s.db
    pub trace : t.trace ≡ evs ++ s.trace

  pub Did-trans :
      {xs ys : List Event} (s t u : State Db Link) → Did xs s t → Did ys t u → Did (ys ++ xs) s u
  Did-trans {xs} {ys} s t u d e = record {
    conns = e.conns ∙ d.conns;
    users = λ j. e.users j ∙ d.users j;
    trace = e.trace ∙ (ap (◌++◌ ys) d.trace ∙ sym (append_assoc ys xs s.trace));
  }

  module _ (up : Serving D) where
    pub user_query-state :
        (id : ℤ) (s : State Db Link)
        → user_query D id s
          ≡ (ok (first_user (query (select_user id) s.db)), record s { db = (D.acquire s.db).1 })
    unfolding user_query with_connection run_query ◌>>=◌
    user_query-state id s = rw (up.given s.db, up.reads (select_user id) s.db) refl

    pub offline_insert-Did :
        (id : ℤ) (msg : Str) (s : State Db Link)
        → Did (ran (offline_statement id msg (escape msg)) ∷ []) s (offline_insert D id msg s).1
    unfolding offline_insert with_connection run_update
    offline_insert-Did id msg s = record {
      conns = rw (up.given s.db) refl;
      users = λ j.
          rw (up.given s.db)
            (up.stores j id msg (D.acquire s.db).1 ∙ up.reads (select_user j) s.db);
      trace = rw (up.given s.db) refl;
    }

    -- What `forward` does after the query of the user.
    forward_then-Did :
        (b : Bool) (toid : ℤ) (msg : Str) (s t : State Db Link)
        → Did [] s t
        → Did
            ((if b then published toid msg else ran (offline_statement toid msg (escape msg))) ∷ [])
            s
            ((if b then redis_publish J D R toid msg else (offline_insert D toid msg >> pure tt))
              t).1
    unfolding redis_publish ◌>>=◌
    forward_then-Did true toid msg s t d = record {
      conns = d.conns;
      users = d.users;
      trace = ap (◌∷◌ (published toid msg)) d.trace;
    }
    forward_then-Did false toid msg s t d =
        let (b, e) = (offline_insert-Returns D toid msg).at t in
        rw (state-bind (offline_insert D toid msg) (λ _. pure tt) t e)
          (Did-trans s t _ d (offline_insert-Did toid msg t))

    pub forward-Did :
        (toid : ℤ) (msg : Str) (s : State Db Link)
        → Did (away s.db toid msg ∷ []) s (forward J D R toid msg s).1
    unfolding forward table_online ◌>>=◌
    forward-Did toid msg s = rw (user_query-state toid s) (
        forward_then-Did (table_online s.db toid) toid msg s (record s { db = (D.acquire s.db).1 })
          (record { conns = refl; users = λ j. up.reads (select_user j) s.db; trace = refl }))

    send_or-Did :
        (o : Option Conn) (js : Json) (toid : ℤ) (s : State Db Link)
        → Did
            (deliver_to o (away s.db toid (dump js)) (dump js) ∷ [])
            s
            (send_or J D R o js (forward J D R toid (dump js)) s).1
    unfolding send_or send_json emit
    send_or-Did none js toid s = forward-Did toid (dump js) s
    send_or-Did (some c) js toid s = record { conns = refl; users = λ j. refl; trace = refl }

    route-Did :
        (toid : ℤ) (js : Json) (s : State Db Link)
        → Did (delivery s.conns s.db (dump js) toid ∷ []) s (route J D R toid js s).1
    unfolding route find_conn delivery ◌>>=◌
    route-Did toid js s = send_or-Did (lookup toid s.conns) js toid s

    -- While the pool gives connections, a well-formed chat message makes exactly one delivery: to
    -- the connection of the receiver in this process; else, if the table has the receiver online,
    -- to the receiver's channel; else the statement for the table of offline messages, which a long
    -- text does not reach whole. The connection map and the users' rows stay.
    pub one_chat_once :
        (js : Json) (toid fromid : ℤ) (s : State Db Link)
        → contains js "id" ≡ true
        → contains js "toid" ≡ true
        → get_int js "toid" ≡ some toid
        → get_int js "id" ≡ some fromid
        → Did (delivery s.conns s.db (dump js) toid ∷ []) s (one_chat J D R js s).1
    unfolding one_chat ◌>>=◌
    one_chat_once js toid fromid s p q e f = rw (p, q, e, f) (route-Did toid js s)
