-- ===== src/Server/Spread.antt =====
-- `groupChat`: its three loops together make one delivery for each member.
pub mod Loops
use mathlib.Core.List.{Perm, perm_middle, perm_append_singleton, perm_append_comm}
use mathlib.Core.List.Perm
use qt_chat.Base.{
  ◌≡◌, refl, sym, ap, ◌∙◌, subst, Bool, true, false, List, [], ◌∷◌, ◌++◌, map, append_assoc,
  append-nil, Option, none, some, arith,
}
use qt_chat.Base.Tests.{if◌then◌else◌}
use qt_chat.Base.Int.{ℤ}
use qt_chat.Base.Lists.{Str}
use qt_chat.Base.Map.{Map, lookup, int_eq}
use qt_chat.Wire.{packet}
use qt_chat.Server.Api.{JsonApi, Mysql, Pubsub, select_user}
use qt_chat.Server.State.{
  Conn, State, Event, sent, ran, published, Result, ok, pure, emit, for_each, ◌>>=◌,
}
use qt_chat.Server.State.Rules.{state-bind}
use qt_chat.Server.Models.{offline_statement, query_group_users, offline_insert}
use qt_chat.Server.Models.Rules.{offline_insert-Returns}
use qt_chat.Server.Service.{Act, send_json, redis_publish, find_conn}
use qt_chat.Server.Chat.{send_step, send_here, store_step, store_away, spread, group_chat}
use qt_chat.Server.Spread.Loops.{Loop, Loop-nil, Loop-after, Loop-done, Loop-later}
use qt_chat.Server.Routing.{
  Serving, table_online, away, delivery, Did, Did-trans, user_query-state, offline_insert-Did,
}

-- The calls of the three loops put together.
gather :
    (pubs sevs hevs : List Event) {cross left whole : List Event}
    → Perm pubs cross
    → Perm (sevs ++ cross) left
    → Perm (hevs ++ left) whole
    → Perm (pubs ++ (sevs ++ hevs)) whole
gather pubs sevs hevs {cross = cross} {left = left} p q r = rw (← append_assoc pubs sevs hevs) (
    Perm.trans
      (Perm.append_right hevs
        (Perm.trans (Perm.append_right sevs p) (Perm.trans (perm_append_comm cross sevs) q)))
      (Perm.trans (perm_append_comm left hevs) r))

module _ (J : JsonApi) (D : Mysql) (R : Pubsub) where
  open J use {Json, contains, get_int, dump}
  open D use {Db, query, escape}
  open R use {Link}

  module _ (up : Serving D) (m : Map ℤ Conn) (db : Db) (msg : Str) where
    later : ℤ → Event
    later id = away J D R db id msg

    -- The maps and rows are still those at the start of `groupChat`.
    record AsBefore (s : State Db Link) : Type 0 where
      conns : s.conns ≡ m
      users : (id : ℤ) → query (select_user id) s.db ≡ query (select_user id) db

    AsBefore-Did :
        {evs : List Event} (s t : State Db Link) → AsBefore s → Did J D R evs s t → AsBefore t
    AsBefore-Did s t b d = record {
      conns = d.conns ∙ b.conns;
      users = λ id. d.users id ∙ b.users id;
    }

    store_step-Loop :
        (id : ℤ) (ids : List ℤ) (s : State Db Link) (b : Bool)
        → (if b then published id msg else ran (offline_statement id msg (escape msg))) ≡ later id
        → ((u : State Db Link)
            → AsBefore u
            → Loop J D R (λ i. published i msg) later ids u (store_away J D R msg ids u))
        → AsBefore s
        → Loop J D R
            (λ i. published i msg)
            later
            (id ∷ ids)
            s
            (store_step J D R msg id b (store_away J D R msg ids) s)
    unfolding store_step
    store_step-Loop id ids s true q next k =
        Loop-later J D R (λ i. published i msg) later id ids s (store_away J D R msg ids) q
          (next s k)
    store_step-Loop id ids s false q next k =
        let d = offline_insert-Did J D R up id msg s in
        rw
          (state-bind (offline_insert D id msg) (λ _. store_away J D R msg ids) s
            ((offline_insert-Returns D id msg).at s).1)
          (Loop-done J D R (λ i. published i msg) later id ids s _ _ _ d q
            (next _ (AsBefore-Did s _ k d)))

    store_away-Loop :
        (ids : List ℤ) (s : State Db Link)
        → AsBefore s
        → Loop J D R (λ i. published i msg) later ids s (store_away J D R msg ids s)
    unfolding store_away later table_online ◌>>=◌
    store_away-Loop [] s k = Loop-nil J D R _ _ s
    store_away-Loop (id ∷ ids) s k =
        let asked = record s { db = (D.acquire s.db).1 } in
        let none_yet : Did J D R [] s asked = record {
          conns = refl;
          users = λ j. up.reads (select_user j) s.db;
          trace = refl;
        } in
        rw (user_query-state J D R up id s) (
          Loop-after J D R _ _ (id ∷ ids) s asked _ none_yet (
            store_step-Loop id ids asked _ (rw (k.users id) refl) (λ u b. store_away-Loop ids u b)
              (AsBefore-Did s asked k none_yet)))

    send_step-Loop :
        (js : Json) (id : ℤ) (ids : List ℤ) (s : State Db Link) (o : Option Conn)
        → dump js ≡ msg
        → lookup id m ≡ o
        → ((u : State Db Link)
            → AsBefore u
            → Loop J D R later (delivery J D R m db msg) ids u (send_here J D R js ids u))
        → AsBefore s
        → Loop J D R later
            (delivery J D R m db msg)
            (id ∷ ids)
            s
            (send_step J D R js id o (send_here J D R js ids) s)
    unfolding send_step delivery later send_json emit ◌>>=◌
    send_step-Loop js id ids s none e q next b =
        Loop-later J D R _ _ id ids s (send_here J D R js ids) (ground (arith, q)) (next s b)
    send_step-Loop js id ids s (some c) e q next b =
        Loop-done J D R _ _ id ids s _ _ (sent c (packet (dump js)))
          (record { conns = refl; users = λ j. refl; trace = refl }) (ground (arith, q))
          (next _ (record { conns = b.conns; users = b.users }))

    send_here-Loop :
        (js : Json) (ids : List ℤ) (s : State Db Link)
        → dump js ≡ msg
        → AsBefore s
        → Loop J D R later (delivery J D R m db msg) ids s (send_here J D R js ids s)
    unfolding send_here find_conn ◌>>=◌
    send_here-Loop js [] s e b = Loop-nil J D R _ _ s
    send_here-Loop js (id ∷ ids) s e b =
        send_step-Loop js id ids s (lookup id s.conns) e (ap (lookup id) (sym b.conns))
          (λ u b'. send_here-Loop js ids u e b') b

  -- The state after the pool gave a connection.
  unfoldable pub asked : State Db Link → State Db Link
  asked s = record s { db = (D.acquire s.db).1 }

  -- The last loop: one call on each channel.
  publish-all :
      (msg : Str) (ids : List ℤ) (s : State Db Link)
      → (evs : List Event) × Did J D R evs s (for_each (λ id. redis_publish J D R id msg) ids s).1
        × Perm evs (map (λ id. published id msg) ids)
  unfolding for_each redis_publish ◌>>=◌
  publish-all msg [] s =
      ([], record { conns = refl; users = λ j. refl; trace = refl }, Perm.refl [])
  publish-all msg (id ∷ ids) s =
      let t = (redis_publish J D R id msg s).1 in
      let (evs, d, p) = publish-all msg ids t in
      (
        evs ++ published id msg ∷ [],
        Did-trans J D R s t _ (record { conns = refl; users = λ j. refl; trace = refl }) d,
        Perm.trans (perm_append_singleton (published id msg) evs) (Perm.cons (published id msg) p),
      )

  module _ (up : Serving D) where
    spread_once :
        (js : Json) (ids : List ℤ) (base s : State Db Link)
        → Did J D R [] base s
        → (evs : List Event) × Did J D R evs base (spread J D R js ids s).1
          × Perm evs (map (delivery J D R base.conns base.db (dump js)) ids)
    unfolding spread
    spread_once js ids base s start =
        rw
          (
            state-bind (send_here J D R js ids) _ s here.returned,
            state-bind (store_away J D R msg here.left) _ t stored.returned,
          )
          (
            pubs.0 ++ (stored.evs ++ here.evs),
            Did-trans J D R base u _ (Did-trans J D R base t u here.did stored.did) pubs.1,
            gather pubs.0 stored.evs here.evs pubs.2 stored.all here.all,
          )
      where
        msg : Str
        msg = dump js

        here :
            Loop J D R
              (later up base.conns base.db msg)
              (delivery J D R base.conns base.db msg)
              ids
              base
              (send_here J D R js ids s)
        here = Loop-after J D R _ _ ids base s _ start (
            send_here-Loop up base.conns base.db msg js ids s refl
              (record { conns = start.conns; users = start.users }))

        t : State Db Link
        t = (send_here J D R js ids s).1

        stored :
            Loop J D R
              (λ i. published i msg)
              (later up base.conns base.db msg)
              here.left
              t
              (store_away J D R msg here.left t)
        stored =
            store_away-Loop up base.conns base.db msg here.left t
              (record { conns = here.did.conns; users = here.did.users })

        u : State Db Link
        u = (store_away J D R msg here.left t).1

        pubs :
            (evs : List Event) × Did J D R evs u
              (for_each (λ id. redis_publish J D R id msg) stored.left u).1
            × Perm evs (map (λ id. published id msg) stored.left)
        pubs = publish-all msg stored.left u

    -- While the pool gives connections, and the query of the members goes through, a group message
    -- makes exactly one delivery for each member that the table names, the one that `delivery`
    -- says, in some order; where that is the statement for an offline message, a long text does not
    -- reach the table whole. The connection map and the users' rows stay.
    pub group_chat_once :
        (js : Json) (userid groupid : ℤ) (ids : List ℤ) (s : State Db Link)
        → contains js "id" ≡ true
        → contains js "groupid" ≡ true
        → get_int js "id" ≡ some userid
        → get_int js "groupid" ≡ some groupid
        → query_group_users D userid groupid s ≡ (ok ids, asked s)
        → (evs : List Event) × Did J D R evs s (group_chat J D R js s).1
          × Perm evs (map (delivery J D R s.conns s.db (dump js)) ids)
    unfolding group_chat asked ◌>>=◌
    group_chat_once js userid groupid ids s p q e f g =
        rw (p, q, e, f, g)
          (spread_once js ids s (asked s)
            (record { conns = refl; users = λ j. up.reads (select_user j) s.db; trace = refl }))
