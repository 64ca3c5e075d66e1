-- ===== src/Server/Service.antt =====
-- `ChatService` (ChatServer/src/server/chatservice.cpp), handler by handler. Log calls are left
-- out. A handler runs as one action: the lock `_connMutex` covers each use of the two maps.
use qt_chat.Base.{List, [], ◌∷◌, Option, none, some}
use qt_chat.Base.Int.{ℤ}
use qt_chat.Base.Lists.{Str}
use qt_chat.Base.Map.{Map, lookup, insert, erase, int_eq, str_key}
use qt_chat.Wire.{packet}
use qt_chat.Server.Api.{JsonApi, Mysql, Pubsub}
use qt_chat.Server.State.{
  Conn, sent, published, subscribed, unsubscribed, State, Action, ok, gets, emit, for_each, ◌>>=◌,
  ◌>>◌,
}
use qt_chat.Server.Models.{User, friend_query}
use qt_chat.Server.Replies.{friend_state}

module _ (J : JsonApi) (D : Mysql) (R : Pubsub) where
  open J use {Json, contains, get_int, get_text, dump, parse}
  open D use {Db}
  open R use {Link, publish, subscribe, unsubscribe}

  abbrev pub Act : Type 0 → Type 0
  Act = Action (State Db Link)

  abbrev pub Done : Type 0
  Done = Act (Unit {0})

  unfoldable pub send_json : Conn → Json → Done
  send_json conn js = emit (sent conn (packet (dump js)))

  unfoldable pub redis_publish : ℤ → Str → Done
  redis_publish channel msg s = (
    ok tt,
    record s { link = (publish channel msg s.link).1; trace = published channel msg ∷ s.trace },
  )

  unfoldable pub redis_subscribe : ℤ → Done
  redis_subscribe channel s = (
    ok tt,
    record s { link = (subscribe channel s.link).1; trace = subscribed channel ∷ s.trace },
  )

  unfoldable pub redis_unsubscribe : ℤ → Done
  redis_unsubscribe channel s = (
    ok tt,
    record s { link = (unsubscribe channel s.link).1; trace = unsubscribed channel ∷ s.trace },
  )

  unfoldable pub find_conn : ℤ → Act (Option Conn)
  find_conn id s = (ok (lookup id s.conns), s)

  unfoldable pub set_conn : ℤ → Conn → Done
  set_conn id conn s = (ok tt, record s { conns = insert id conn s.conns })

  unfoldable pub drop_conn : ℤ → Done
  drop_conn id s = (ok tt, record s { conns = erase id s.conns })

  unfoldable pub forget_time : Conn → Done
  forget_time conn s = (ok tt, record s { last_time = erase conn.name s.last_time })

  -- The loop of `notifyFriendState` under the lock: who is here, and who may be elsewhere.
  unfoldable pub sort_friends : Map ℤ Conn → List User → List Conn × List ℤ
  sort_friends m [] = ([], [])
  sort_friends m (f ∷ fs) =
      let (here, cross) = sort_friends m fs in
      elim (lookup f.id m) [ some c ↦ (c ∷ here, cross) | none ↦ (here, f.id ∷ cross) ]

  -- `notifyFriendState`
  unfoldable pub notify_friend_state : ℤ → Str → Done
  unfolding sort_friends send_json redis_publish
  notify_friend_state userid state = do
    friends ← friend_query D userid
    m ← gets (λ s. s.conns)
    let notify = friend_state J userid state
    let (here, cross) = sort_friends m friends
    for_each (λ c. send_json c notify) here
    for_each (λ fid. redis_publish fid (dump notify)) cross
