-- ===== src/Server/Returns.antt =====
-- The parts of the handlers that come after the fields of the message are read: none throws.
use qt_chat.Base.{refl, Bool, true, false, List, [], ◌∷◌, Option, none, some}
use qt_chat.Base.Int.{ℤ}
use qt_chat.Base.Lists.{Str}
use qt_chat.Server.Api.{JsonApi, Mysql, Pubsub}
use qt_chat.Server.State.{closed, Conn, Event, emit}
use qt_chat.Server.State.Rules.{
  Returns, Atomic, returns_rules, Returns-bind, Returns-pure, Returns-for_each, Atomic-read,
  Atomic-if, Atomic-Returns,
}
use qt_chat.Server.Models.{User, Group}
use qt_chat.Server.Models.Rules.{model_returns, user_query-Returns}
use qt_chat.Server.Chat.{
  forward, send_or, route, group_reply, send_step, send_here, store_step, store_away, spread,
}
use qt_chat.Server.Service.{
  Act, Done, send_json, redis_publish, redis_subscribe, redis_unsubscribe, find_conn, set_conn,
  drop_conn, forget_time, notify_friend_state,
}
use qt_chat.Server.Account.{
  take_owner, shut_down, kick, enter, greet, logged_in, check_login, reg_reply, leave, client_close,
  name_reply,
}

module _ (J : JsonApi) (D : Mysql) (R : Pubsub) where
  open J use {Json}
  open D use {Db}
  open R use {Link}

  pub emit-Returns : (e : Event) → Returns (emit {Db = Db} {Link = Link} e)
  unfolding emit
  emit-Returns e = record { at = λ s. (_, refl) }

  pub send_json-Returns : (c : Conn) (js : Json) → Returns (send_json J D R c js)
  unfolding send_json
  send_json-Returns c js = emit-Returns _

  pub redis_publish-Returns : (c : ℤ) (m : Str) → Returns (redis_publish J D R c m)
  unfolding redis_publish
  redis_publish-Returns c m = record { at = λ s. (_, refl) }

  pub redis_subscribe-Returns : (c : ℤ) → Returns (redis_subscribe J D R c)
  unfolding redis_subscribe
  redis_subscribe-Returns c = record { at = λ s. (_, refl) }

  pub redis_unsubscribe-Returns : (c : ℤ) → Returns (redis_unsubscribe J D R c)
  unfolding redis_unsubscribe
  redis_unsubscribe-Returns c = record { at = λ s. (_, refl) }

  pub find_conn-Returns : (id : ℤ) → Returns (find_conn J D R id)
  unfolding find_conn
  find_conn-Returns id = record { at = λ s. (_, refl) }

  pub set_conn-Returns : (id : ℤ) (c : Conn) → Returns (set_conn J D R id c)
  unfolding set_conn
  set_conn-Returns id c = record { at = λ s. (_, refl) }

  pub drop_conn-Returns : (id : ℤ) → Returns (drop_conn J D R id)
  unfolding drop_conn
  drop_conn-Returns id = record { at = λ s. (_, refl) }

  pub forget_time-Returns : (c : Conn) → Returns (forget_time J D R c)
  unfolding forget_time
  forget_time-Returns c = record { at = λ s. (_, refl) }

pub ruleset calls = (
  returns_rules, model_returns, send_json-Returns, redis_publish-Returns, redis_subscribe-Returns,
  redis_unsubscribe-Returns, find_conn-Returns, set_conn-Returns, drop_conn-Returns,
  forget_time-Returns, emit-Returns,
)

module _ (J : JsonApi) (D : Mysql) (R : Pubsub) where
  open J use {Json}

  pub notify_friend_state-Returns : (id : ℤ) (st : Str) → Returns (notify_friend_state J D R id st)
  unfolding notify_friend_state
  notify_friend_state-Returns id st = search calls

  pub shut_down-Returns : (o : Option Conn) (id : ℤ) → Returns (shut_down J D R o id)
  unfolding shut_down
  shut_down-Returns none id = record { at = λ s. (tt, refl) }
  shut_down-Returns (some old) id =
      Returns-bind (emit (closed old)) (λ _. drop_conn J D R id) (search calls) (λ _. search calls)

  pub kick-Returns : (c : Conn) (id : ℤ) → Returns (kick J D R c id)
  unfolding kick
  kick-Returns c id = search (calls, shut_down-Returns)

  pub enter-Returns : (c : Conn) (id : ℤ) (u : User) → Returns (enter J D R c id u)
  unfolding enter
  enter-Returns c id u = search (calls, kick-Returns)

  pub greet-Returns : (c : Conn) (id : ℤ) (u : User) → Returns (greet J D R c id u)
  unfolding greet
  greet-Returns c id u = search (calls, notify_friend_state-Returns) depth 12

  pub logged_in-Returns : (c : Conn) (id : ℤ) (u : User) → Returns (logged_in J D R c id u)
  unfolding logged_in
  logged_in-Returns c id u = search (calls, enter-Returns, greet-Returns)

  pub check_login-Returns : (c : Conn) (id : ℤ) (p : Str) → Returns (check_login J D R c id p)
  unfolding check_login
  check_login-Returns c id p = search (calls, logged_in-Returns)

  pub reg_reply-Returns : (c : Conn) (r : Bool × User) → Returns (reg_reply J D R c r)
  unfolding reg_reply
  reg_reply-Returns c (true, u) = search calls
  reg_reply-Returns c (false, u) = search calls

  pub leave-Returns : (c : Conn) (id : ℤ) → Returns (leave J D R c id)
  unfolding leave
  leave-Returns c id = search (calls, notify_friend_state-Returns) depth 12

  take_owner-Returns : (c : Conn) → Returns (take_owner J D R c)
  unfolding take_owner
  take_owner-Returns c = record { at = λ s. (_, refl) }

  pub client_close-Returns : (c : Conn) → Returns (client_close J D R c)
  unfolding client_close
  client_close-Returns c = search (calls, take_owner-Returns, notify_friend_state-Returns) depth 12

  pub name_reply-Returns :
      (c : Conn) (id : ℤ) (n : Str) (b : Bool) → Returns (name_reply J D R c id n b)
  unfolding name_reply
  name_reply-Returns c id n true = search calls
  name_reply-Returns c id n false = search calls

  pub forward-Returns : (id : ℤ) (m : Str) → Returns (forward J D R id m)
  unfolding forward
  forward-Returns id m = search calls

  pub send_or-Returns :
      (o : Option Conn) (js : Json) (m : Done J D R) → Returns m → Returns (send_or J D R o js m)
  unfolding send_or
  send_or-Returns none js m h = h
  send_or-Returns (some c) js m h = search calls

  pub route-Returns : (id : ℤ) (js : Json) → Returns (route J D R id js)
  unfolding route
  route-Returns id js = search (calls, send_or-Returns, forward-Returns)

  pub group_reply-Returns :
      (c : Conn) (id : ℤ) (r : Bool × Group) → Returns (group_reply J D R c id r)
  unfolding group_reply
  group_reply-Returns c id (true, g) = search calls
  group_reply-Returns c id (false, g) = search calls

  pub send_step-Returns :
      (js : Json) (id : ℤ) (o : Option Conn) (m : Act J D R (List ℤ))
      → Returns m
      → Returns (send_step J D R js id o m)
  unfolding send_step
  send_step-Returns js id none m h = search calls
  send_step-Returns js id (some c) m h = search calls

  pub send_here-Returns : (js : Json) (ids : List ℤ) → Returns (send_here J D R js ids)
  unfolding send_here
  send_here-Returns js [] = Returns-pure []
  send_here-Returns js (id ∷ ids) =
      Returns-bind _ _ (find_conn-Returns J D R id)
        λ o. send_step-Returns js id o _ (send_here-Returns js ids)

  pub store_step-Returns :
      (msg : Str) (id : ℤ) (b : Bool) (m : Act J D R (List ℤ))
      → Returns m
      → Returns (store_step J D R msg id b m)
  unfolding store_step
  store_step-Returns msg id true m h = search calls
  store_step-Returns msg id false m h = search calls

  pub store_away-Returns : (msg : Str) (ids : List ℤ) → Returns (store_away J D R msg ids)
  unfolding store_away
  store_away-Returns msg [] = Returns-pure []
  store_away-Returns msg (id ∷ ids) =
      Returns-bind _ _ (user_query-Returns D id)
        λ u. store_step-Returns msg id _ _ (store_away-Returns msg ids)

  pub spread-Returns : (js : Json) (ids : List ℤ) → Returns (spread J D R js ids)
  unfolding spread
  spread-Returns js ids = search (calls, send_here-Returns, store_away-Returns)

pub ruleset handler_tails = (
  calls, check_login-Returns, reg_reply-Returns, leave-Returns, name_reply-Returns, route-Returns,
  group_reply-Returns, spread-Returns,
)
