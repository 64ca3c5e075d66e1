-- ===== src/Server/Sessions.antt =====
-- Who is connected: login, the takeover by a second login, and the close of a connection.
use qt_chat.Base.{◌≡◌, refl, sym, ap, ◌∙◌, true, false, [], ◌∷◌, some, inl, inr, ◌↔◌, arith}
use qt_chat.Base.Tests.{if◌then◌else◌, Option-cases, Bool-cases}
use qt_chat.Base.Int.{ℤ, minus_one, eq_ℤ, eq_ℤ_iff}
use qt_chat.Base.Lists.{Str, codes, str_eq_iff}
use qt_chat.Server.Replies.{login_msg_ack, error_reply}
use qt_chat.Base.Map.{Map, lookup, erase, lookup-insert, lookup-erase, int_eq, str_key}
use qt_chat.Wire.{packet}
use qt_chat.Server.Api.{JsonApi, Mysql, Pubsub, select_user}
use qt_chat.Server.State.{Conn, State, Event, sent, Result, ok, emit, ◌>>=◌, ◌>>◌}
use qt_chat.Server.State.Rules.{Always, Returns, always_rules, Always-if, state-bind}
use qt_chat.Server.Models.{
  User, online, no_user, first_user, with_connection, run_query, user_query, user_update_state,
}
use qt_chat.Server.Models.Rules.{
  SameMaps, SameMaps-Composes, model_maps, user_query-SameMaps, user_update_state-Returns,
}
use qt_chat.Server.Returns.{enter-Returns}
use qt_chat.Server.Service.{
  Done, send_json, redis_publish, redis_subscribe, redis_unsubscribe, find_conn, set_conn,
  drop_conn, notify_friend_state,
}
use qt_chat.Server.Account.{
  is_online, shut_down, kick, enter, greet, logged_in, credentials, check_login, login,
}

module _ (J : JsonApi) (D : Mysql) (R : Pubsub) where
  open J use {Json}
  open D use {Db}
  open R use {Link}

  pub emit-SameMaps : (e : Event) → Always SameMaps (emit {Db = Db} {Link = Link} e)
  unfolding emit
  emit-SameMaps e = record { at = λ s. record { conns = refl; last_time = refl } }

  pub send_json-SameMaps : (c : Conn) (js : Json) → Always SameMaps (send_json J D R c js)
  unfolding send_json
  send_json-SameMaps c js = emit-SameMaps _

  pub redis_publish-SameMaps : (c : ℤ) (m : Str) → Always SameMaps (redis_publish J D R c m)
  unfolding redis_publish
  redis_publish-SameMaps c m = record { at = λ s. record { conns = refl; last_time = refl } }

  pub redis_subscribe-SameMaps : (c : ℤ) → Always SameMaps (redis_subscribe J D R c)
  unfolding redis_subscribe
  redis_subscribe-SameMaps c = record { at = λ s. record { conns = refl; last_time = refl } }

  pub redis_unsubscribe-SameMaps : (c : ℤ) → Always SameMaps (redis_unsubscribe J D R c)
  unfolding redis_unsubscribe
  redis_unsubscribe-SameMaps c = record { at = λ s. record { conns = refl; last_time = refl } }

pub ruleset map_calls = (
  always_rules, SameMaps-Composes, model_maps, emit-SameMaps, send_json-SameMaps,
  redis_publish-SameMaps, redis_subscribe-SameMaps, redis_unsubscribe-SameMaps,
)

module _ (J : JsonApi) (D : Mysql) (R : Pubsub) where
  open J use {Json, contains, get_int, get_text}
  open D use {Db}
  open R use {Link}

  pub notify_friend_state-SameMaps :
      (id : ℤ) (st : Str) → Always SameMaps (notify_friend_state J D R id st)
  unfolding notify_friend_state
  notify_friend_state-SameMaps id st = search map_calls depth 8

  greet-SameMaps : (c : Conn) (id : ℤ) (u : User) → Always SameMaps (greet J D R c id u)
  unfolding greet
  greet-SameMaps c id u = search (map_calls, notify_friend_state-SameMaps) depth 12

  -- The map after a login has the new connection for the user, and the rest as before.
  abbrev pub Entered : Conn → ℤ → State Db Link → State Db Link → Type 0
  Entered conn id s t =
      (j : ℤ) → lookup j t.conns ≡ (if eq_ℤ id j then some conn else lookup j s.conns)

  kick-Entered : (c : Conn) (id : ℤ) (s : State Db Link) → Entered c id s (kick J D R c id s).1
  unfolding kick find_conn shut_down drop_conn set_conn redis_subscribe redis_unsubscribe emit ◌>>=◌
  kick-Entered c id s j = elim (Option-cases (lookup id s.conns)) [
    | inl nobody ↦ rw (nobody, shut_down) (lookup-insert id j c s.conns)
    | inr (old, e) ↦
        rw (e, shut_down)
          (ground (arith, lookup-insert id j c (erase id s.conns), lookup-erase id j s.conns))
  ]

  enter-Entered :
      (c : Conn) (id : ℤ) (u : User) (s : State Db Link) → Entered c id s (enter J D R c id u s).1
  unfolding enter set_conn redis_subscribe ◌>>=◌
  enter-Entered c id u s j = elim (Bool-cases (is_online J D R u)) [
    | inl on ↦ rw on (kick-Entered c id s j)
    | inr off ↦ rw off (lookup-insert id j c s.conns)
  ]

  -- What a login does after the connection is entered.
  abbrev settle : Conn → ℤ → User → Done J D R
  settle c id u = do
    user_update_state D (record u { state = online })
    greet J D R c id (record u { state = online })

  settle-SameMaps : (c : Conn) (id : ℤ) (u : User) → Always SameMaps (settle c id u)
  settle-SameMaps c id u = search (map_calls, greet-SameMaps)

  logged_in-Entered :
      (c : Conn) (id : ℤ) (u : User) (s : State Db Link)
      → Entered c id s (logged_in J D R c id u s).1
  unfolding logged_in
  logged_in-Entered c id u s j =
      rw
        (state-bind (enter J D R c id u) (λ _. settle c id u) s
          ((enter-Returns J D R c id u).at s).1)
        (ap (lookup j) ((settle-SameMaps c id u).at _).conns ∙ enter-Entered c id u s j)

  pub credentials_iff :
      (u : User) (id : ℤ) (pwd : Str)
      → (credentials J D R u id pwd ≡ true) ↔ ((u.id ≡ id) × (u.password ≡ pwd))
  unfolding credentials
  credentials_iff u id pwd = (
    (λ h. ((eq_ℤ_iff u.id id).0 (ground arith), (str_eq_iff u.password pwd).0 (ground arith))),
    (λ h. ground (arith, (eq_ℤ_iff u.id id).1 h.0, (str_eq_iff u.password pwd).1 h.1)),
  )

  credentials-false :
      (u : User) (id : ℤ) (pwd : Str)
      → ¬ ((u.id ≡ id) × (u.password ≡ pwd))
      → credentials J D R u id pwd ≡ false
  credentials-false u id pwd h = elim (Bool-cases (credentials J D R u id pwd)) [
    | inl yes' ↦ absurd (h ((credentials_iff u id pwd).0 yes'))
    | inr no' ↦ no'
  ]

  abbrev pub wrong_login : Str
  wrong_login = codes "id or password is invalid!"

  no_row :
      (s : State Db Link)
      → D.query (select_user minus_one) (D.acquire s.db).1 ≡ some []
      → user_query D minus_one s ≡ (ok no_user, record s { db = (D.acquire s.db).1 })
  unfolding user_query with_connection run_query first_user ◌>>=◌
  no_row s e = elim (Bool-cases (D.acquire s.db).0) [
    | inl given ↦ rw (given, e, first_user) refl
    | inr refused ↦ rw refused refl
  ]

  check_login-Entered :
      (c : Conn) (id : ℤ) (pwd : Str) (u : User) (s t : State Db Link)
      → user_query D id s ≡ (ok u, t)
      → credentials J D R u id pwd ≡ true
      → Entered c id s (check_login J D R c id pwd s).1
  unfolding check_login ◌>>=◌
  check_login-Entered c id pwd u s t q good j =
      rw (q, good)
        (logged_in-Entered c id u t j
          ∙ ap (λ (m : Map ℤ Conn). if eq_ℤ id j then some c else lookup j m) same)
    where
      same : t.conns ≡ s.conns
      same =
          sym (ap (λ (r : Result User × State Db Link). r.1.conns) q)
          ∙ ((user_query-SameMaps D id).at s).conns

  rejected :
      (c : Conn) (id : ℤ) (pwd : Str) (u : User) (s t : State Db Link)
      → user_query D id s ≡ (ok u, t)
      → credentials J D R u id pwd ≡ false
      → ((check_login J D R c id pwd s).1.conns ≡ t.conns)
        × ((check_login J D R c id pwd s).1.trace
            ≡ sent c (packet (J.dump (error_reply J login_msg_ack wrong_login))) ∷ t.trace)
  unfolding check_login send_json emit ◌>>=◌
  rejected c id pwd u s t q bad = rw (q, bad) (refl, refl)

  -- A login whose id and password are those of the row that the table gives for that id enters the
  -- new connection for that user, whether or not the user was connected, and touches no other entry.
  pub login_accepts :
      (c : Conn) (js : Json) (id : ℤ) (pwd : Str) (u : User) (s t : State Db Link) (j : ℤ)
      → contains js "id" ≡ true
      → contains js "password" ≡ true
      → get_int js "id" ≡ some id
      → get_text js "password" ≡ some pwd
      → user_query D id s ≡ (ok u, t)
      → (u.id ≡ id) × (u.password ≡ pwd)
      → lookup j (login J D R c js s).1.conns ≡ (if eq_ℤ id j then some c else lookup j s.conns)
  unfolding login ◌>>=◌
  login_accepts c js id pwd u s t j p q e f g m =
      rw (p, q, e, f) (check_login-Entered c id pwd u s t g ((credentials_iff u id pwd).1 m) j)

  -- A login with any other password or id than those of the row leaves the connections as the query
  -- left them, and its only call is the error reply on its own connection.
  pub login_rejects :
      (c : Conn) (js : Json) (id : ℤ) (pwd : Str) (u : User) (s t : State Db Link)
      → contains js "id" ≡ true
      → contains js "password" ≡ true
      → get_int js "id" ≡ some id
      → get_text js "password" ≡ some pwd
      → user_query D id s ≡ (ok u, t)
      → ¬ ((u.id ≡ id) × (u.password ≡ pwd))
      → ((login J D R c js s).1.conns ≡ t.conns)
        × ((login J D R c js s).1.trace
            ≡ sent c (packet (J.dump (error_reply J login_msg_ack wrong_login))) ∷ t.trace)
  unfolding login ◌>>=◌
  login_rejects c js id pwd u s t p q e f g m =
      rw (p, q, e, f) (rejected c id pwd u s t g (credentials-false u id pwd m))

  -- Without a row for the id -1, whatever the pool does, the login with id -1 and an empty password
  -- goes through, for any connection: the default `User()` that stands for "no such user" has this
  -- id and this password.
  pub login_default_user :
      (c : Conn) (js : Json) (s : State Db Link)
      → contains js "id" ≡ true
      → contains js "password" ≡ true
      → get_int js "id" ≡ some minus_one
      → get_text js "password" ≡ some []
      → D.query (select_user minus_one) (D.acquire s.db).1 ≡ some []
      → lookup minus_one (login J D R c js s).1.conns ≡ some c
  login_default_user c js s p q e f none_there =
      login_accepts c js minus_one [] no_user s _ minus_one p q e f (no_row s none_there)
        (refl, refl)
