-- ===== src/Server/Atomic.antt =====
-- Exceptions in `onMessage`: every handler reads the fields of its message before it writes
-- anything, so a message that makes one throw leaves no trace but the connection's time.
use qt_chat.Base.{ℕ, ◌≡◌, refl, some, inl, inr, [], ◌∷◌}
use qt_chat.Base.Tests.{Bool-cases}
use qt_chat.Base.Int.{ℤ, eq_ℤ}
use qt_chat.Base.Lists.{Str}
use qt_chat.Base.Map.{Map, lookup, insert, int_eq, str_key}
use qt_chat.Server.Api.{JsonApi, Mysql, Pubsub}
use qt_chat.Server.State.{Conn, State, thrown, ◌>>=◌}
use qt_chat.Server.State.Rules.{Returns, Atomic, Atomic-read, Atomic-if, Atomic-Returns}
use qt_chat.Server.Returns.{handler_tails}
use qt_chat.Server.Service.{Done}
use qt_chat.Server.Account.{login, reg, loginout, update_name}
use qt_chat.Server.Chat.{one_chat, add_friend, create_group, add_group, group_chat}
use qt_chat.Server.Dispatch.{
  update_conn_time, heartbeat, handlers, or_default, get_handler, handle_json, handle_body,
}

ruleset atomic_rules = (Atomic-read, Atomic-if, Atomic-Returns, handler_tails)

module _ (J : JsonApi) (D : Mysql) (R : Pubsub) where
  open J use {Json}
  open D use {Db}
  open R use {Link}

  login-Atomic : (c : Conn) (js : Json) → Atomic (login J D R c js)
  unfolding login
  login-Atomic c js = search atomic_rules depth 8

  reg-Atomic : (c : Conn) (js : Json) → Atomic (reg J D R c js)
  unfolding reg
  reg-Atomic c js = search atomic_rules depth 8

  loginout-Atomic : (c : Conn) (js : Json) → Atomic (loginout J D R c js)
  unfolding loginout
  loginout-Atomic c js = search atomic_rules depth 8

  update_name-Atomic : (c : Conn) (js : Json) → Atomic (update_name J D R c js)
  unfolding update_name
  update_name-Atomic c js = search atomic_rules depth 8

  one_chat-Atomic : (js : Json) → Atomic (one_chat J D R js)
  unfolding one_chat
  one_chat-Atomic js = search atomic_rules depth 8

  add_friend-Atomic : (c : Conn) (js : Json) → Atomic (add_friend J D R c js)
  unfolding add_friend
  add_friend-Atomic c js = search atomic_rules depth 10

  create_group-Atomic : (c : Conn) (js : Json) → Atomic (create_group J D R c js)
  unfolding create_group
  create_group-Atomic c js = search atomic_rules depth 8

  add_group-Atomic : (c : Conn) (js : Json) → Atomic (add_group J D R c js)
  unfolding add_group
  add_group-Atomic c js = search atomic_rules depth 8

  group_chat-Atomic : (js : Json) → Atomic (group_chat J D R js)
  unfolding group_chat
  group_chat-Atomic js = search atomic_rules depth 8

  update_conn_time-Returns : (now : ℕ) (c : Conn) → Returns (update_conn_time J D R now c)
  unfolding update_conn_time
  update_conn_time-Returns now c = record { at = λ s. (_, refl) }

  heartbeat-Atomic : (now : ℕ) (c : Conn) → Atomic (heartbeat J D R now c)
  unfolding heartbeat
  heartbeat-Atomic now c = search (atomic_rules, update_conn_time-Returns)

  abbrev Handler : Type 0
  Handler = Conn → Json → Done J D R

  abbrev AllAtomic : Map ℤ Handler → Type 0
  AllAtomic [] = Unit {0}
  AllAtomic ((id, h) ∷ m) = ((c : Conn) (js : Json) → Atomic (h c js)) × AllAtomic m

  lookup-Atomic :
      (id : ℤ) (m : Map ℤ Handler)
      → AllAtomic m
      → (c : Conn) (js : Json) → Atomic (or_default J D R (lookup id m) c js)
  unfolding lookup or_default
  lookup-Atomic id [] h c js = search atomic_rules
  lookup-Atomic id ((k, f) ∷ m) h c js = elim (Bool-cases (eq_ℤ k id)) [
    | inl hit ↦ rw (hit, lookup, or_default) (h.0 c js)
    | inr miss ↦ rw (miss, lookup, or_default) (lookup-Atomic id m h.1 c js)
  ]

  get_handler-Atomic :
      (now : ℕ) (id : ℤ) (c : Conn) (js : Json) → Atomic (get_handler J D R now id c js)
  unfolding get_handler
  get_handler-Atomic now id = lookup-Atomic id (handlers J D R now) (
    login-Atomic,
    (
      loginout-Atomic,
      (
        reg-Atomic,
        (
          (λ c. one_chat-Atomic),
          (
            add_friend-Atomic,
            (
              create_group-Atomic,
              (
                add_group-Atomic,
                (
                  (λ c. group_chat-Atomic),
                  (update_name-Atomic, ((λ c js. heartbeat-Atomic now c), tt)),
                ),
              ),
            ),
          ),
        ),
      ),
    ),
  )

  -- A message that parses, and whose handling throws, changes nothing but the time of its
  -- connection: not the connection map, not the tables, not Redis, and no reply is sent.
  pub handle_body_thrown :
      (now : ℕ) (c : Conn) (msg : Str) (js : Json) (s : State Db Link)
      → J.parse msg ≡ some js
      → (handle_json J D R now c js s).0 ≡ thrown
      → handle_body J D R now c msg s ≡ record s { last_time = insert c.name (now, c) s.last_time }
  unfolding handle_body update_conn_time ◌>>=◌
  handle_body_thrown now c msg js s p e =
      rw (p, handle_body)
        ((Atomic-read (J.get_int js "msgid") (λ id. get_handler J D R now id c js)
            (λ id. get_handler-Atomic now id c js)).at
          _ e)
