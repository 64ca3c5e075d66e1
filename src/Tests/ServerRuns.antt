-- ===== src/Tests/ServerRuns.antt =====
-- The server's theorems at concrete messages.
use mathlib.Core.List.{Perm}
use qt_chat.Base.{◌≡◌, refl, List, [], ◌∷◌, map, some, arith}
use qt_chat.Base.Int.{pos, minus_one}
use qt_chat.Base.Lists.{codes, str_eq}
use qt_chat.Base.Map.{lookup, insert, int_eq, str_key}
use qt_chat.Wire.{packet}
use qt_chat.Server.Api.{num, text}
use qt_chat.Server.State.{Event, unsubscribed, sent, ok, ◌>>=◌}
use qt_chat.Server.Models.{
  User, first_user, user_query, query_group_users, with_connection, run_query,
}
use qt_chat.Server.Models.Text.{atoi}
use qt_chat.Server.Chat.{one_chat, group_chat}
use qt_chat.Server.Account.{login, kick, client_close}
use qt_chat.Server.Dispatch.{handle_body, handle_json, update_conn_time}
use qt_chat.Server.Routing.{Did, delivery, one_chat_once}
use qt_chat.Server.Spread.{asked, group_chat_once}
use qt_chat.Server.Sessions.{login_accepts, login_rejects, login_default_user}
use qt_chat.Server.Takeover.{takeover_close}
use qt_chat.Server.Atomic.{handle_body_thrown}
use mathlib.Core.List.{Memᴰ}
use qt_chat.Base.{ℕ, zero, suc, ◌≤◌, ◌++◌, ◌↔◌}
use qt_chat.Base.Lists.{Str, length}
use qt_chat.Server.Api.{insert_offline}
use qt_chat.Server.State.{Conn, ran, closed}
use qt_chat.Server.Models.{no_user, friend_query, offline_insert}
use qt_chat.Server.Service.{notify_friend_state}
use qt_chat.Server.Dispatch.{check_heartbeat}
use qt_chat.Server.Offline.{offline_kept}
use qt_chat.Server.Silence.{Silent, check_heartbeat_closes}
use qt_chat.Server.Heartbeat.{silent_closed_in_time}
use qt_chat.Server.Notices.{Called, notice, notify_once}
use qt_chat.Tests.World.{
  World, Fields, find_field, json, tables, redis, serving, phone, laptop, with_conns,
}

abbrev hello : Fields
hello = ("id", num (pos 4)) ∷ ("toid", num (pos 5)) ∷ ("groupid", num (pos 9)) ∷ []

one_chat_once_example :
    Did json tables redis
      (delivery json tables redis ((pos 5, phone) ∷ []) tt (codes "{}") (pos 5) ∷ [])
      (with_conns ((pos 5, phone) ∷ []))
      (one_chat json tables redis hello (with_conns ((pos 5, phone) ∷ []))).1
unfolding find_field str_eq
one_chat_once_example =
    one_chat_once json tables redis serving hello (pos 5) (pos 4) (with_conns ((pos 5, phone) ∷ []))
      refl refl refl refl

group_chat_once_example :
    (evs : List Event) × Did json tables redis evs
      (with_conns ((pos 6, phone) ∷ []))
      (group_chat json tables redis hello (with_conns ((pos 6, phone) ∷ []))).1
    × Perm evs (
        map (delivery json tables redis ((pos 6, phone) ∷ []) tt (codes "{}")) (pos 6 ∷ pos 7 ∷ []))
unfolding find_field str_eq query_group_users atoi asked ◌>>=◌
group_chat_once_example =
    group_chat_once json tables redis serving hello (pos 4) (pos 9) (pos 6 ∷ pos 7 ∷ [])
      (with_conns ((pos 6, phone) ∷ [])) refl refl refl refl refl

abbrev right_login : Fields
right_login = ("id", num (pos 5)) ∷ ("password", text (codes "pw")) ∷ []

abbrev ann : User
ann = record { id = pos 5; name = codes "ann"; password = codes "pw"; state = codes "offline" }

asked_ann : user_query tables (pos 5) (with_conns []) ≡ (ok ann, with_conns [])
unfolding user_query with_connection run_query first_user atoi ◌>>=◌
asked_ann = refl

login_accepts_example :
    lookup (pos 5) (login json tables redis phone right_login (with_conns [])).1.conns ≡ some phone
unfolding find_field str_eq
login_accepts_example =
    login_accepts json tables redis phone right_login (pos 5) (codes "pw") ann (with_conns [])
      (with_conns []) (pos 5) refl refl refl refl asked_ann (refl, refl)

abbrev wrong_password : Fields
wrong_password = ("id", num (pos 5)) ∷ ("password", text (codes "no")) ∷ []

not_hers : ¬ ((pos 5 ≡ pos 5) × (codes "pw" ≡ codes "no"))
not_hers h = ground (arith, h.1)

login_rejects_example :
    ((login json tables redis phone wrong_password (with_conns [])).1.conns ≡ [])
    × ((login json tables redis phone wrong_password (with_conns [])).1.trace
        ≡ sent phone (packet (codes "{}")) ∷ [])
unfolding find_field str_eq
login_rejects_example =
    login_rejects json tables redis phone wrong_password (pos 5) (codes "no") ann (with_conns [])
      (with_conns []) refl refl refl refl asked_ann not_hers

abbrev nobody : Fields
nobody = ("id", num minus_one) ∷ ("password", text []) ∷ []

login_default_user_example :
    lookup minus_one (login json tables redis phone nobody (with_conns [])).1.conns ≡ some phone
unfolding find_field str_eq
login_default_user_example =
    login_default_user json tables redis phone nobody (with_conns []) refl refl refl refl refl

takeover_close_example :
    let t = (kick json tables redis laptop (pos 5) (with_conns ((pos 5, phone) ∷ []))).1 in
    let u = (client_close json tables redis phone t).1 in
    (lookup (pos 5) u.conns ≡ some laptop)
    × (u.conns ≡ t.conns)
    × (u.db ≡ t.db)
    × (u.trace ≡ unsubscribed minus_one ∷ t.trace)
unfolding lookup
takeover_close_example =
    takeover_close json tables redis phone laptop (pos 5) (with_conns ((pos 5, phone) ∷ [])) refl
      (λ e. refl, tt) refl

handle_body_thrown_example :
    handle_body json tables redis 7 phone (codes "{}") (with_conns [])
    ≡ record (with_conns []) { last_time = (phone.name, (7, phone)) ∷ [] }
unfolding find_field handle_json update_conn_time insert ◌>>=◌
handle_body_thrown_example =
    handle_body_thrown json tables redis 7 phone (codes "{}") [] (with_conns []) refl refl

abbrev repeated : ℕ → Str
repeated zero = []
repeated (suc n) = 120 ∷ repeated n

length-repeated : (n : ℕ) → length (repeated n) ≡ n
length-repeated zero = refl
length-repeated (suc n) = omega (arith, length-repeated n)

offline_kept_example :
    (offline_insert tables (pos 5) (repeated 3) (with_conns [])).1.trace
    ≡ ran (insert_offline (pos 5) (repeated 3)) ∷ []
offline_kept_example = offline_kept tables (pos 5) (repeated 3) (with_conns []) refl (omega arith)

abbrev late : World
late = record (with_conns []) {
  last_time = (codes "phone", (100, phone)) ∷ (codes "laptop", (120, laptop)) ∷ [];
}

check_heartbeat_closes_example :
    (evs : List Event) × (check_heartbeat json tables redis 140 late
      ≡ (ok tt, record late { trace = evs ++ [] }))
    × ((e : Event) → Memᴰ e evs ↔ ((c : Conn) × (e ≡ closed c) × Silent 140 late.last_time c))
check_heartbeat_closes_example = check_heartbeat_closes json tables redis 140 late

-- The timer started at 90; the check at 135 finds the phone.
silent_closed_in_time_example :
    (135 ≤ 145) × Memᴰ (closed phone) (check_heartbeat json tables redis 135 late).1.trace
silent_closed_in_time_example =
    silent_closed_in_time json tables redis 90 100 (omega arith) late (codes "phone") phone
      (Memᴰ.head refl)

abbrev two_friends : List User
two_friends =
    record no_user { id = pos 6; name = codes "bob"; state = codes "offline" }
    ∷ record no_user { id = pos 7; name = codes "eve"; state = codes "offline" }
    ∷ []

asked_friends :
    friend_query tables (pos 5) (with_conns ((pos 6, phone) ∷ []))
    ≡ (ok two_friends, with_conns ((pos 6, phone) ∷ []))
unfolding friend_query atoi with_connection run_query ◌>>=◌
asked_friends = refl

notify_once_example :
    (evs : List Event) × Called json tables redis evs (with_conns ((pos 6, phone) ∷ [])) (
      notify_friend_state json tables redis
        (pos 5)
        (codes "online")
        (with_conns ((pos 6, phone) ∷ [])))
    × Perm evs (map (notice ((pos 6, phone) ∷ []) (codes "{}")) two_friends)
notify_once_example =
    notify_once json tables redis (pos 5) (codes "online") two_friends
      (with_conns ((pos 6, phone) ∷ [])) (with_conns ((pos 6, phone) ∷ [])) asked_friends
