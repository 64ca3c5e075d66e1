-- ===== src/Server/Takeover.antt =====
-- The close of a connection: of one that a second login took over, and of one that carries two users.
use qt_chat.Base.{◌≡◌, refl, ap, ◌∙◌, ◌≢◌, Bool, true, false, [], ◌∷◌, none, some, inl, inr, arith}
use qt_chat.Base.Tests.{if◌then◌else◌, Bool-cases}
use qt_chat.Base.Int.{ℤ, minus_one, eq_ℤ, eq_ℤ_refl, eq_ℤ_iff}
use qt_chat.Base.Map.{Map, lookup, insert, erase, lookup-insert, lookup-erase, int_eq, str_key}
use qt_chat.Server.Api.{JsonApi, Mysql, Pubsub}
use qt_chat.Server.State.{Conn, same_conn, State, unsubscribed, pure, emit, ◌>>=◌, ◌>>◌}
use qt_chat.Server.Models.{offline, no_user, user_update_state}
use qt_chat.Server.Service.{
  redis_subscribe, redis_unsubscribe, find_conn, set_conn, drop_conn, forget_time,
  notify_friend_state,
}
use qt_chat.Server.State.Rules.{Always}
use qt_chat.Server.Models.Rules.{SameMaps}
use qt_chat.Server.Sessions.{map_calls, notify_friend_state-SameMaps}
use qt_chat.Server.Account.{
  shut_down, kick, owner, found_id, without_found, take_owner, client_close,
}

-- Only the entry of `id` may have this connection.
abbrev pub OnlyAt : ℤ → Conn → Map ℤ Conn → Type 0
OnlyAt id c [] = Unit {0}
OnlyAt id c ((j, d) ∷ m) = (same_conn d c ≡ true → j ≡ id) × OnlyAt id c m

abbrev Absent : Conn → Map ℤ Conn → Type 0
Absent c [] = Unit {0}
Absent c ((j, d) ∷ m) = (same_conn d c ≡ false) × Absent c m

not_same : (b : Bool) (id j : ℤ) → eq_ℤ j id ≡ false → (b ≡ true → j ≡ id) → b ≡ false
not_same true id j miss h = ground (arith, h refl, eq_ℤ_refl j)
not_same false id j miss h = refl

erase-Absent : (id : ℤ) (c : Conn) (m : Map ℤ Conn) → OnlyAt id c m → Absent c (erase id m)
unfolding erase
erase-Absent id c [] h = tt
erase-Absent id c ((j, d) ∷ m) h = elim (Bool-cases (eq_ℤ j id)) [
  | inl hit ↦ rw hit (erase-Absent id c m h.1)
  | inr miss ↦ rw miss (not_same (same_conn d c) id j miss h.0, erase-Absent id c m h.1)
]

insert-Absent :
    (id : ℤ) (c d : Conn) (m : Map ℤ Conn)
    → same_conn d c ≡ false
    → Absent c m
    → Absent c (insert id d m)
unfolding insert
insert-Absent id c d [] ne h = (ne, tt)
insert-Absent id c d ((j, x) ∷ m) ne h = elim (Bool-cases (eq_ℤ j id)) [
  | inl hit ↦ rw hit (ne, h.1)
  | inr miss ↦ rw miss (h.0, insert-Absent id c d m ne h.1)
]

owner-Absent : (c : Conn) (m : Map ℤ Conn) → Absent c m → owner c m ≡ none
unfolding owner
owner-Absent c [] h = refl
owner-Absent c ((j, d) ∷ m) h = rw h.0 (owner-Absent c m h.1)

-- A connection in the map has an owner that the map sends to it, if that user has one entry.
module _ (J : JsonApi) (D : Mysql) (R : Pubsub) where
  open D use {Db}
  open R use {Link}

  kick-conns :
      (old new : Conn) (id : ℤ) (s : State Db Link)
      → lookup id s.conns ≡ some old
      → (kick J D R new id s).1.conns ≡ insert id new (erase id s.conns)
  unfolding kick find_conn shut_down drop_conn set_conn redis_subscribe redis_unsubscribe emit ◌>>=◌
  kick-conns old new id s e = rw (e, shut_down) refl

  close_unowned :
      (c : Conn) (s : State Db Link)
      → owner c s.conns ≡ none
      → ((client_close J D R c s).1.db ≡ s.db)
        × ((client_close J D R c s).1.conns ≡ s.conns)
        × ((client_close J D R c s).1.trace ≡ unsubscribed minus_one ∷ s.trace)
  unfolding client_close take_owner found_id without_found redis_unsubscribe forget_time ◌>>=◌
  close_unowned c s e = rw e (refl, refl, refl)

  -- When a second login of a user took over on another connection, the close of the old connection,
  -- which had no other user, leaves the user connected: the map is as the second login left it, with
  -- the new connection at the user's id, no table is written, and the only call is an UNSUBSCRIBE of
  -- the channel -1.
  pub takeover_close :
      (old new : Conn) (id : ℤ) (s : State Db Link)
      → lookup id s.conns ≡ some old
      → OnlyAt id old s.conns
      → same_conn new old ≡ false
      → let t = (kick J D R new id s).1 in
        let u = (client_close J D R old t).1 in
        (lookup id u.conns ≡ some new)
        × (u.conns ≡ t.conns)
        × (u.db ≡ t.db)
        × (u.trace ≡ unsubscribed minus_one ∷ t.trace)
  takeover_close old new id s e only ne =
      let conns = kick-conns old new id s e in
      let t = (kick J D R new id s).1 in
      let closing = close_unowned old t (
        rw conns (
          owner-Absent old _ (insert-Absent id old new _ ne (erase-Absent id old s.conns only)))) in
      (
        rw (closing.1, conns)
            (ground (arith, lookup-insert id id new (erase id s.conns), eq_ℤ_refl id)),
        closing.1,
        closing.0,
        closing.2,
      )

  abbrev SameConns : State Db Link → State Db Link → Type 0
  SameConns s t = t.conns ≡ s.conns

  goodbye-SameMaps :
      (b : Bool) (id : ℤ)
      → Always SameMaps (
          if b then pure tt else do
            user_update_state D (record no_user { id = id; state = offline })
            notify_friend_state J D R id offline)
  goodbye-SameMaps b id = search (map_calls, notify_friend_state-SameMaps)

  -- What the close does for a user that it found.
  goodbye-SameConns :
      (b : Bool) (id : ℤ)
      → Always SameConns (
          if b then pure tt else do
            user_update_state D (record no_user { id = id; state = offline })
            notify_friend_state J D R id offline)
  goodbye-SameConns b id = record { at = λ s. ((goodbye-SameMaps b id).at s).conns }

  -- A connection on which two users logged in: its close takes only one of them out of the map, and
  -- the other stays connected to a dead connection.
  close_keeps_second :
      (c : Conn) (first second : ℤ) (s : State Db Link)
      → owner c s.conns ≡ some first
      → lookup second s.conns ≡ some c
      → first ≢ second
      → lookup second (client_close J D R c s).1.conns ≡ some c
  unfolding client_close take_owner found_id without_found redis_unsubscribe forget_time ◌>>=◌
  close_keeps_second c first second s e f ne = rw e (
      ap (lookup second) ((goodbye-SameConns (eq_ℤ first minus_one) first).at _)
      ∙ (lookup-erase first second s.conns ∙ ground (arith, eq_ℤ_iff first second)))
