-- ===== src/Server/Notices.antt =====
-- `notifyFriendState`: one notice for each friend.
use mathlib.Core.List.{Perm, perm_append_singleton, perm_middle}
use mathlib.Core.List.Perm
use qt_chat.Base.{
  ◌≡◌, refl, sym, ap, ◌∙◌, List, [], ◌∷◌, ◌++◌, map, append_assoc, Option, none, some, inl, inr,
}
use qt_chat.Base.Tests.{Option-cases}
use qt_chat.Base.Int.{ℤ}
use qt_chat.Base.Lists.{Str}
use qt_chat.Base.Map.{Map, lookup, int_eq}
use qt_chat.Wire.{packet}
use qt_chat.Server.Api.{JsonApi, Mysql, Pubsub}
use qt_chat.Server.State.{
  Conn, State, Event, sent, published, Result, ok, gets, emit, for_each, ◌>>=◌,
}
use qt_chat.Server.Models.{User, friend_query}
use qt_chat.Server.Replies.{friend_state}
use qt_chat.Server.Service.{send_json, redis_publish, sort_friends, notify_friend_state}

-- The notice for one friend: on the connection here, or on the friend's channel.
abbrev pub notice_by : Option Conn → Str → ℤ → Event
notice_by (some c) msg id = sent c (packet msg)
notice_by none msg id = published id msg

abbrev pub notice : Map ℤ Conn → Str → User → Event
notice m msg f = notice_by (lookup f.id m) msg f.id

module _ (J : JsonApi) (D : Mysql) (R : Pubsub) where
  open J use {dump}
  open D use {Db}
  open R use {Link}

  -- The two lists of the first loop have one notice for each friend.
  sorted :
      (m : Map ℤ Conn) (msg : Str) (fs : List User)
      → Perm
          (map (λ id. published id msg) (sort_friends J D R m fs).1
            ++ map (λ c. sent c (packet msg)) (sort_friends J D R m fs).0)
          (map (notice m msg) fs)
  unfolding sort_friends
  sorted m msg [] = Perm.refl []
  sorted m msg (f ∷ fs) = elim (Option-cases (lookup f.id m)) [
    | inl nobody ↦ rw (sort_friends, nobody) (Perm.cons (published f.id msg) (sorted m msg fs))
    | inr (c, here) ↦
        rw (sort_friends, here)
          (Perm.trans
            (perm_middle (map (λ id. published id msg) (sort_friends J D R m fs).1)
              (map (λ c. sent c (packet msg)) (sort_friends J D R m fs).0))
            (Perm.cons (sent c (packet msg)) (sorted m msg fs)))
  ]

  -- What a run that returns did: the calls, the newest first, with the maps and tables as before.
  pub record Called (evs : List Event) (s : State Db Link) (out : Result (Unit {0}) × State Db Link)
      : Type 0 where
    pub returned : out.0 ≡ ok tt
    pub conns : out.1.conns ≡ s.conns
    pub db : out.1.db ≡ s.db
    pub trace : out.1.trace ≡ evs ++ s.trace

  -- A loop whose body makes one call.
  each-Called :
      {A : Type 0} (f : A → State Db Link → Result (Unit {0}) × State Db Link) (e : A → Event)
      → ((x : A) (s : State Db Link) → Called (e x ∷ []) s (f x s))
      → (xs : List A) (s : State Db Link)
      → (evs : List Event) × Called evs s (for_each f xs s) × Perm evs (map e xs)
  unfolding for_each ◌>>=◌
  each-Called f e one [] s =
      ([], record { returned = refl; conns = refl; db = refl; trace = refl }, Perm.refl [])
  each-Called f e one (x ∷ xs) s =
      let here = one x s in
      let (evs, rest, p) = each-Called f e one xs (f x s).1 in
      (
        evs ++ e x ∷ [],
        rw here.returned (record {
          returned = rest.returned;
          conns = rest.conns ∙ here.conns;
          db = rest.db ∙ here.db;
          trace =
              rest.trace
              ∙ (ap (λ t. evs ++ t) here.trace ∙ sym (append_assoc evs (e x ∷ []) s.trace));
        }),
        Perm.trans (perm_append_singleton (e x) evs) (Perm.cons (e x) p),
      )

  -- A change of state sends exactly one notice for each friend that the table names, in some order:
  -- on the friend's connection if it is here, else on the friend's channel. Beyond the query, the
  -- connections and the tables stay.
  pub notify_once :
      (id : ℤ) (state : Str) (friends : List User) (s t : State Db Link)
      → friend_query D id s ≡ (ok friends, t)
      → (evs : List Event) × Called evs t (notify_friend_state J D R id state s)
        × Perm evs (map (notice t.conns (dump (friend_state J id state))) friends)
  unfolding notify_friend_state gets send_json redis_publish emit ◌>>=◌
  notify_once id state friends s t q =
      let msg = dump (friend_state J id state) in
      let (here, cross) = sort_friends J D R t.conns friends in
      let send : Conn → State Db Link → Result (Unit {0}) × State Db Link =
        λ c. send_json J D R c (friend_state J id state) in
      let publish : ℤ → State Db Link → Result (Unit {0}) × State Db Link =
        λ fid. redis_publish J D R fid msg in
      let (sends, did, p) =
        each-Called send (λ c. sent c (packet msg))
          (λ c u. record { returned = refl; conns = refl; db = refl; trace = refl }) here t in
      let (pubs, then_did, p') =
        each-Called publish (λ fid. published fid msg)
          (λ c u. record { returned = refl; conns = refl; db = refl; trace = refl }) cross
          (for_each send here t).1 in
      (
        pubs ++ sends,
        rw (q, did.returned)
            (record {
              returned = then_did.returned;
              conns = then_did.conns ∙ did.conns;
              db = then_did.db ∙ did.db;
              trace =
                  then_did.trace
                  ∙ (ap (λ u. pubs ++ u) did.trace ∙ sym (append_assoc pubs sends t.trace));
            }),
        Perm.trans (Perm.append p' p) (sorted t.conns msg friends),
      )
