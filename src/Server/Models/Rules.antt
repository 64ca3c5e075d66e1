-- ===== src/Server/Models/Rules.antt =====
-- What every call of a table model does: it does not throw, and it leaves the two maps alone.
use qt_chat.Base.{◌≡◌, refl, ◌∙◌, Bool, true, false, List, [], ◌∷◌}
use qt_chat.Base.Tests.{if◌then◌else◌}
use qt_chat.Base.Int.{ℤ}
use qt_chat.Base.Lists.{Str}
use qt_chat.Server.Api.{Mysql, Sql}
use qt_chat.Server.State.{State, Action, ok}
use qt_chat.Server.State.Rules.{
  Composes, Always, Returns, always_rules, returns_rules, Always-pure, Always-bind, Returns-pure,
  Returns-bind,
}
use qt_chat.Server.Models.{
  User, Group, with_connection, run_update, run_query, with_id, with_group_id, fill_groups,
  user_insert, user_query, user_update_state, user_update_name, user_reset_state, friend_insert,
  friend_query, group_insert, member_insert, query_groups, query_group_users, query_group,
  offline_insert, offline_remove, offline_query,
}

-- The two maps of `ChatService` are the same in both states.
pub record SameMaps {Db Link : Type 0} (s t : State Db Link) : Type 0 where
  pub conns : t.conns ≡ s.conns
  pub last_time : t.last_time ≡ s.last_time

pub SameMaps-Composes : {Db Link : Type 0} → Composes (SameMaps {Db = Db} {Link = Link})
SameMaps-Composes = record {
  same = λ s. record { conns = refl; last_time = refl };
  then_also =
      λ s t u h k. record { conns = k.conns ∙ h.conns; last_time = k.last_time ∙ h.last_time };
}

module _ (D : Mysql) {Link : Type 0} {A : Type 0} where
  open D use {Db, acquire}

  given-Returns :
      (b : Bool) (a : A) (m : Action (State Db Link) A) (s : State Db Link)
      → Returns m
      → (x : A) × ((if b then m s else (ok a, s)).0 ≡ ok x)
  given-Returns true a m s h = h.at s
  given-Returns false a m s h = (a, refl)

  given-SameMaps :
      (b : Bool) (a : A) (m : Action (State Db Link) A) (s t : State Db Link)
      → Always SameMaps m
      → SameMaps s t
      → SameMaps s (if b then m t else (ok a, t)).1
  given-SameMaps true a m s t h k = SameMaps-Composes.then_also s t _ k (h.at t)
  given-SameMaps false a m s t h k = k

  with_connection-Returns :
      (a : A) (m : Action (State Db Link) A) → Returns m → Returns (with_connection D a m)
  unfolding with_connection
  with_connection-Returns a m h = record { at = λ s. given-Returns (acquire s.db).0 a m _ h }

  with_connection-SameMaps :
      (a : A) (m : Action (State Db Link) A)
      → Always SameMaps m
      → Always SameMaps (with_connection D a m)
  unfolding with_connection
  with_connection-SameMaps a m h = record {
    at = λ s. given-SameMaps (acquire s.db).0 a m s _ h (record { conns = refl; last_time = refl });
  }

module _ (D : Mysql) {Link : Type 0} where
  open D use {Db}

  run_update-Returns : (sql : Sql) → Returns (run_update D {Link = Link} sql)
  unfolding run_update
  run_update-Returns sql = record { at = λ s. (_, refl) }

  run_query-Returns : (sql : Sql) → Returns (run_query D {Link = Link} sql)
  unfolding run_query
  run_query-Returns sql = record { at = λ s. (_, refl) }

  with_id-Returns : (u : User) (b : Bool) → Returns (with_id D {Link = Link} u b)
  unfolding with_id
  with_id-Returns u true = record { at = λ s. (_, refl) }
  with_id-Returns u false = record { at = λ s. (_, refl) }

  with_group_id-Returns : (g : Group) (b : Bool) → Returns (with_group_id D {Link = Link} g b)
  unfolding with_group_id
  with_group_id-Returns u true = record { at = λ s. (_, refl) }
  with_group_id-Returns u false = record { at = λ s. (_, refl) }

  run_update-SameMaps : (sql : Sql) → Always SameMaps (run_update D {Link = Link} sql)
  unfolding run_update
  run_update-SameMaps sql = record { at = λ s. record { conns = refl; last_time = refl } }

  run_query-SameMaps : (sql : Sql) → Always SameMaps (run_query D {Link = Link} sql)
  unfolding run_query
  run_query-SameMaps sql = record { at = λ s. record { conns = refl; last_time = refl } }

  with_id-SameMaps : (u : User) (b : Bool) → Always SameMaps (with_id D {Link = Link} u b)
  unfolding with_id
  with_id-SameMaps u true = record { at = λ s. record { conns = refl; last_time = refl } }
  with_id-SameMaps u false = record { at = λ s. record { conns = refl; last_time = refl } }

  with_group_id-SameMaps :
      (g : Group) (b : Bool) → Always SameMaps (with_group_id D {Link = Link} g b)
  unfolding with_group_id
  with_group_id-SameMaps u true = record { at = λ s. record { conns = refl; last_time = refl } }
  with_group_id-SameMaps u false = record { at = λ s. record { conns = refl; last_time = refl } }

ruleset db_returns = (
  returns_rules, with_connection-Returns, run_update-Returns, run_query-Returns, with_id-Returns,
  with_group_id-Returns,
)

ruleset db_maps = (
  always_rules, SameMaps-Composes, with_connection-SameMaps, run_update-SameMaps,
  run_query-SameMaps, with_id-SameMaps, with_group_id-SameMaps,
)

module _ (D : Mysql) {Link : Type 0} where
  open D use {Db}

  fill_groups-Returns : (gs : List Group) → Returns (fill_groups D {Link = Link} gs)
  unfolding fill_groups
  fill_groups-Returns [] = Returns-pure []
  fill_groups-Returns (g ∷ gs) =
      Returns-bind _ _ (run_query-Returns D _)
        λ rows. Returns-bind _ _ (fill_groups-Returns gs) λ rest. Returns-pure _

  fill_groups-SameMaps : (gs : List Group) → Always SameMaps (fill_groups D {Link = Link} gs)
  unfolding fill_groups
  fill_groups-SameMaps [] = Always-pure SameMaps-Composes []
  fill_groups-SameMaps (g ∷ gs) = Always-bind SameMaps-Composes _ _ (run_query-SameMaps D _) λ rows.
      Always-bind SameMaps-Composes _ _ (fill_groups-SameMaps gs)
        λ rest. Always-pure SameMaps-Composes _

  pub user_insert-Returns : (u : User) → Returns (user_insert D {Link = Link} u)
  unfolding user_insert
  user_insert-Returns u = search db_returns

  pub user_query-Returns : (id : ℤ) → Returns (user_query D {Link = Link} id)
  unfolding user_query
  user_query-Returns id = search db_returns

  pub user_update_state-Returns : (u : User) → Returns (user_update_state D {Link = Link} u)
  unfolding user_update_state
  user_update_state-Returns u = search db_returns

  pub user_update_name-Returns :
      (id : ℤ) (name : Str) → Returns (user_update_name D {Link = Link} id name)
  unfolding user_update_name
  user_update_name-Returns id name = search db_returns

  pub user_reset_state-Returns : Returns (user_reset_state D {Link = Link})
  unfolding user_reset_state
  user_reset_state-Returns = search db_returns

  pub friend_insert-Returns : (a b : ℤ) → Returns (friend_insert D {Link = Link} a b)
  unfolding friend_insert
  friend_insert-Returns a b = search db_returns

  pub friend_query-Returns : (id : ℤ) → Returns (friend_query D {Link = Link} id)
  unfolding friend_query
  friend_query-Returns id = search db_returns

  pub group_insert-Returns : (g : Group) → Returns (group_insert D {Link = Link} g)
  unfolding group_insert
  group_insert-Returns g = search db_returns

  pub member_insert-Returns :
      (a b : ℤ) (role : Str) → Returns (member_insert D {Link = Link} a b role)
  unfolding member_insert
  member_insert-Returns a b role = search db_returns

  pub query_groups-Returns : (id : ℤ) → Returns (query_groups D {Link = Link} id)
  unfolding query_groups
  query_groups-Returns id = search (db_returns, fill_groups-Returns)

  pub query_group_users-Returns : (a b : ℤ) → Returns (query_group_users D {Link = Link} a b)
  unfolding query_group_users
  query_group_users-Returns a b = search db_returns

  pub query_group-Returns : (id : ℤ) → Returns (query_group D {Link = Link} id)
  unfolding query_group
  query_group-Returns id = search db_returns

  pub offline_insert-Returns :
      (id : ℤ) (msg : Str) → Returns (offline_insert D {Link = Link} id msg)
  unfolding offline_insert
  offline_insert-Returns id msg = search db_returns

  pub offline_remove-Returns : (id : ℤ) → Returns (offline_remove D {Link = Link} id)
  unfolding offline_remove
  offline_remove-Returns id = search db_returns

  pub offline_query-Returns : (id : ℤ) → Returns (offline_query D {Link = Link} id)
  unfolding offline_query
  offline_query-Returns id = search db_returns

  pub user_insert-SameMaps : (u : User) → Always SameMaps (user_insert D {Link = Link} u)
  unfolding user_insert
  user_insert-SameMaps u = search db_maps

  pub user_query-SameMaps : (id : ℤ) → Always SameMaps (user_query D {Link = Link} id)
  unfolding user_query
  user_query-SameMaps id = search db_maps

  pub user_update_state-SameMaps :
      (u : User) → Always SameMaps (user_update_state D {Link = Link} u)
  unfolding user_update_state
  user_update_state-SameMaps u = search db_maps

  pub user_update_name-SameMaps :
      (id : ℤ) (name : Str) → Always SameMaps (user_update_name D {Link = Link} id name)
  unfolding user_update_name
  user_update_name-SameMaps id name = search db_maps

  pub user_reset_state-SameMaps : Always SameMaps (user_reset_state D {Link = Link})
  unfolding user_reset_state
  user_reset_state-SameMaps = search db_maps

  pub friend_insert-SameMaps : (a b : ℤ) → Always SameMaps (friend_insert D {Link = Link} a b)
  unfolding friend_insert
  friend_insert-SameMaps a b = search db_maps

  pub friend_query-SameMaps : (id : ℤ) → Always SameMaps (friend_query D {Link = Link} id)
  unfolding friend_query
  friend_query-SameMaps id = search db_maps

  pub group_insert-SameMaps : (g : Group) → Always SameMaps (group_insert D {Link = Link} g)
  unfolding group_insert
  group_insert-SameMaps g = search db_maps

  pub member_insert-SameMaps :
      (a b : ℤ) (role : Str) → Always SameMaps (member_insert D {Link = Link} a b role)
  unfolding member_insert
  member_insert-SameMaps a b role = search db_maps

  pub query_groups-SameMaps : (id : ℤ) → Always SameMaps (query_groups D {Link = Link} id)
  unfolding query_groups
  query_groups-SameMaps id = search (db_maps, fill_groups-SameMaps)

  pub query_group_users-SameMaps :
      (a b : ℤ) → Always SameMaps (query_group_users D {Link = Link} a b)
  unfolding query_group_users
  query_group_users-SameMaps a b = search db_maps

  pub query_group-SameMaps : (id : ℤ) → Always SameMaps (query_group D {Link = Link} id)
  unfolding query_group
  query_group-SameMaps id = search db_maps

  pub offline_insert-SameMaps :
      (id : ℤ) (msg : Str) → Always SameMaps (offline_insert D {Link = Link} id msg)
  unfolding offline_insert
  offline_insert-SameMaps id msg = search db_maps

  pub offline_remove-SameMaps : (id : ℤ) → Always SameMaps (offline_remove D {Link = Link} id)
  unfolding offline_remove
  offline_remove-SameMaps id = search db_maps

  pub offline_query-SameMaps : (id : ℤ) → Always SameMaps (offline_query D {Link = Link} id)
  unfolding offline_query
  offline_query-SameMaps id = search db_maps

pub ruleset model_returns = (
  user_insert-Returns, user_query-Returns, user_update_state-Returns, user_update_name-Returns,
  user_reset_state-Returns, friend_insert-Returns, friend_query-Returns, group_insert-Returns,
  member_insert-Returns, query_groups-Returns, query_group_users-Returns, query_group-Returns,
  offline_insert-Returns, offline_remove-Returns, offline_query-Returns,
)

pub ruleset model_maps = (
  user_insert-SameMaps, user_query-SameMaps, user_update_state-SameMaps, user_update_name-SameMaps,
  user_reset_state-SameMaps, friend_insert-SameMaps, friend_query-SameMaps, group_insert-SameMaps,
  member_insert-SameMaps, query_groups-SameMaps, query_group_users-SameMaps, query_group-SameMaps,
  offline_insert-SameMaps, offline_remove-SameMaps, offline_query-SameMaps,
)
