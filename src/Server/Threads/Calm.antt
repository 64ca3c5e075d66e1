-- ===== src/Server/Threads/Calm.antt =====
-- The offline messages of a user, and changes of the state that leave them alone and only add to
-- the calls so far.
use qt_chat.Base.{
  ◌≡◌, refl, sym, ap, ◌∙◌, Bool, true, false, List, [], ◌∷◌, ◌++◌, append_assoc, map, some,
}
use qt_chat.Base.Tests.{if◌then◌else◌}
use qt_chat.Base.Int.{ℤ}
use qt_chat.Base.Lists.{Str}
use qt_chat.Server.Api.{Mysql, Sql, insert_offline, delete_offline, select_offline}
use qt_chat.Server.State.{State, Event, Action, ok, emit}
use qt_chat.Server.State.Rules.{Composes, Always, always_rules, Always-bind, Always-pure}
use qt_chat.Server.Models.{
  Group, with_connection, run_query, fill_groups, friend_query, query_groups,
}

-- What the server relies on in the table `OfflineMessage`: the pool gives connections, a select
-- returns the rows of the user in the order of their insertion, an insert adds a row at the end, and
-- a delete removes them.
pub record Mailbox (D : Mysql) : Type 0 where
  pub box : D.Db → ℤ → List Str
  pub given : (db : D.Db) → (D.acquire db).0 ≡ true
  pub kept : (db : D.Db) (id : ℤ) → box (D.acquire db).1 id ≡ box db id
  pub reads :
      (db : D.Db) (id : ℤ) → D.query (select_offline id) db ≡ some (map (λ m. m ∷ []) (box db id))
  pub removes : (db : D.Db) (id : ℤ) → box (D.update (delete_offline id) db).1 id ≡ []
  pub stores :
      (db : D.Db) (id : ℤ) (msg : Str)
      → box (D.update (insert_offline id msg) db).1 id ≡ box db id ++ msg ∷ []

-- The calls so far grew.
abbrev pub News : {Db Link : Type 0} → State Db Link → State Db Link → Type 0
News s t = (es : List Event) × (t.trace ≡ es ++ s.trace)

pub News-then : {Db Link : Type 0} (s t u : State Db Link) → News s t → News t u → News s u
News-then s t u (es, c) (fs, d) =
    (fs ++ es, d ∙ ap (λ x. fs ++ x) c ∙ sym (append_assoc fs es s.trace))

module _ (D : Mysql) (M : Mailbox D) {Link : Type 0} (id : ℤ) where
  open D use {Db, acquire, update}

  -- The messages of the user are the same in both states, and calls may have been made.
  pub record Calm (s t : State Db Link) : Type 0 where
    pub same_box : M.box t.db id ≡ M.box s.db id
    pub news : News s t

  pub Calm-Composes : Composes Calm
  Calm-Composes = record {
    same = λ s. record { same_box = refl; news = ([], refl) };
    then_also = λ s t u h k. record {
      same_box = k.same_box ∙ h.same_box;
      news = News-then s t u h.news k.news;
    };
  }

  given-Calm :
      {A : Type 0} (b : Bool) (a : A) (m : Action (State Db Link) A) (s t : State Db Link)
      → Always Calm m
      → Calm s t
      → Calm s (if b then m t else (ok a, t)).1
  given-Calm true a m s t h k = Calm-Composes.then_also s t (m t).1 k (h.at t)
  given-Calm false a m s t h k = k

  pub with_connection-Calm :
      {A : Type 0} (a : A) (m : Action (State Db Link) A)
      → Always Calm m
      → Always Calm (with_connection D a m)
  unfolding with_connection
  with_connection-Calm a m h = record {
    at = λ s.
        given-Calm (acquire s.db).0 a m s (record s { db = (acquire s.db).1 }) h
          (record { same_box = M.kept s.db id; news = ([], refl) });
  }

  pub run_query-Calm : (sql : Sql) → Always Calm (run_query D sql)
  unfolding run_query
  run_query-Calm sql = record { at = λ s. Calm-Composes.same s }

  pub emit-Calm : (e : Event) → Always Calm (emit e)
  unfolding emit
  emit-Calm e = record { at = λ s. record { same_box = refl; news = (e ∷ [], refl) } }

ruleset calm_rules = (always_rules, Calm-Composes, with_connection-Calm, run_query-Calm)

module _ (D : Mysql) (M : Mailbox D) {Link : Type 0} (id : ℤ) where
  open D use {Db}

  pub friend_query-Calm : (k : ℤ) → Always (Calm D M {Link = Link} id) (friend_query D k)
  unfolding friend_query
  friend_query-Calm k = search calm_rules

  fill_groups-Calm : (gs : List Group) → Always (Calm D M {Link = Link} id) (fill_groups D gs)
  unfolding fill_groups
  fill_groups-Calm [] = Always-pure (Calm-Composes D M id) []
  fill_groups-Calm (g ∷ gs) =
      Always-bind (Calm-Composes D M id) _ _ (run_query-Calm D M id _) λ rows.
        Always-bind (Calm-Composes D M id) _ _ (fill_groups-Calm gs)
          λ rest. Always-pure (Calm-Composes D M id) _

  pub query_groups-Calm : (k : ℤ) → Always (Calm D M {Link = Link} id) (query_groups D k)
  unfolding query_groups
  query_groups-Calm k = search (calm_rules, fill_groups-Calm)
