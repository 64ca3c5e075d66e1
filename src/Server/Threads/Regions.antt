-- ===== src/Server/Threads/Regions.antt =====
-- The regions of `login` after the state is set, and the offline messages of the user.
use qt_chat.Base.{◌≡◌, refl, ap, List, [], ◌∷◌, map}
use qt_chat.Base.Int.{ℤ}
use qt_chat.Base.Lists.{Str}
use qt_chat.Wire.{packet}
use qt_chat.Server.Api.{JsonApi, Mysql, Pubsub, delete_offline}
use qt_chat.Server.State.{
  Conn, State, Event, sent, published, ran, Action, Result, ok, thrown, emit,
}
use qt_chat.Server.State as Whole
use qt_chat.Server.State.Rules.{Composes, Always, Always-gets}
use qt_chat.Server.Models.{
  column, with_connection, run_update, run_query, offline_remove, offline_query,
}
use qt_chat.Server.Service.{send_json, redis_publish}
use qt_chat.Server.Threads.Handlers.{notify_thread}
use qt_chat.Server.Threads.Quiet.{Quiet, Quiet-locked, Quiet-bind, Quiet-each}
use qt_chat.Server.Threads.Calm.{Mailbox, Calm, Calm-Composes, emit-Calm, friend_query-Calm, News}

columns : (ms : List Str) → map (column 0) (map (λ m. m ∷ []) ms) ≡ ms
unfolding column
columns [] = refl
columns (m ∷ ms) = ap (λ x. m ∷ x) (columns ms)

module _ (J : JsonApi) (D : Mysql) (R : Pubsub) (M : Mailbox D) (id : ℤ) where
  open D use {Db, acquire}
  open R use {Link}

  abbrev Same : State Db Link → State Db Link → Type 0
  Same = Calm D M id

  pub composes : Composes Same
  composes = Calm-Composes D M id

  send_json-Calm : (c : Conn) (js : J.Json) → Always Same (send_json J D R c js)
  unfolding send_json
  send_json-Calm c js = emit-Calm D M id (sent c (packet (J.dump js)))

  publish-Calm : (c : ℤ) (msg : Str) → Always Same (redis_publish J D R c msg)
  unfolding redis_publish
  publish-Calm c msg = record {
    at = λ s. record { same_box = refl; news = (published c msg ∷ [], refl) };
  }

  pub notify-Quiet : (k : ℤ) (st : Str) → Quiet Same (notify_thread J D R k st)
  unfolding notify_thread
  notify-Quiet k st =
      Quiet-bind composes _ _ (Quiet-locked composes _ (friend_query-Calm D M id k)) λ friends.
        Quiet-bind composes _ _ (Quiet-locked composes _ (Always-gets composes _)) λ m.
          Quiet-bind composes _ _
            (Quiet-each composes _ _ (λ c. Quiet-locked composes _ (send_json-Calm c _)))
            (λ _. Quiet-each composes _ _ (λ c. Quiet-locked composes _ (publish-Calm c _)))

  -- The query reads the messages that wait.
  pub query_ok :
      (s : State Db Link)
      → offline_query D id s ≡ (ok (M.box s.db id), record s { db = (acquire s.db).1 })
  unfolding offline_query with_connection run_query Whole.◌>>=◌ Whole.pure
  query_ok s = rw (M.given s.db) (
      rw (M.reads (acquire s.db).1 id) (
        rw (M.kept s.db id)
          (ap (λ ms. (ok ms, record s { db = (acquire s.db).1 })) (columns (M.box s.db id)))))

  -- The delete leaves none.
  pub remove-box : (s : State Db Link) → M.box (offline_remove D id s).1.db id ≡ []
  unfolding offline_remove with_connection run_update
  remove-box s = rw (M.given s.db) (M.removes (acquire s.db).1 id)

  pub remove-News : (s : State Db Link) → News s (offline_remove D id s).1
  unfolding offline_remove with_connection run_update
  remove-News s = (ran (delete_offline id) ∷ [], rw (M.given s.db) refl)
