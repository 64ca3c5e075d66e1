-- ===== src/Tests/ThreadRuns.antt =====
-- Threads of the server over a table of the offline messages of one user, who logs in while a
-- message for the user comes.
use qt_chat.Base.{◌≡◌, refl, sym, append-nil, true, List, [], ◌∷◌, ◌++◌, map, some, arith}
use qt_chat.Base.Int.{pos}
use qt_chat.Base.Lists.{Str, codes}
use qt_chat.Server.Api.{Mysql, Sql, insert_offline, delete_offline, select_offline}
use qt_chat.Server.State.{State}
use qt_chat.Server.Models.{User, online, offline_insert}
use qt_chat.Server.State
use qt_chat.Server.Models
use qt_chat.Server.Service
use qt_chat.Server.Threads
use qt_chat.Server.Threads.{alone, among}
use qt_chat.Server.Threads.Handlers.{greet_thread}
use qt_chat.Server.Threads.Calm.{Mailbox}
use qt_chat.Server.Threads.Mailbox.{Stores, Accounted, offline_insert-Stores, greeting_accounts}
use qt_chat.Tests.World.{json, redis, phone}

abbrev changed : Sql → List Str → List Str
changed (insert_offline to msg) ms = ms ++ msg ∷ []
changed (delete_offline to) ms = []
changed _ ms = ms

abbrev rows : Sql → List Str → List (List Str)
rows (select_offline to) ms = map (λ m. m ∷ []) ms
rows _ ms = []

abbrev messages : Mysql
messages = record {
  Db = List Str;
  acquire = λ db. (true, db);
  update = λ sql db. (true, changed sql db);
  query = λ sql db. some (rows sql db);
  insert_id = λ db. pos 1;
  escape = λ s. s;
}

abbrev mailbox : Mailbox messages
mailbox = record {
  box = λ db id. db;
  given = λ db. refl;
  kept = λ db id. refl;
  reads = λ db id. refl;
  removes = λ db id. refl;
  stores = λ db id msg. refl;
}

abbrev Server : Type 0
Server = State (List Str) (Unit {0})

abbrev waiting : Server
waiting = record { conns = []; last_time = []; db = codes "a" ∷ []; link = tt; trace = [] }

abbrev empty : Server
empty = record { conns = []; last_time = []; db = []; link = tt; trace = [] }

abbrev ann : User
ann = record { id = pos 5; name = codes "ann"; password = codes "pw"; state = online }

abbrev nothing : Server → Server
nothing s = s

nothing_stored : Stores json messages redis mailbox (pos 5) [] nothing
nothing_stored = record { boxes = λ s. sym (append-nil s.db); news = λ s. ([], refl) }

abbrev stores : Str → Server → Server
stores msg s = (offline_insert messages (pos 5) msg s).1

b_stored : Stores json messages redis mailbox (pos 5) (codes "b" ∷ []) (stores (codes "b"))
b_stored = offline_insert-Stores json messages redis mailbox (pos 5) (codes "b") (omega arith)

c_stored : Stores json messages redis mailbox (pos 5) (codes "c" ∷ []) (stores (codes "c"))
c_stored = offline_insert-Stores json messages redis mailbox (pos 5) (codes "c") (omega arith)

-- "b" comes before the query, and "c" between the query and the delete.
abbrev others : List (Server → Server)
others = stores (codes "b") ∷ nothing ∷ stores (codes "c") ∷ nothing ∷ nothing ∷ []

abbrev greeted : Server → Server
greeted s = (among others (greet_thread json messages redis phone (pos 5) ann) s).1

greeting_accounts_example :
    Accounted json messages redis mailbox
      (pos 5)
      nothing
      (stores (codes "c"))
      nothing
      nothing
      []
      (codes "c" ∷ [])
      []
      []
      nothing_stored
      c_stored
      nothing_stored
      nothing_stored
      phone
      ann
      (codes "a" ∷ codes "b" ∷ [])
      (greeted waiting)
greeting_accounts_example =
    greeting_accounts json messages redis mailbox (pos 5) nothing (stores (codes "c")) nothing
      nothing [] (codes "c" ∷ []) [] [] nothing_stored c_stored nothing_stored nothing_stored
      (stores (codes "b")) (codes "b" ∷ []) b_stored phone ann waiting

c_is_lost : (greeted waiting).db ≡ []
unfolding among greet_thread offline_insert Threads.◌>>=◌ Threads.locked Models.offline_query
    State.◌>>=◌ Models.friend_query Models.query_groups Service.send_json State.emit
    Models.offline_statement Models.offline_remove Threads.each
c_is_lost = refl

abbrev c_alone : List (Server → Server)
c_alone = nothing ∷ nothing ∷ stores (codes "c") ∷ nothing ∷ nothing ∷ []

c_waits :
    (among c_alone (greet_thread json messages redis phone (pos 5) ann) empty).1.db ≡ codes "c" ∷ []
unfolding among greet_thread offline_insert Threads.◌>>=◌ Threads.locked Models.offline_query
    State.◌>>=◌ Models.friend_query Models.query_groups Service.send_json State.emit
    Models.offline_statement Models.offline_remove Threads.each
c_waits = refl
