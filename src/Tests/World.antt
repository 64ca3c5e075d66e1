-- ===== src/Tests/World.antt =====
-- A small world to run the server in: json objects as lists of fields, tables with one user row,
-- and a Redis that takes every call.
use qt_chat.Base.{String, true, refl, List, [], ◌∷◌, Option, none, some}
use qt_chat.Base.Tests.{if◌then◌else◌, is_some, ◌==◌}
use qt_chat.Base.Int.{ℤ, pos}
use qt_chat.Base.Lists.{Str, codes, str_eq}
use qt_chat.Base.Map.{Map, str_key}
use qt_chat.Server.Api.{
  Field, num, text, JsonApi, Sql, select_user, select_member_ids, select_friends, Mysql, Pubsub,
}
use qt_chat.Server.State.{Conn, State}
use qt_chat.Server.Routing.{Serving}

abbrev pub Fields : Type 0
Fields = List (String × Field)

unfoldable pub find_field : String → Fields → Option Field
find_field key [] = none
find_field key ((k, f) ∷ fs) = if str_eq (codes k) (codes key) then some f else find_field key fs

abbrev pub as_int : Option Field → Option ℤ
as_int (some (num n)) = some n
as_int _ = none

abbrev pub as_text : Option Field → Option Str
as_text (some (text s)) = some s
as_text _ = none

-- Every text parses to an object without fields, and every object prints to the same text.
abbrev pub json : JsonApi
json = record {
  Json = Fields;
  contains = λ js k. is_some (find_field k js);
  get_int = λ js k. as_int (find_field k js);
  get_text = λ js k. as_text (find_field k js);
  object = λ fs. fs;
  dump = λ js. codes "{}";
  parse = λ s. some [];
}

-- Each user has the password "pw", and only user 8 is online; no user has a negative id; each group has two
-- other members, each user two friends, and no offline message waits.
abbrev pub rows : Sql → List (List Str)
rows (select_user (pos n)) =
    (codes "5"
      ∷ codes "ann"
      ∷ codes "pw"
      ∷ (if n == 8 then codes "online" else codes "offline")
      ∷ [])
    ∷ []
rows (select_member_ids g u) = (codes "6" ∷ []) ∷ (codes "7" ∷ []) ∷ []
rows (select_friends u) =
    (codes "6" ∷ codes "bob" ∷ codes "offline" ∷ [])
    ∷ (codes "7" ∷ codes "eve" ∷ codes "offline" ∷ [])
    ∷ []
rows _ = []

abbrev pub tables : Mysql
tables = record {
  Db = Unit {0};
  acquire = λ db. (true, db);
  update = λ sql db. (true, db);
  query = λ sql db. some (rows sql);
  insert_id = λ db. pos 1;
  escape = λ s. s;
}

abbrev pub redis : Pubsub
redis = record {
  Link = Unit {0};
  publish = λ c m l. (true, l);
  subscribe = λ c l. (true, l);
  unsubscribe = λ c l. (true, l);
}

pub serving : Serving tables
serving = record { given = λ db. refl; reads = λ sql db. refl; stores = λ id to msg db. refl }

abbrev pub phone : Conn
phone = record { ptr = 1; name = codes "phone" }

abbrev pub laptop : Conn
laptop = record { ptr = 2; name = codes "laptop" }

abbrev pub World : Type 0
World = State (Unit {0}) (Unit {0})

abbrev pub with_conns : Map ℤ Conn → World
with_conns m = record { conns = m; last_time = []; db = tt; link = tt; trace = [] }
