-- ===== src/Server/State.antt =====
-- The state of `ChatService`, the calls that leave the process, and the monad of the handlers:
-- state with C++ exceptions. What was written before a throw stays written.
pub mod Rules
use qt_chat.Base.{ℕ, Bool, List, ◌∷◌, [], Option, none, some}
use qt_chat.Base.Tests.{if◌then◌else◌, ◌==◌}
use qt_chat.Base.Int.{ℤ}
use qt_chat.Base.Lists.{Str}
use qt_chat.Base.Map.{Map}
use qt_chat.Server.Api.{Sql}

-- A `TcpConnectionPtr`: the pointer, by which `==` compares, and the connection's name.
pub record Conn : Type 0 where
  pub ptr : ℕ
  pub name : Str

abbrev pub same_conn : Conn → Conn → Bool
same_conn a b = a.ptr == b.ptr

-- The calls that leave the process: `conn->send`, `conn->shutdown`, an SQL statement that changes a
-- table, and the three calls of Redis.
pub data Event : Type 0 where
  sent : Conn → Str → Event
  closed : Conn → Event
  ran : Sql → Event
  published : ℤ → Str → Event
  subscribed : ℤ → Event
  unsubscribed : ℤ → Event

-- `_userConnMap`, `_connectionLastTime`, the world behind the models and Redis, and the calls so
-- far, the newest first.
pub record State (Db Link : Type 0) : Type 0 where
  pub conns : Map ℤ Conn
  pub last_time : Map Str (ℕ × Conn)
  pub db : Db
  pub link : Link
  pub trace : List Event

pub data Result (A : Type 0) : Type 0 where
  ok : A → Result A
  thrown : Result A

abbrev pub Action : Type 0 → Type 0 → Type 0
Action S A = S → Result A × S

module _ {S A : Type 0} where
  unfoldable pub pure : A → Action S A
  pure a s = (ok a, s)

  unfoldable pub or_throw : Option A → Action S A
  or_throw none s = (thrown, s)
  or_throw (some a) s = (ok a, s)

  unfoldable pub gets : (S → A) → Action S A
  gets f s = (ok (f s), s)

module _ {S A B : Type 0} where
  abbrev continue : Result A → (A → Action S B) → Action S B
  continue (ok a) f s = f a s
  continue thrown f s = (thrown, s)

  infixl 5 ◌>>=◌ ◌>>◌
  -- Opening this opens `pure`, `or_throw` and `gets` too.
  unfoldable pub ◌>>=◌ : Action S A → (A → Action S B) → Action S B
  unfolding pure or_throw gets
  ◌>>=◌ m f s = let (r, s') = m s in continue r f s'

  abbrev pub ◌>>◌ : Action S A → Action S B → Action S B
  m >> k = m >>= λ _. k

unfoldable pub emit : {Db Link : Type 0} → Event → Action (State Db Link) (Unit {0})
emit e s = (ok tt, record s { trace = e ∷ s.trace })

-- A loop over a vector whose body returns nothing.
unfoldable pub for_each : {S A : Type 0} → (A → Action S (Unit {0})) → List A → Action S (Unit {0})
for_each f [] = pure tt
for_each f (x ∷ xs) = f x >> for_each f xs
