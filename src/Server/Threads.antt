-- ===== src/Server/Threads.antt =====
-- The handlers of `ChatService` as threads see them: muduo runs handlers of different connections
-- at the same time, and the lock `_connMutex` covers only stretches of a handler. A thread is a
-- sequence of regions, between which other threads run.
pub mod Handlers
pub mod Calm
pub mod Quiet
pub mod Regions
pub mod Mailbox
use qt_chat.Base.{List, [], ◌∷◌, Option, none, some}
use qt_chat.Server.State.{Action, Result, ok, thrown}

pub data Thread (S A : Type 0) : Type 0 where
  finished : Result A → Thread S A
  region : (S → S) → (S → Thread S A) → Thread S A

module _ {S A : Type 0} where
  abbrev pub give : A → Thread S A
  give a = finished (ok a)

  -- A call that no other thread can see in the middle.
  unfoldable pub locked : Action S A → Thread S A
  locked m = region (λ s. (m s).1) (λ s. finished (m s).0)

  unfoldable pub raise : Option A → Thread S A
  raise none = finished thrown
  raise (some a) = finished (ok a)

  -- The thread without others.
  unfoldable pub alone : Thread S A → S → Result A × S
  alone (finished r) s = (r, s)
  alone (region f k) s = alone (k s) (f s)

  -- The thread with what other threads do to the state: one change before each region, and none
  -- when the list ends.
  unfoldable pub among : List (S → S) → Thread S A → S → Result A × S
  unfolding alone
  among [] p s = alone p s
  among (e ∷ es) (finished r) s = (r, s)
  among (e ∷ es) (region f k) s = among es (k (e s)) (f (e s))

module _ {S A B : Type 0} where
  infixl 5 ◌>>=◌ ◌>>◌
  unfoldable pub ◌>>=◌ : Thread S A → (A → Thread S B) → Thread S B
  ◌>>=◌ (finished (ok a)) f = f a
  ◌>>=◌ (finished thrown) f = finished thrown
  ◌>>=◌ (region g k) f = region g (λ s. k s >>= f)

  abbrev pub ◌>>◌ : Thread S A → Thread S B → Thread S B
  p >> q = p >>= λ _. q

-- A loop over a vector whose body returns nothing.
unfoldable pub each : {S A : Type 0} → (A → Thread S (Unit {0})) → List A → Thread S (Unit {0})
each f [] = give tt
each f (x ∷ xs) = f x >> each f xs
