-- ===== src/Server/State/Rules.antt =====
-- Rules for actions, one for each way to build one: relations that every action keeps between the
-- state before and after, actions that do not throw, and actions that throw before they write.
use qt_chat.Base.{◌≡◌, refl, Bool, true, false, List, [], ◌∷◌, Option, none, some, arith}
use qt_chat.Base.Tests.{if◌then◌else◌}
use qt_chat.Server.State.{
  Result, ok, thrown, Action, pure, or_throw, gets, continue, ◌>>=◌, for_each,
}

-- A relation that composes.
pub record Composes {S : Type 0} (Q : S → S → Type 0) : Type 0 where
  pub same : (s : S) → Q s s
  pub then_also : (s t u : S) → Q s t → Q t u → Q s u

-- `Q` holds between the state before and the state after, also after a throw.
pub record Always {S A : Type 0} (Q : S → S → Type 0) (m : Action S A) : Type 0 where
  pub at : (s : S) → Q s (m s).1

pub record Returns {S A : Type 0} (m : Action S A) : Type 0 where
  pub at : (s : S) → (a : A) × ((m s).0 ≡ ok a)

-- If it throws, it has written nothing.
pub record Atomic {S A : Type 0} (m : Action S A) : Type 0 where
  pub at : (s : S) → (m s).0 ≡ thrown → (m s).1 ≡ s

module _ {S A : Type 0} {Q : S → S → Type 0} (q : Composes Q) where
  pub Always-pure : (a : A) → Always Q (pure a)
  unfolding pure
  Always-pure a = record { at = λ s. q.same s }

  pub Always-or_throw : (o : Option A) → Always Q (or_throw o)
  unfolding or_throw
  Always-or_throw none = record { at = λ s. q.same s }
  Always-or_throw (some a) = record { at = λ s. q.same s }

  pub Always-gets : (f : S → A) → Always Q (gets f)
  unfolding gets
  Always-gets f = record { at = λ s. q.same s }

  pub Always-if :
      (b : Bool) (m n : Action S A) → Always Q m → Always Q n → Always Q (if b then m else n)
  Always-if true m n hm hn = hm
  Always-if false m n hm hn = hn

module _ {S A B : Type 0} {Q : S → S → Type 0} (q : Composes Q) where
  Always-continue :
      (s t : S) (r : Result A) (f : A → Action S B)
      → Q s t
      → ((a : A) → Always Q (f a))
      → Q s (continue r f t).1
  Always-continue s t (ok a) f h k = q.then_also s t _ h ((k a).at t)
  Always-continue s t thrown f h k = h

  pub Always-bind :
      (m : Action S A) (f : A → Action S B)
      → Always Q m
      → ((a : A) → Always Q (f a))
      → Always Q (m >>= f)
  unfolding ◌>>=◌
  Always-bind m f h k = record { at = λ s. Always-continue s (m s).1 (m s).0 f (h.at s) k }

module _ {S A : Type 0} {Q : S → S → Type 0} (q : Composes Q) where
  pub Always-for_each :
      (f : A → Action S (Unit {0})) (xs : List A)
      → ((a : A) → Always Q (f a))
      → Always Q (for_each f xs)
  unfolding for_each
  Always-for_each f [] h = Always-pure q tt
  Always-for_each f (x ∷ xs) h =
      Always-bind q (f x) (λ _. for_each f xs) (h x) (λ _. Always-for_each f xs h)

pub ruleset always_rules =
    (Always-pure, Always-or_throw, Always-gets, Always-if, Always-bind, Always-for_each)

module _ {S A : Type 0} where
  pub Returns-pure : (a : A) → Returns {S = S} (pure a)
  unfolding pure
  Returns-pure a = record { at = λ s. (a, refl) }

  pub Returns-gets : (f : S → A) → Returns (gets f)
  unfolding gets
  Returns-gets f = record { at = λ s. (f s, refl) }

  pub Returns-if :
      (b : Bool) (m n : Action S A) → Returns m → Returns n → Returns (if b then m else n)
  Returns-if true m n hm hn = hm
  Returns-if false m n hm hn = hn

  pub Atomic-or_throw : (o : Option A) → Atomic {S = S} (or_throw o)
  unfolding or_throw
  Atomic-or_throw none = record { at = λ s e. refl }
  Atomic-or_throw (some a) = record { at = λ s e. refl }

  pub Atomic-if : (b : Bool) (m n : Action S A) → Atomic m → Atomic n → Atomic (if b then m else n)
  Atomic-if true m n hm hn = hm
  Atomic-if false m n hm hn = hn

  pub Atomic-Returns : (m : Action S A) → Returns m → Atomic m
  Atomic-Returns m h = record { at = λ s e. ground (arith, h.at s) }

module _ {S A B : Type 0} where
  Returns-continue :
      (s : S) (r : Result A) (f : A → Action S B)
      → (a : A) × (r ≡ ok a)
      → ((a : A) → Returns (f a))
      → (b : B) × ((continue r f s).0 ≡ ok b)
  Returns-continue s (ok a) f h k = (k a).at s
  Returns-continue s thrown f h k = absurd (ground arith)

  pub Returns-bind :
      (m : Action S A) (f : A → Action S B)
      → Returns m
      → ((a : A) → Returns (f a))
      → Returns (m >>= f)
  unfolding ◌>>=◌
  Returns-bind m f h k = record { at = λ s. Returns-continue (m s).1 (m s).0 f (h.at s) k }

  -- Reading a field of the message: nothing is written before a throw.
  pub Atomic-read :
      (o : Option A) (f : A → Action S B) → ((a : A) → Atomic (f a)) → Atomic (or_throw o >>= f)
  unfolding ◌>>=◌
  Atomic-read none f k = record { at = λ s e. refl }
  Atomic-read (some a) f k = k a

  -- What cannot throw may come before reads that can only where those do not follow; here nothing
  -- that throws follows.
  pub Atomic-tail :
      (m : Action S A) (f : A → Action S B)
      → Returns m
      → ((a : A) → Returns (f a))
      → Atomic (m >>= f)
  Atomic-tail m f h k = Atomic-Returns (m >>= f) (Returns-bind m f h k)

  -- The state after a call that returns, and a call after it.
  pub state-bind :
      (m : Action S A) (f : A → Action S B) (s : S) {a : A}
      → (m s).0 ≡ ok a
      → (m >>= f) s ≡ f a (m s).1
  unfolding ◌>>=◌
  state-bind m f s e = rw e refl

module _ {S A : Type 0} where
  pub Returns-for_each :
      (f : A → Action S (Unit {0})) (xs : List A)
      → ((a : A) → Returns (f a))
      → Returns (for_each f xs)
  unfolding for_each
  Returns-for_each f [] h = Returns-pure tt
  Returns-for_each f (x ∷ xs) h =
      Returns-bind (f x) (λ _. for_each f xs) (h x) (λ _. Returns-for_each f xs h)

pub ruleset returns_rules = (Returns-pure, Returns-gets, Returns-if, Returns-bind, Returns-for_each)
