-- ===== src/Server/Threads/Quiet.antt =====
-- Threads whose regions keep a relation, and one step of a thread among others.
use qt_chat.Base.{◌≡◌, ap, List, [], ◌∷◌}
use qt_chat.Server.State.{Action, ok, thrown}
use qt_chat.Server.State.Rules.{Composes, Always, Returns}
use qt_chat.Server.Threads.{Thread, finished, region, give, locked, alone, among, each, ◌>>=◌}

-- Every region of the thread keeps the relation between the state before and after.
unfoldable pub Quiet : {S A : Type 0} → (S → S → Type 0) → Thread S A → Type 0
Quiet Q (finished r) = Unit
Quiet Q (region f k) = ((s : _) → Q s (f s)) × ((s : _) → Quiet Q (k s))

module _ {S : Type 0} {Q : S → S → Type 0} (q : Composes Q) where
  pub Quiet-locked : {A : Type 0} (m : Action S A) → Always Q m → Quiet Q (locked m)
  unfolding Quiet locked
  Quiet-locked m h = (h.at, λ s. tt)

  pub Quiet-give : {A : Type 0} (a : A) → Quiet {S = S} Q (give a)
  unfolding Quiet
  Quiet-give a = tt

  pub Quiet-bind :
      {A B : Type 0} (p : Thread S A) (f : A → Thread S B)
      → Quiet Q p
      → ((a : A) → Quiet Q (f a))
      → Quiet Q (p >>= f)
  unfolding Quiet ◌>>=◌
  Quiet-bind (finished (ok a)) f h k = k a
  Quiet-bind (finished thrown) f h k = tt
  Quiet-bind (region g c) f h k = (h.0, λ s. Quiet-bind (c s) f (h.1 s) k)

  pub Quiet-each :
      {A : Type 0} (f : A → Thread S (Unit {0})) (xs : List A)
      → ((a : A) → Quiet Q (f a))
      → Quiet Q (each f xs)
  unfolding each
  Quiet-each f [] h = Quiet-give tt
  Quiet-each f (x ∷ xs) h = Quiet-bind (f x) (λ _. each f xs) (h x) (λ _. Quiet-each f xs h)

  pub alone-Quiet : {A : Type 0} (p : Thread S A) (s : S) → Quiet Q p → Q s (alone p s).1
  unfolding alone Quiet
  alone-Quiet (finished r) s h = q.same s
  alone-Quiet (region f k) s h =
      q.then_also s (f s) (alone (k s) (f s)).1 (h.0 s) (alone-Quiet (k s) (f s) (h.1 s))

-- The next region of a thread, a call that returns, runs after a change by the others.
pub next_region :
    {S A B : Type 0} (e : S → S) (es : List (S → S)) (m : Action S A) (f : A → Thread S B) (s : S)
    → Returns m
    → (a : A) × (among (e ∷ es) (locked m >>= f) s ≡ among es (f a) (m (e s)).1)
unfolding among locked ◌>>=◌
next_region e es m f s r =
    let (a, b) = r.at (e s) in (a, ap (λ x. among es (finished x >>= f) (m (e s)).1) b)
