-- ===== src/Server/Spread/Loops.antt =====
-- The loops of `groupChat`: what a loop did, and whom it left to the next one.
use mathlib.Core.List.{Perm, perm_middle}
use mathlib.Core.List.Perm
use qt_chat.Base.{◌≡◌, refl, subst, List, [], ◌∷◌, ◌++◌, map, append_assoc, append-nil}
use qt_chat.Base.Int.{ℤ}
use qt_chat.Base.Map.{int_eq}
use qt_chat.Server.Api.{JsonApi, Mysql, Pubsub}
use qt_chat.Server.State.{State, Event, Result, ok, pure, ◌>>=◌}
use qt_chat.Server.Service.{Act}
use qt_chat.Server.Routing.{Did, Did-trans}

module _ (J : JsonApi) (D : Mysql) (R : Pubsub) where
  open J use {Json, contains, get_int, dump}
  open D use {Db, query, escape}
  open R use {Link}

  -- A loop over users that made the calls `evs` and returned `left`: with one call `rest` for each
  -- user in `left` there is one call `whole` for each user of the loop.
  pub record Loop (rest whole : ℤ → Event) (ids : List ℤ) (s : State Db Link)
      (out : Result (List ℤ) × State Db Link) : Type 0 where
    pub left : List ℤ
    pub evs : List Event
    pub returned : out.0 ≡ ok left
    pub did : Did J D R evs s out.1
    pub all : Perm (evs ++ map rest left) (map whole ids)

  pub Loop-nil : (rest whole : ℤ → Event) (s : State Db Link) → Loop rest whole [] s (ok [], s)
  Loop-nil rest whole s = record {
    left = [];
    evs = [];
    returned = refl;
    did = record { conns = refl; users = λ j. refl; trace = refl };
    all = Perm.refl [];
  }

  pub Loop-after :
      (rest whole : ℤ → Event) (ids : List ℤ) (s t : State Db Link)
      (out : Result (List ℤ) × State Db Link)
      → Did J D R [] s t
      → Loop rest whole ids t out
      → Loop rest whole ids s out
  Loop-after rest whole ids s t out d l = record {
    left = l.left;
    evs = l.evs;
    returned = l.returned;
    did = subst (λ es. Did J D R es s out.1) (append-nil l.evs) (Did-trans J D R s t out.1 d l.did);
    all = l.all;
  }

  -- The user at the front got the call `e` at once.
  pub Loop-done :
      (rest whole : ℤ → Event) (id : ℤ) (ids : List ℤ) (s t : State Db Link)
      (out : Result (List ℤ) × State Db Link) (e : Event)
      → Did J D R (e ∷ []) s t
      → e ≡ whole id
      → Loop rest whole ids t out
      → Loop rest whole (id ∷ ids) s out
  Loop-done rest whole id ids s t out e d q l = record {
    left = l.left;
    evs = l.evs ++ e ∷ [];
    returned = l.returned;
    did = Did-trans J D R s t out.1 d l.did;
    all =
        rw (append_assoc l.evs (e ∷ []) (map rest l.left))
          (Perm.trans (perm_middle l.evs (map rest l.left)) (Perm.cons' q l.all));
  }

  -- The user at the front is left for later.
  pub Loop-later :
      (rest whole : ℤ → Event) (id : ℤ) (ids : List ℤ) (s : State Db Link) (m : Act J D R (List ℤ))
      → rest id ≡ whole id
      → Loop rest whole ids s (m s)
      → Loop rest whole (id ∷ ids) s ((m >>= λ away. pure (id ∷ away)) s)
  unfolding ◌>>=◌
  Loop-later rest whole id ids s m q l = record {
    left = id ∷ l.left;
    evs = l.evs;
    returned = rw (l.returned) refl;
    did = rw (l.returned) l.did;
    all = Perm.trans (perm_middle l.evs (map rest l.left)) (Perm.cons' q l.all);
  }
