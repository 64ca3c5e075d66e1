-- ===== src/Server/Threads/Mailbox.antt =====
-- The offline messages of a user between the query of `login` and the delete after its reply.
use qt_chat.Base.{◌≤◌, ◌≡◌, refl, sym, ap, subst, ◌∙◌, true, List, [], ◌∷◌, ◌++◌, append_assoc}
use qt_chat.Base.Tests.{if◌then◌else◌}
use qt_chat.Base.Int.{ℤ}
use qt_chat.Base.Lists.{Str, is_empty, length}
use qt_chat.Wire.{packet}
use qt_chat.Server.Api.{JsonApi, Mysql, Pubsub}
use qt_chat.Server.State.{Conn, State, Event, sent, emit}
use qt_chat.Server.Models.{
  User, Group, online, with_connection, run_update, friend_query, query_groups, offline_remove,
  offline_insert,
}
use qt_chat.Server.Models.Rules.{offline_remove-Returns, friend_query-Returns, query_groups-Returns}
use qt_chat.Server.Returns.{send_json-Returns}
use qt_chat.Server.Offline.{offline_statement_whole}
use qt_chat.Server.Replies.{login_ack}
use qt_chat.Server.Service.{send_json}
use qt_chat.Server.Threads.{finished, give, locked, alone, among, ◌>>=◌, ◌>>◌}
use qt_chat.Server.Threads.Handlers.{Task, notify_thread, greet_thread}
use qt_chat.Server.Threads.Quiet.{alone-Quiet, next_region}
use qt_chat.Server.Threads.Regions.{composes, notify-Quiet, query_ok, remove-box, remove-News}
use qt_chat.Server.Threads.Calm.{Mailbox, friend_query-Calm, query_groups-Calm, News, News-then}

settled :
    (w b ms : List Str)
    → b ≡ w
    → (if is_empty w then b ++ ms else []) ≡ (if is_empty w then ms else [])
settled [] b ms e = ap (λ x. x ++ ms) e
settled (m ∷ w) b ms e = refl

four_parts :
    (b m1 m2 m3 m4 : List Str) → (((b ++ m1) ++ m2) ++ m3) ++ m4 ≡ b ++ (m1 ++ (m2 ++ (m3 ++ m4)))
four_parts b m1 m2 m3 m4 =
    append_assoc ((b ++ m1) ++ m2) m3 m4
    ∙ append_assoc (b ++ m1) m2 (m3 ++ m4)
    ∙ append_assoc b m1 (m2 ++ (m3 ++ m4))

module _ (J : JsonApi) (D : Mysql) (R : Pubsub) (M : Mailbox D) (id : ℤ) where
  open D use {Db, acquire}
  open R use {Link}

  -- The end of `login`, from the delete on.
  abbrev ending : List Str → Task J D R
  ending w =
      (if is_empty w then give true else locked (offline_remove D id))
      >> notify_thread J D R id online

  -- A change by other threads that stores these messages for the user, and adds to the calls.
  pub record Stores (ms : List Str) (e : State Db Link → State Db Link) : Type 0 where
    pub boxes : (s : State Db Link) → M.box (e s).db id ≡ M.box s.db id ++ ms
    pub news : (s : State Db Link) → News s (e s)

  -- The store of a chat message to the user, which `oneChat` makes in a region of its own.
  pub offline_insert-Stores :
      (msg : Str)
      → length (D.escape msg) ≤ 1987
      → Stores (msg ∷ []) (λ s. (offline_insert D id msg s).1)
  unfolding offline_insert with_connection run_update
  offline_insert-Stores msg fits = record {
    boxes = λ s. rw (M.given s.db) (
        rw (offline_statement_whole id msg (D.escape msg) fits)
          (M.stores (acquire s.db).1 id msg ∙ ap (λ x. x ++ msg ∷ []) (M.kept s.db id)));
    news = λ s. rw (M.given s.db) (_ ∷ [], refl);
  }

  -- The end of the thread leaves these messages, and adds to the calls.
  record Ends (left : List Str) (s t : State Db Link) : Type 0 where
    boxes : M.box t.db id ≡ left
    news : News s t

  ending-Ends :
      (w ms : List Str) (e : State Db Link → State Db Link) (s : State Db Link)
      → Stores ms e
      → Ends (if is_empty w then M.box s.db id ++ ms else []) s (among (e ∷ []) (ending w) s).1
  unfolding among locked notify_thread ◌>>=◌
  ending-Ends [] ms e s h =
      let told = notify_thread J D R id online in
      let c = alone-Quiet (composes J D R M id) told (e s) (notify-Quiet J D R M id id online) in
      record {
        boxes = c.same_box ∙ h.boxes s;
        news = News-then s (e s) (alone told (e s)).1 (h.news s) c.news;
      }
  ending-Ends (m ∷ w) ms e s h =
      let told = notify_thread J D R id online in
      let cut = (offline_remove D id (e s)).1 in
      let (a, b) =
        next_region e [] (offline_remove D id) (λ _. told) s (offline_remove-Returns D id) in
      let c = alone-Quiet (composes J D R M id) told cut (notify-Quiet J D R M id id online) in
      let news = News-then (e s) cut (alone told cut).1 (remove-News J D R M id (e s)) c.news in
      record {
        boxes = ap (λ x. M.box x.1.db id) b ∙ c.same_box ∙ remove-box J D R M id (e s);
        news =
            subst (λ x. News s x.1) (sym b) (News-then s (e s) (alone told cut).1 (h.news s) news);
      }

  abbrev sending : Conn → User → List Str → List User → List Group → Task J D R
  sending conn user w friends groups =
      locked (send_json J D R conn (login_ack J user w friends groups)) >> ending w

  abbrev grouping : Conn → User → List Str → List User → Task J D R
  grouping conn user w friends = locked (query_groups D id) >>= sending conn user w friends

  -- The thread after the query, which read `w`.
  abbrev replying : Conn → User → List Str → Task J D R
  replying conn user w = locked (friend_query D id) >>= grouping conn user w

  -- The reply of `login` is among the calls.
  pub record Replied (conn : Conn) (user : User) (w : List Str) (t : State Db Link) : Type 0 where
    pub friends : List User
    pub groups : List Group
    pub before : List Event
    pub after : List Event
    pub calls :
        t.trace ≡ after ++ sent conn (packet (J.dump (login_ack J user w friends groups))) ∷ before

  -- Four changes by other threads, between the query, the two other queries, the reply and the
  -- delete.
  module _ (e1 e2 e3 e4 : State Db Link → State Db Link) (m1 m2 m3 m4 : List Str)
      (h1 : Stores m1 e1) (h2 : Stores m2 e2) (h3 : Stores m3 e3) (h4 : Stores m4 e4) where
    abbrev four : List (State Db Link → State Db Link)
    four = e1 ∷ e2 ∷ e3 ∷ e4 ∷ []

    abbrev between : List Str
    between = m1 ++ (m2 ++ (m3 ++ m4))

    replying-Ends :
        (conn : Conn) (user : User) (w : List Str) (s : State Db Link)
        → let t = (among four (replying conn user w) s).1 in
          (M.box t.db id ≡ (if is_empty w then M.box s.db id ++ between else []))
          × Replied conn user w t
    unfolding send_json emit
    replying-Ends conn user w s =
        let (friends, f1) =
          next_region e1 (e2 ∷ e3 ∷ e4 ∷ []) (friend_query D id) (grouping conn user w) s
            (friend_query-Returns D id) in
        let s1 = (friend_query D id (e1 s)).1 in
        let (groups, f2) =
          next_region e2 (e3 ∷ e4 ∷ []) (query_groups D id) (sending conn user w friends) s1
            (query_groups-Returns D id) in
        let s2 = (query_groups D id (e2 s1)).1 in
        let c1 = (friend_query-Calm D M id id).at (e1 s) in
        let c2 = (query_groups-Calm D M id id).at (e2 s1) in
        let boxes =
          h3.boxes s2
          ∙ ap (λ y. y ++ m3)
              (c2.same_box ∙ h2.boxes s1 ∙ ap (λ y. y ++ m2) (c1.same_box ∙ h1.boxes s)) in
        let ack = login_ack J user w friends groups in
        let (x, f3) =
          next_region e3 (e4 ∷ []) (send_json J D R conn ack) (λ _. ending w) s2
            (send_json-Returns J D R conn ack) in
        let s3 = (send_json J D R conn ack (e3 s2)).1 in
        let last = ending-Ends w m4 e4 s3 h4 in
        let (after, c) = last.news in
        let all = f1 ∙ f2 ∙ f3 in
        (
          ap (λ y. M.box y.1.db id) all
              ∙ last.boxes
              ∙ ap (λ y. if is_empty w then y else [])
                  (ap (λ y. y ++ m4) boxes ∙ four_parts (M.box s.db id) m1 m2 m3 m4),
          record {
            friends = friends;
            groups = groups;
            before = (e3 s2).trace;
            after = after;
            calls = ap (λ y. y.1.trace) all ∙ c;
          },
        )

    -- What waits at the end, and the reply, where the query read `w`.
    pub record Accounted (conn : Conn) (user : User) (w : List Str) (t : State Db Link)
        : Type 0 where
      pub left : M.box t.db id ≡ (if is_empty w then between else [])
      pub replied : Replied conn user w t

    -- While `login` answers a user, other threads store messages for the user between its steps:
    -- `m0` before the query of what waits, and `m1` to `m4` after it and before the delete. Then the
    -- login sends the reply with all messages that waited before and `m0`; and at the end `m1` to
    -- `m4` wait if that list was empty, and nothing waits if it was not.
    pub greeting_accounts :
        (e0 : State Db Link → State Db Link) (m0 : List Str)
        → Stores m0 e0
        → (conn : Conn) (user : User) (s : State Db Link)
        → Accounted conn user
            (M.box s.db id ++ m0)
            (among (e0 ∷ four) (greet_thread J D R conn id user) s).1
    unfolding greet_thread among locked ◌>>=◌
    greeting_accounts e0 m0 h0 conn user s =
        let waited = M.box (e0 s).db id in
        let s0 : State Db Link = record (e0 s) { db = (acquire (e0 s).db).1 } in
        let (b, r) = replying-Ends conn user waited s0 in
        let read : Accounted conn user waited (among four (replying conn user waited) s0).1 =
          record {
            left = b ∙ settled waited (M.box s0.db id) between (M.kept (e0 s).db id);
            replied = r;
          } in
        subst
          (λ q.
            Accounted conn user (M.box s.db id ++ m0)
              (among four (finished q.0 >>= replying conn user) q.1).1)
          (sym (query_ok J D R M id (e0 s)))
          (subst (λ w. Accounted conn user w (among four (replying conn user waited) s0).1)
            (h0.boxes s) read)
