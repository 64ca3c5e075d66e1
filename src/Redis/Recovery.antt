-- ===== src/Redis/Recovery.antt =====
-- The subscriptions after the link broke and came back.
use qt_chat.Base.{
  ◌≡◌, refl, sym, ap, subst, ◌∙◌, Bool, true, false, List, [], ◌++◌, map, Option, none, some, inl,
  inr, arith,
}
use qt_chat.Base.Int.{ℤ}
use qt_chat.Base.Tests.{if◌then◌else◌, Bool-cases}
use qt_chat.Redis.{
  subscribe_to, Hiredis, Link, usable, connect_context, add_channel, resubscribe_with,
  resubscribe_from, tell_on, resubscribe, subscribe,
}
use qt_chat.Redis.Observer.{Look, goes_on, observe}
use qt_chat.Redis.Flush.{Logged, subscribe_all-commands}

module _ (H : Hiredis) (L : Logged H) where
  -- The subscribe context is there, and was told to subscribe to exactly these channels.
  abbrev pub Subscribed : List ℤ → Link H → Type 0
  Subscribed chs r =
      (c : H.Ctx) × (r.subscribe_context ≡ some c) × (L.commands c ≡ map subscribe_to chs)

  usable-some :
      (o : Option H.Ctx) (n : H.Net) (c : H.Ctx) → (usable H (o, n)).0 ≡ some c → o ≡ some c
  usable-some none n c e = e
  usable-some (some d) n c e =
      let shown : Bool → Option H.Ctx × H.Net = λ b. if b then (none, n) else (some d, n) in
      elim (Bool-cases (H.failed d)) [
        | inl bad ↦ absurd (ground (arith, e, bad))
        | inr good ↦ sym (ap (λ b. (shown b).0) good) ∙ e
      ]

  connect_context-fresh :
      (n : H.Net) (c : H.Ctx) → (connect_context H n).0 ≡ some c → L.commands c ≡ []
  unfolding connect_context
  connect_context-fresh n c e = L.fresh n (H.redis_connect n).1 c (
      ap (λ o. (o, (H.redis_connect n).1))
        (usable-some (H.redis_connect n).0 (H.redis_connect n).1 c e))

  resubscribed :
      (o : Option H.Ctx) (n : H.Net) (r : Link H)
      → ((c : H.Ctx) → o ≡ some c → L.commands c ≡ [])
      → (resubscribe_with H (o, n) r).0 ≡ true
      → Subscribed r.channels (resubscribe_with H (o, n) r).1
        × ((resubscribe_with H (o, n) r).1.channels ≡ r.channels)
  resubscribed none n r new ok = absurd (ground (arith, ok))
  resubscribed (some c) n r new ok = (
    (
      _,
      refl,
      subscribe_all-commands H L r.channels c ok
          ∙ ap (λ cs. cs ++ map subscribe_to r.channels) (new c refl),
    ),
    refl,
  )

  -- With contexts that keep what they are told (`Logged`): when the link was lost, and
  -- `resubscribe` reports success, the new context was told to subscribe to exactly the registered
  -- channels, in order, and the channels are as before.
  resubscribe_complete :
      (r : Link H)
      → r.subscribe_context ≡ none
      → (resubscribe H r).0 ≡ true
      → Subscribed r.channels (resubscribe H r).1 × ((resubscribe H r).1.channels ≡ r.channels)
  unfolding resubscribe
  resubscribe_complete r lost ok =
      subst (λ x. Subscribed r.channels x.1 × (x.1.channels ≡ r.channels)) (sym e)
        (resubscribed (connect_context H r.net).0 (connect_context H r.net).1 r
          (connect_context-fresh r.net) (ap (λ x. x.0) (sym e) ∙ ok))
    where
      e : resubscribe H r ≡ resubscribe_with H (connect_context H r.net) r
      e = ap (λ o. resubscribe_from H o r) lost

  -- With contexts that keep what they are told (`Logged`): a channel that is subscribed while the
  -- link is down is lost. `subscribe` reports failure, and a `resubscribe` that succeeds
  -- afterwards subscribes to the channels registered before only.
  subscribe_while_down :
      (channel : ℤ) (r : Link H)
      → r.subscribe_context ≡ none
      → (resubscribe H (subscribe H channel r).1).0 ≡ true
      → ((subscribe H channel r).0 ≡ false)
        × Subscribed r.channels (resubscribe H (subscribe H channel r).1).1
  unfolding subscribe
  subscribe_while_down channel r lost ok =
      subst
        (λ x.
          (resubscribe H x.1).0 ≡ true
          → (x.0 ≡ false) × Subscribed r.channels (resubscribe H x.1).1)
        (sym refused) (λ done. (refl, (resubscribe_complete r lost done).0)) ok
    where
      refused : subscribe H channel r ≡ (false, r)
      refused = ap (λ o. tell_on H o (subscribe_to channel) (add_channel channel) r) lost

  -- With contexts that keep what they are told (`Logged`), on a running link that is not stopped
  -- meanwhile: a round of the observer whose `redisGetReply` fails frees the context, and the next
  -- one, when it can connect and write, subscribes a new context to exactly the registered
  -- channels.
  pub observer_recovers :
      (r : Link H) (c : H.Ctx) (first second : Look H)
      → r.is_running ≡ true
      → r.subscribe_context ≡ some c
      → first.ready ≡ true
      → first.stopped_at_poll ≡ false
      → first.stopped_at_reply ≡ false
      → (H.get_reply c).0 ≡ none
      → (resubscribe H (record r { subscribe_context = none })).0 ≡ true
      → (s t : Link H) × (observe H first r ≡ goes_on none s)
        × (observe H second s ≡ goes_on none t)
        × Subscribed r.channels t
  unfolding observe
  observer_recovers r c first second run there rd np nr fails again = (
    record r { subscribe_context = none },
    (resubscribe H (record r { subscribe_context = none })).1,
    rw (run, there, np, rd, nr, fails)
        (ap (λ b. goes_on none (record r { subscribe_context = none; is_running = b })) run),
    rw run refl,
    (resubscribe_complete (record r { subscribe_context = none }) refl again).0,
  )
