-- ===== src/Redis/Observer.antt =====
-- The observer thread of the Redis link: what a round of `observer_channel_message` does.
use qt_chat.Base.{Bool, false, not, List, [], ◌∷◌, Option, none, some}
use qt_chat.Base.Tests.{if◌then◌else◌}
use qt_chat.Base.Int.{ℤ}
use qt_chat.Base.Lists.{Str, codes, str_eq}
use qt_chat.Server.Models.Text.{atoi}
use qt_chat.Redis.{Reply, Hiredis, Link, resubscribe}

-- What the observer hands to `_notify_message_handler`. `element[1]->str` is read without a test;
-- where it is NULL the source is undefined, and here it counts as empty.
unfoldable pub notification : Reply → Option (ℤ × Str)
unfolding str_eq
notification r = if r.is_array then message_of r.elements else none
  where
    text_of : Option Str → Str
    text_of none = []
    text_of (some s) = s

    message_of : List (Option Str) → Option (ℤ × Str)
    message_of (some kind ∷ channel ∷ some body ∷ more) =
        if str_eq kind (codes "message") then some (atoi (text_of channel), body) else none
    message_of _ = none

module _ (H : Hiredis) where
  open H use {
    Net, Ctx, redis_connect, failed, send_publish, append_command, buffer_write, get_reply, pending,
  }

  -- What one round of the observer thread sees from outside: whether `poll` finds data, and whether
  -- `stop` was called by the tests of `_running` after `poll` and after `redisGetReply`.
  pub record Look : Type 0 where
    pub ready : Bool
    pub stopped_at_poll : Bool
    pub stopped_at_reply : Bool

  -- How a round of the observer ends: the thread quits, or goes on, with what it reported.
  pub data Observed : Type 0 where
    quits : Link H → Observed
    goes_on : Option (ℤ × Str) → Link H → Observed

  abbrev heard : Option (Option Reply) → Link H → Observed
  heard none r = goes_on none (record r { subscribe_context = none })
  heard (some none) r = goes_on none r
  heard (some (some reply)) r = goes_on (notification reply) r

  -- One round of `observer_channel_message`.
  unfoldable pub observe : Look → Link H → Observed
  unfolding notification resubscribe
  observe l r = if not r.is_running then quits r else elim r.subscribe_context [
    | none ↦ goes_on none (resubscribe H r).1
    | some c ↦
        let (o, c') = get_reply c in
        let read = record r { subscribe_context = some c' } in
        if l.stopped_at_poll
        then quits (record r { is_running = false })
        else if not l.ready
        then goes_on none r
        else if l.stopped_at_reply
        then quits (record read { is_running = false })
        else heard o read
  ]
