-- ===== src/Redis.antt =====
-- The Redis link, ChatServer/src/server/redis/redis.cpp: `connect`, `publish`, `subscribe`,
-- `unsubscribe`, `resubscribe`, `stop` and the rounds of the observer thread. hiredis is a parameter.
pub mod Observer
pub mod Flush
pub mod Recovery
use qt_chat.Base.{
  ℕ, zero, suc, Bool, true, false, ◌&&◌, not, List, [], ◌∷◌, ◌++◌, Option, none, some,
}
use qt_chat.Base.Tests.{if◌then◌else◌, leb, is_some}
use qt_chat.Base.Int.{ℤ, eq_ℤ}
use qt_chat.Base.Lists.{Str, codes, str_eq, length}
use qt_chat.Server.Models.Text.{atoi}
use qt_chat.Server.Api.{Pubsub}

pub data Command : Type 0 where
  subscribe_to : ℤ → Command
  unsubscribe_from : ℤ → Command

-- How one `redisBufferWrite` ends: an error, or the context and `done`.
pub data Written : Type 0 where
  write_error : Written
  written : Bool → Written

-- A `redisReply` that `redisGetReply` gives: whether it is an array, and the `str` of its elements.
pub record Reply : Type 0 where
  pub is_array : Bool
  pub elements : List (Option Str)

-- hiredis. A context is a value that the calls change; `redis_connect` is `none` where no context
-- could be allocated, `failed` is `err != 0`, `send_publish` says whether `PUBLISH` had a reply that
-- is no error, and `get_reply` is `none` where it does not return `REDIS_OK`.
pub record Hiredis : Type 1 where
  pub Net : Type 0
  pub Ctx : Type 0
  pub redis_connect : Net → Option Ctx × Net
  pub failed : Ctx → Bool
  pub send_publish : ℤ → Str → Ctx → Bool × Ctx
  pub append_command : Command → Ctx → Bool × Ctx
  pub buffer_write : Ctx → Written × Ctx
  pub get_reply : Ctx → Option (Option Reply) × Ctx
  -- the bytes that wait to be written
  pub pending : Ctx → ℕ

module _ (H : Hiredis) where
  open H use {
    Net, Ctx, redis_connect, failed, send_publish, append_command, buffer_write, get_reply, pending,
  }

  -- `Redis`; `channels` is the set `_subscribed_channels`.
  pub record Link : Type 0 where
    pub publish_context : Option Ctx
    pub subscribe_context : Option Ctx
    pub channels : List ℤ
    pub is_running : Bool
    pub net : Net

-- `_subscribed_channels.insert(channel)`
unfoldable pub add_channel : ℤ → List ℤ → List ℤ
add_channel c [] = c ∷ []
add_channel c (d ∷ ds) = let rest = add_channel c ds in if eq_ℤ d c then d ∷ ds else d ∷ rest

-- `_subscribed_channels.erase(channel)`
unfoldable pub drop_channel : ℤ → List ℤ → List ℤ
drop_channel c [] = []
drop_channel c (d ∷ ds) = let rest = drop_channel c ds in if eq_ℤ d c then rest else d ∷ rest

module _ (H : Hiredis) where
  open H use {
    Net, Ctx, redis_connect, failed, send_publish, append_command, buffer_write, get_reply, pending,
  }

  -- How the loop `while (!done)` around `redisBufferWrite` ends.
  pub data Flushed : Type 0 where
    flushed : Ctx → Flushed
    broken : Ctx → Flushed
    -- the fuel is used up, and the loop still runs
    spinning : Ctx → Flushed

  unfoldable pub flush : ℕ → Ctx → Flushed
  flush zero c = spinning c
  flush (suc fuel) c =
      let (w, c') = buffer_write c in
      elim w [ write_error ↦ broken c' | written true ↦ flushed c' | written false ↦ flush fuel c' ]

  abbrev pub flush_result : Flushed → Bool × Ctx
  flush_result (flushed c) = (true, c)
  flush_result (broken c) = (false, c)
  flush_result (spinning c) = (false, c)

  -- One command and the loop that writes it out: whether it went, and the context.
  unfoldable pub send_command : Command → Ctx → Bool × Ctx
  unfolding flush
  send_command cmd c =
      let (ok, c') = append_command cmd c in
      if ok then flush_result (flush (suc (pending c')) c') else (false, c')

  -- A context that carries an error is freed.
  abbrev pub usable : Option Ctx × Net → Option Ctx × Net
  usable (none, n) = (none, n)
  usable (some c, n) = if failed c then (none, n) else (some c, n)

  unfoldable pub connect_context : Net → Option Ctx × Net
  connect_context n = usable (redis_connect n)

  -- `Redis::connect`
  unfoldable pub connect : Link H → Bool × Link H
  unfolding connect_context
  connect r =
      let (p, n) = connect_context r.net in
      elim p [
        | none ↦ (false, record r { publish_context = none; subscribe_context = none; net = n })
        | some pc ↦
            let (q, m) = connect_context n in
            elim q [
              | none ↦
                  (false, record r { publish_context = some pc; subscribe_context = none; net = m })
              | some sc ↦ (
                true,
                record r {
                  publish_context = some pc;
                  subscribe_context = some sc;
                  is_running = true;
                  net = m;
                },
              )
            ]
      ]

  -- `Redis::publish`
  unfoldable pub publish : ℤ → Str → Link H → Bool × Link H
  publish channel message r = elim r.publish_context [
    | none ↦ (false, r)
    | some c ↦
        if failed c
        then (false, r)
        else let (ok, c') = send_publish channel message c in
          (ok, record r { publish_context = some c' })
  ]

  -- `subscribe` and `unsubscribe` up to the set of channels.
  unfoldable pub tell : Command → (List ℤ → List ℤ) → Ctx → Link H → Bool × Link H
  unfolding send_command
  tell cmd change c r =
      if failed c
      then (false, r)
      else let (ok, c') = send_command cmd c in
        let s = record r { subscribe_context = some c' } in
        if ok then (true, record s { channels = change r.channels }) else (false, s)

  abbrev pub tell_on : Option Ctx → Command → (List ℤ → List ℤ) → Link H → Bool × Link H
  tell_on none cmd change r = (false, r)
  tell_on (some c) cmd change r = tell cmd change c r

  -- `Redis::subscribe`
  unfoldable pub subscribe : ℤ → Link H → Bool × Link H
  unfolding tell add_channel
  subscribe channel r = tell_on r.subscribe_context (subscribe_to channel) (add_channel channel) r

  -- `Redis::unsubscribe`
  unfoldable pub unsubscribe : ℤ → Link H → Bool × Link H
  unfolding tell drop_channel
  unsubscribe channel r =
      tell_on r.subscribe_context (unsubscribe_from channel) (drop_channel channel) r

  -- The loop of `resubscribe` over the channels.
  unfoldable pub subscribe_all : List ℤ → Ctx → Bool × Ctx
  unfolding send_command
  subscribe_all [] c = (true, c)
  subscribe_all (ch ∷ chs) c =
      let (ok, c') = send_command (subscribe_to ch) c in
      let rest = subscribe_all chs c' in if ok then rest else (false, c')

  abbrev pub resubscribe_on : Ctx → Link H → Bool × Link H
  resubscribe_on c r =
      let (ok, c') = subscribe_all r.channels c in (ok, record r { subscribe_context = some c' })

  abbrev pub resubscribe_with : Option Ctx × Net → Link H → Bool × Link H
  resubscribe_with (none, n) r = (false, record r { net = n })
  resubscribe_with (some c, n) r = resubscribe_on c (record r { net = n })

  abbrev pub resubscribe_from : Option Ctx → Link H → Bool × Link H
  resubscribe_from (some c) r = resubscribe_on c r
  resubscribe_from none r = resubscribe_with (connect_context r.net) r

  -- `Redis::resubscribe`
  unfoldable pub resubscribe : Link H → Bool × Link H
  unfolding connect_context subscribe_all
  resubscribe r = resubscribe_from r.subscribe_context r

  -- `Redis::stop`; the shutdown of the socket shows in what `poll` and `redisGetReply` answer next.
  unfoldable pub stop : Link H → Link H
  stop r = record r { is_running = false }

  -- The link as the server uses it.
  unfoldable pub pubsub : Pubsub
  pubsub = record {
    Link = Link H;
    publish = publish;
    subscribe = subscribe;
    unsubscribe = unsubscribe;
  }
