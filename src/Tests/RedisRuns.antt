-- ===== src/Tests/RedisRuns.antt =====
-- The Redis theorems on a network whose contexts keep what they were told, and how many bytes wait.
use qt_chat.Base.{
  ℕ, suc, ◌<◌, ◌≡◌, refl, Bool, true, false, List, [], ◌∷◌, ◌++◌, Option, none, some, arith, ap,
  sym, zero,
}
use qt_chat.Base.Int.{pos}
use qt_chat.Redis.{
  Command, Written, write_error, written, Hiredis, Link, flush, resubscribe, connect_context,
  subscribe_all, send_command,
}
use qt_chat.Redis.Observer.{Look, goes_on, observe}
use qt_chat.Redis.Flush.{Progress, Logged}
use qt_chat.Redis.Recovery.{Subscribed, observer_recovers}

-- A context: the commands, and the bytes that wait. One byte is written at a time.
abbrev Wire : Type 0
Wire = List Command × ℕ

abbrev write_one : Wire → Written × Wire
write_one (cs, zero) = (written true, (cs, 0))
write_one (cs, suc n) = (written false, (cs, n))

abbrev wires : Hiredis
wires = record {
  Net = Unit {0};
  Ctx = Wire;
  redis_connect = λ n. (some ([], 0), n);
  failed = λ c. false;
  send_publish = λ ch m c. (true, c);
  append_command = λ cmd c. (true, (c.0 ++ (cmd ∷ []), 2));
  buffer_write = write_one;
  get_reply = λ c. (none, c);
  pending = λ c. c.1;
}

abbrev is_done : Written → Bool
is_done (written b) = b
is_done write_error = false

abbrev told : Option Wire → List Command
told none = []
told (some c) = c.0

less : (c d : Wire) → write_one c ≡ (written false, d) → d.1 < c.1
less (cs, zero) d e = absurd (ground (arith, ap (λ x. is_done x.0) e))
less (cs, suc n) d e = omega (arith, ap (λ x. x.1.1) e)

progress : Progress wires
progress = record { writes = less }

kept_one : (c : Wire) → (write_one c).1.0 ≡ c.0
kept_one (cs, zero) = refl
kept_one (cs, suc n) = refl

logged : Logged wires
logged = record {
  commands = λ c. c.0;
  fresh = λ n m c e. sym (ap (λ x. told x.0) e);
  appended = λ cmd c d e. sym (ap (λ x. x.1.0) e);
  kept = kept_one;
}

abbrev lost : Link wires
lost = record {
  publish_context = none;
  subscribe_context = none;
  channels = pos 4 ∷ pos 5 ∷ [];
  is_running = true;
  net = tt;
}

back : (resubscribe wires lost).0 ≡ true
unfolding resubscribe connect_context subscribe_all send_command flush
back = refl

abbrev look : Look wires
look = record { ready = true; stopped_at_poll = false; stopped_at_reply = false }

abbrev broken_link : Link wires
broken_link = record lost { subscribe_context = some ([], 0) }

observer_recovers_example :
    (s t : Link wires) × (observe wires look broken_link ≡ goes_on none s)
    × (observe wires look s ≡ goes_on none t)
    × Subscribed wires logged (pos 4 ∷ pos 5 ∷ []) t
observer_recovers_example =
    observer_recovers wires logged broken_link ([], 0) look look refl refl refl refl refl refl back
