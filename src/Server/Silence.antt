-- ===== src/Server/Silence.antt =====
-- `checkHeartbeat`: which connections it shuts down.
use mathlib.Core.List.{Memᴰ}
use mathlib.Core.List.Memᴰ.{head, tail, cases_cons, append_cases, append_left, append_right}
use qt_chat.Base.{
  ℕ, ◌-◌, ◌<◌, ◌≡◌, refl, sym, ap, ◌∙◌, Bool, true, false, List, [], ◌∷◌, ◌++◌, append_assoc, inl,
  inr, ◌⊎◌, ◌↔◌, arith,
}
use qt_chat.Base.Tests.{if◌then◌else◌, ltb, Bool-cases}
use qt_chat.Base.Lists.{Str}
use qt_chat.Base.Map.{Map}
use qt_chat.Server.Api.{JsonApi, Mysql, Pubsub}
use qt_chat.Server.State.{Conn, State, Event, closed, ok, emit, for_each, ◌>>=◌}
use qt_chat.Server.Dispatch.{overdue, check_heartbeat}

-- The connection has an entry whose last message is more than 30 seconds old.
abbrev pub Silent : ℕ → Map Str (ℕ × Conn) → Conn → Type 0
Silent now m c = (name : Str) × (last : ℕ) × Memᴰ (name, (last, c)) m × (30 < now - last)

front_or_rest :
    (b : Bool) (c d : Conn) (rest : List Conn)
    → Memᴰ c (if b then d ∷ rest else rest)
    → ((b ≡ true) × (c ≡ d)) ⊎ Memᴰ c rest
front_or_rest true c d rest (head e) = inl (refl, e)
front_or_rest true c d rest (tail m) = inr m
front_or_rest false c d rest m = inr m

overdue-Silent :
    (now : ℕ) (m : Map Str (ℕ × Conn)) (c : Conn) → Memᴰ c (overdue now m) → Silent now m c
unfolding overdue
overdue-Silent now [] c h = elim h [ ]
overdue-Silent now ((name, (last, d)) ∷ m) c h =
    elim (front_or_rest (ltb 30 (now - last)) c d (overdue now m) h) [
      | inl (late, same) ↦
          (name, last, head (ap (λ x. (name, (last, x))) same), ground (arith, late))
      | inr later ↦ let (n, l, k, late) = overdue-Silent now m c later in (n, l, tail k, late)
    ]

Silent-overdue :
    (now : ℕ) (m : Map Str (ℕ × Conn)) (c : Conn) → Silent now m c → Memᴰ c (overdue now m)
unfolding overdue
Silent-overdue now [] c (n, l, h, late) = elim h [ ]
Silent-overdue now ((name, (last, d)) ∷ m) c (n, l, head e, late) =
    let old : ltb 30 (now - last) ≡ true = ground (arith, ap (λ x. x.1.0) e) in
    rw old (head (ap (λ x. x.1.1) e))
Silent-overdue now ((name, (last, d)) ∷ m) c (n, l, tail h, late) =
    elim (Bool-cases (ltb 30 (now - last))) [
      | inl late' ↦ rw late' (tail (Silent-overdue now m c (n, l, h, late)))
      | inr fresh ↦ rw fresh (Silent-overdue now m c (n, l, h, late))
    ]

module _ {Db Link : Type 0} where
  closing :
      (cs : List Conn) (s : State Db Link)
      → (evs : List Event) × (for_each (λ c. emit (closed c)) cs s
          ≡ (ok tt, record s { trace = evs ++ s.trace }))
        × ((e : Event) → Memᴰ e evs ↔ ((c : Conn) × (e ≡ closed c) × Memᴰ c cs))
  unfolding for_each emit ◌>>=◌
  closing [] s = ([], refl, λ e. (λ h. elim h [ ], λ (c, q, h). elim h [ ]))
  closing (c ∷ cs) s =
      let (evs, run, back) = closing cs (record s { trace = closed c ∷ s.trace }) in
      (
        evs ++ closed c ∷ [],
        run
            ∙ ap (λ t. (ok tt, record s { trace = t }))
                (sym (append_assoc evs (closed c ∷ []) s.trace)),
        λ e. (
          (λ h. elim (append_cases evs h) [
            | inl before ↦ let (d, q, m) = (back e).0 before in (d, q, tail m)
            | inr here ↦ elim (cases_cons here) [
              | inl q ↦ (c, q, head refl)
              | inr no' ↦ elim no' [ ]
            ]
          ]),
          (λ (d, q, m). elim (cases_cons m) [
            | inl same ↦ append_right evs (head (q ∙ ap closed same))
            | inr later ↦ append_left (closed c ∷ []) ((back e).1 (d, q, later))
          ]),
        ),
      )

module _ (J : JsonApi) (D : Mysql) (R : Pubsub) where
  -- The check shuts down exactly the connections that have an entry whose last message is more than
  -- 30 seconds old, and does nothing else.
  pub check_heartbeat_closes :
      (now : ℕ) (s : State D.Db R.Link)
      → (evs : List Event) × (check_heartbeat J D R now s
          ≡ (ok tt, record s { trace = evs ++ s.trace }))
        × ((e : Event) → Memᴰ e evs ↔ ((c : Conn) × (e ≡ closed c) × Silent now s.last_time c))
  unfolding check_heartbeat
  check_heartbeat_closes now s =
      let (evs, run, back) = closing (overdue now s.last_time) s in
      (
        evs,
        run,
        λ e. (
          (λ h. let (c, q, m) = (back e).0 h in (c, q, overdue-Silent now s.last_time c m)),
          (λ (c, q, m). (back e).1 (c, q, Silent-overdue now s.last_time c m)),
        ),
      )
