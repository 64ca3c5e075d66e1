-- ===== src/Pool/Counts.antt =====
-- What one stretch of `acquire` does to the numbers of idle and active connections.
use qt_chat.Base.{ℕ, suc, ◌+◌, ◌-◌, ◌<◌, ◌≡◌, refl, ap, Bool, List, [], ◌∷◌, inl, inr, ◌⊎◌, arith}
use qt_chat.Base.Tests.{ltb, Bool-cases, Option-cases}
use qt_chat.Base.Lists.{length}
use qt_chat.Pool.{
  Entry, Pool, Answers, Turn, given, again, opening, waiting, start_round, take_idle, lend,
  lend_created, finish_open,
}

-- The counts of a pool, its limit and its flag.
pub record Counts (idle active most : ℕ) (shut : Bool) (q : Pool) : Type 0 where
  pub idle_is : length q.idle ≡ idle
  pub active_is : q.active ≡ active
  pub max_is : q.max_size ≡ most
  pub shut_is : q.is_shut ≡ shut

-- What a round of `acquire` does to the counts of a pool with these.
abbrev pub Accounts : ℕ → ℕ → ℕ → Bool → Turn → Type 0
Accounts n act most sh (given h q) = (0 < n) × Counts (n - 1) (suc act) most sh q
Accounts n act most sh (again q) = (0 < n) × Counts (n - 1) act most sh q
Accounts n act most sh (opening q) = (n ≡ 0) × (act < most) × Counts 0 (suc act) most sh q
Accounts n act most sh waiting = Unit {0}

List-cases : {A : Type 0} (xs : List A) → (xs ≡ []) ⊎ ((x : A) × (ys : List A) × (xs ≡ x ∷ ys))
List-cases [] = inl refl
List-cases (x ∷ xs) = inr (x, xs, refl)

-- The end of branch 1 on a pool after the pop, whose counter was counted up.
take_idle-Accounts :
    (a : Answers) (e : Entry) (p : Pool) (act : ℕ)
    → p.active ≡ suc act
    → Accounts (suc (length p.idle)) act p.max_size p.is_shut (take_idle a e p)
unfolding take_idle lend lend_created
take_idle-Accounts a e p act up = elim (Bool-cases (ltb 30 (a.now - e.last_used))) [
  | inr fresh ↦ rw fresh lent
  | inl old ↦ elim (Bool-cases a.ping_ok) [
    | inl alive ↦ rw (old, alive) lent
    | inr dead ↦ elim (Option-cases a.created) [
      | inl none_made ↦
          rw (old, dead, none_made)
            (
              omega arith,
              record {
                idle_is = omega arith;
                active_is = omega arith;
                max_is = refl;
                shut_is = refl;
              },
            )
      | inr (c, made) ↦ rw (old, dead, made) lent
    ]
  ]
]
  where
    lent :
        {c : List (ℕ × ℕ)}
        → (0 < suc (length p.idle))
          × Counts
              (suc (length p.idle) - 1)
              (suc act)
              p.max_size
              p.is_shut
              (record p { borrowed = c })
    lent = (
      omega arith,
      record { idle_is = omega arith; active_is = up; max_is = refl; shut_is = refl },
    )

pub start_round-Accounts :
    (a : Answers) (p : Pool)
    → Accounts (length p.idle) p.active p.max_size p.is_shut (start_round a p)
unfolding start_round
start_round-Accounts a p = elim (List-cases p.idle) [
  | inr (e, rest, i) ↦
      rw (i, start_round)
        (take_idle-Accounts a e (record p { idle = rest; active = p.active + 1 }) p.active
          (omega arith))
  | inl i ↦ elim (Bool-cases (ltb p.active p.max_size)) [
    | inl space ↦
        rw (i, space, start_round)
          (
            refl,
            ground arith,
            record {
              idle_is = ap length i;
              active_is = omega arith;
              max_is = refl;
              shut_is = refl;
            },
          )
    | inr full ↦ rw (i, full, start_round) tt
  ]
]

-- What the stretch after `lock.lock()` does to the counts.
abbrev pub Closes : ℕ → ℕ → ℕ → Bool → Turn → Type 0
Closes n act most sh (given h q) = Counts n act most sh q
Closes n act most sh (again q) = Counts n (act - 1) most sh q
Closes n act most sh _ = Unit {0}

pub finish_open-Closes :
    (a : Answers) (p : Pool)
    → Closes (length p.idle) p.active p.max_size p.is_shut (finish_open a p)
unfolding finish_open lend_created lend
finish_open-Closes a p = elim (Option-cases a.created) [
  | inl none_made ↦
      rw none_made (record { idle_is = refl; active_is = refl; max_is = refl; shut_is = refl })
  | inr (c, made) ↦
      rw made (record { idle_is = refl; active_is = refl; max_is = refl; shut_is = refl })
]
