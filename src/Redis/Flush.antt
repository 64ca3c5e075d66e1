-- ===== src/Redis/Flush.antt =====
-- The loop that writes a command out ends, and what a context was told by then.
use qt_chat.Base.{
  ℕ, zero, suc, ◌<◌, ◌≡◌, refl, sym, ap, ◌∙◌, Bool, true, false, List, [], ◌∷◌, ◌++◌, map,
  append_assoc, append-nil, some, inl, inr, arith,
}
use qt_chat.Base.Int.{ℤ}
use qt_chat.Base.Tests.{if◌then◌else◌, Bool-cases}
use qt_chat.Redis.{
  Command, subscribe_to, Written, write_error, written, Hiredis, Flushed, spinning, flush,
  flush_result, send_command, subscribe_all,
}

-- A call of `redisBufferWrite` that is not done yet, and is no error, has written something.
pub record Progress (H : Hiredis) : Type 0 where
  pub writes : (c d : H.Ctx) → H.buffer_write c ≡ (written false, d) → H.pending d < H.pending c

-- The commands that were put on a context: a new one has none, a command is put at the end, and
-- writing the buffer out puts none.
pub record Logged (H : Hiredis) : Type 0 where
  pub commands : H.Ctx → List Command
  pub fresh : (n m : H.Net) (c : H.Ctx) → H.redis_connect n ≡ (some c, m) → commands c ≡ []
  pub appended :
      (cmd : Command) (c d : H.Ctx)
      → H.append_command cmd c ≡ (true, d)
      → commands d ≡ commands c ++ (cmd ∷ [])
  pub kept : (c : H.Ctx) → commands (H.buffer_write c).1 ≡ commands c

module _ (H : Hiredis) where
  abbrev pub is_spinning : Flushed H → Bool
  is_spinning (spinning c) = true
  is_spinning _ = false

  -- A call of `redisBufferWrite`, by how it ends.
  data Wrote (r : Written × H.Ctx) : Type 0 where
    error : r.0 ≡ write_error → Wrote r
    finished : r.0 ≡ written true → Wrote r
    partly : r ≡ (written false, r.1) → Wrote r

  Wrote-cases : (r : Written × H.Ctx) → Wrote r
  Wrote-cases (write_error, d) = error refl
  Wrote-cases (written true, d) = finished refl
  Wrote-cases (written false, d) = partly refl

  -- Where each call of `redisBufferWrite` that is not done makes progress (`Progress`): with fuel
  -- above the number of waiting bytes, the loop ends before the fuel does.
  flush_ends :
      Progress H
      → (fuel : ℕ) (c : H.Ctx) → H.pending c < fuel
      → is_spinning (flush H fuel c) ≡ false
  unfolding flush
  flush_ends g zero c le = absurd (omega arith)
  flush_ends g (suc fuel) c le = elim (Wrote-cases (H.buffer_write c)) [
    | error e ↦ rw (flush, e) refl
    | finished e ↦ rw (flush, e) refl
    | partly e ↦
        rw (flush, ap (λ r. r.0) e)
          (flush_ends g fuel (H.buffer_write c).1
            (omega (arith, g.writes c (H.buffer_write c).1 e)))
  ]

  module _ (L : Logged H) where
    flush-commands :
        (fuel : ℕ) (c : H.Ctx) → L.commands (flush_result H (flush H fuel c)).1 ≡ L.commands c
    unfolding flush
    flush-commands zero c = refl
    flush-commands (suc fuel) c = elim (Wrote-cases (H.buffer_write c)) [
      | error e ↦ rw (flush, e) (L.kept c)
      | finished e ↦ rw (flush, e) (L.kept c)
      | partly e ↦ rw (flush, ap (λ r. r.0) e) (flush-commands fuel (H.buffer_write c).1 ∙ L.kept c)
    ]

    pub send_command-commands :
        (cmd : Command) (c : H.Ctx)
        → (send_command H cmd c).0 ≡ true
        → L.commands (send_command H cmd c).1 ≡ L.commands c ++ (cmd ∷ [])
    unfolding send_command
    send_command-commands cmd c ok = elim (Bool-cases (H.append_command cmd c).0) [
      | inl put ↦
          rw (send_command, put)
            (flush-commands (suc (H.pending (H.append_command cmd c).1)) (H.append_command cmd c).1
              ∙ L.appended cmd c (H.append_command cmd c).1
                  (ap (λ b. (b, (H.append_command cmd c).1)) put))
      | inr refused ↦ absurd (ground (arith, ok, refused))
    ]

    pub subscribe_all-commands :
        (chs : List ℤ) (c : H.Ctx)
        → (subscribe_all H chs c).0 ≡ true
        → L.commands (subscribe_all H chs c).1 ≡ L.commands c ++ map subscribe_to chs
    unfolding subscribe_all
    subscribe_all-commands [] c ok = sym (append-nil (L.commands c))
    subscribe_all-commands (ch ∷ chs) c ok =
        let d = (send_command H (subscribe_to ch) c).1 in
        let goes : Bool → Bool × H.Ctx = λ b. if b then subscribe_all H chs d else (false, d) in
        elim (Bool-cases (send_command H (subscribe_to ch) c).0) [
          | inl sent ↦
              rw (subscribe_all, sent)
                (subscribe_all-commands chs d (sym (ap (λ b. (goes b).0) sent) ∙ ok)
                  ∙ (ap (λ cs. cs ++ map subscribe_to chs)
                        (send_command-commands (subscribe_to ch) c sent)
                      ∙ append_assoc (L.commands c) (subscribe_to ch ∷ []) (map subscribe_to chs)))
          | inr failed ↦ absurd (ground (arith, sym (ap (λ b. (goes b).0) failed) ∙ ok))
        ]
