-- ===== src/Logging/Writing.antt =====
-- The loop of `writeToFile` ends, whatever `fwrite` accepts.
use qt_chat.Base.{
  ℕ, zero, suc, ◌<◌, ◌≡◌, ◌≢◌, ◌⊎◌, inl, inr, refl, sym, ap, ◌∙◌, subst, Bool, true, false, [], ◌∷◌,
  ◌++◌, append_assoc, append-nil, Option, some, arith,
}
use qt_chat.Base.Tests.{if◌then◌else◌, ◌==◌, Bool-cases, if-true, if-false}
use qt_chat.Base.Lists.{Str, length, take, drop, is_empty, length-drop, take-append-drop}
use qt_chat.Logging.Lines.{least, after, write_to_file}

-- What a write of `s` that ended left: a part of `s`, and all of it where the result is true.
pub record Ends (s : Str) (o : Option (Str × Bool)) : Type 0 where
  pub part : Str
  pub rest : Str
  pub ok : Bool
  pub ended : o ≡ some (part, ok)
  pub split : part ++ rest ≡ s
  pub whole : (ok ≡ false) ⊎ (part ≡ s)

after-Ends :
    (ret : ℕ) (s : Str) (o : Option (Str × Bool))
    → Ends (drop ret s) o
    → Ends s (after (take ret s) o)
after-Ends ret s o e = record {
  part = take ret s ++ e.part;
  rest = e.rest;
  ok = e.ok;
  ended = ap (after (take ret s)) e.ended;
  split =
      append_assoc (take ret s) e.part e.rest
      ∙ ap (λ t. take ret s ++ t) e.split
      ∙ take-append-drop ret s;
  whole = elim e.whole [
    | inl f ↦ inl f
    | inr w ↦ inr (ap (λ t. take ret s ++ t) w ∙ take-append-drop ret s)
  ];
}

is_empty→nil : (s : Str) → is_empty s ≡ true → s ≡ []
is_empty→nil [] h = refl
is_empty→nil (c ∷ s) h = ground arith

-- One round, by what `fwrite` gave.
round-Ends :
    (ret : ℕ) (s : Str) (o : Option (Str × Bool))
    → (ret ≢ 0 → is_empty (drop ret s) ≡ false → Ends (drop ret s) o)
    → Ends s (
        if ret == 0
        then some ([], false)
        else if is_empty (drop ret s)
        then some (take ret s, true)
        else after (take ret s) o)
round-Ends ret s o h = elim (Bool-cases (ret == 0)) [
  | inl z ↦
      subst (Ends s) (if-true _ _ z)
        (record { part = []; rest = s; ok = false; ended = refl; split = refl; whole = inl refl })
  | inr n ↦ elim (Bool-cases (is_empty (drop ret s))) [
    | inl e ↦ subst (Ends s) (if-true _ _ e ∙ if-false _ _ n) (record {
      part = take ret s;
      rest = drop ret s;
      ok = true;
      ended = refl;
      split = take-append-drop ret s;
      whole = inr (
          sym (append-nil (take ret s))
          ∙ ap (λ t. take ret s ++ t) (sym (is_empty→nil (drop ret s) e))
          ∙ take-append-drop ret s);
    })
    | inr m ↦
        subst (Ends s) (if-false _ _ m ∙ if-false _ _ n)
          (after-Ends ret s o (h (λ z. ground (arith, z, n)) m))
  ]
]

pub write_to_file-Ends :
    (accepts : ℕ → ℕ) (fuel k : ℕ) (s : Str)
    → length s < fuel
    → Ends s (write_to_file accepts fuel k s)
unfolding write_to_file
write_to_file-Ends accepts zero k s h = absurd (omega arith)
write_to_file-Ends accepts (suc fuel) k s h =
    let ret = least (accepts k) (length s) in
    round-Ends ret s (write_to_file accepts fuel (suc k) (drop ret s)) (λ n e.
      write_to_file-Ends accepts fuel (suc k) (drop ret s) (ground (arith, length-drop ret s, n)))

-- Whatever `fwrite` accepts at each call, the loop of `writeToFile` ends within one round more than
-- there are bytes; a part of the line is then in the file, and the whole line if the result is true.
write_to_file_ends :
    (accepts : ℕ → ℕ) (s : Str)
    → (part : Str) × (rest : Str) × (ok : Bool) × (write_to_file accepts (suc (length s)) 0 s
        ≡ some (part, ok))
      × (part ++ rest ≡ s)
      × ((ok ≡ false) ⊎ (part ≡ s))
write_to_file_ends accepts s =
    let e = write_to_file-Ends accepts (suc (length s)) 0 s (omega arith) in
    (e.part, e.rest, e.ok, e.ended, e.split, e.whole)
