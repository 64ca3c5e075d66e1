-- ===== src/Window/Pushes.antt =====
-- The bounded histories as lists: what `push_bounded` keeps of many messages.
use qt_chat.Base.{
  ℕ, zero, suc, ◌-◌, Bool, true, false, List, [], ◌∷◌, ◌++◌, append_assoc, append-nil, ◌≡◌, refl,
  sym, ap, ◌∙◌, inl, inr, arith,
}
use qt_chat.Base.Tests.{if◌then◌else◌, Bool-cases, ltb, if-true, if-false}
use qt_chat.Base.Int.{ℤ, eq_ℤ_iff}
use qt_chat.Base.Lists.{length, drop, length-append, length-drop, drop-append_le}
use qt_chat.Base.Map.{lookup-insert, int_eq}
use qt_chat.Window.{ChatMsg, Window}
use qt_chat.Window.Chat.{tail, push_bounded, append_to, append_to_history, history_of}
use qt_chat.Window.Runs.{Arrival, belongs, pick}

unfoldable pub pushes : List ChatMsg → List ChatMsg → List ChatMsg
unfolding push_bounded
pushes [] h = h
pushes (m ∷ ms) h = pushes ms (push_bounded m h)

-- The newest 500.
abbrev pub newest : List ChatMsg → List ChatMsg
newest ms = drop (length ms - 500) ms

tail-drop {ℓ} : {A : Type ℓ} (n : ℕ) (xs : List A) → tail (drop n xs) ≡ drop (suc n) xs
tail-drop zero [] = refl
tail-drop zero (x ∷ xs) = refl
tail-drop (suc n) [] = refl
tail-drop (suc n) (x ∷ xs) = tail-drop n xs

-- The body of `push_bounded`, by the length of what was dropped before.
cut_once :
    (n : ℕ) (xs ys : List ChatMsg)
    → drop n xs ≡ ys
    → n ≡ length xs - 501
    → (if ltb 500 (length ys) then tail ys else ys) ≡ drop (length xs - 500) xs
cut_once n xs ys e h = elim (Bool-cases (ltb 500 (length ys))) [
  | inl t ↦
      sym (if-true (tail ys) ys t)
      ∙ ap tail (sym e)
      ∙ tail-drop n xs
      ∙ ap (λ k. drop k xs) {x = suc n} (ground (arith, t, length-drop n xs, ap length e))
  | inr f ↦
      sym (if-false (tail ys) ys f)
      ∙ sym e
      ∙ ap (λ k. drop k xs) {x = n} (ground (arith, f, length-drop n xs, ap length e))
]

push_bounded-newest :
    (m : ChatMsg) (ms : List ChatMsg) → push_bounded m (newest ms) ≡ newest (ms ++ m ∷ [])
unfolding push_bounded
push_bounded-newest m ms =
    cut_once (length ms - 500) (ms ++ m ∷ []) (newest ms ++ m ∷ [])
      (drop-append_le (length ms - 500) ms (m ∷ []) (omega arith))
      (omega (arith, length-append ms (m ∷ [])))

pub pushes-newest : (ms ns : List ChatMsg) → pushes ns (newest ms) ≡ newest (ms ++ ns)
unfolding pushes
pushes-newest ms [] = ap newest (sym (append-nil ms))
pushes-newest ms (n ∷ ns) =
    ap (pushes ns) (push_bounded-newest n ms)
    ∙ pushes-newest (ms ++ n ∷ []) ns
    ∙ ap newest (append_assoc ms (n ∷ []) ns)

pub pick-append :
    (g : Bool) (id : ℤ) (es fs : List Arrival) → pick g id (es ++ fs) ≡ pick g id es ++ pick g id fs
unfolding pick belongs
pick-append g id [] fs = refl
pick-append g id (e ∷ es) fs = ground (arith, pick-append g id es fs)

pub pushes-append : (ms ns h : List ChatMsg) → pushes (ms ++ ns) h ≡ pushes ns (pushes ms h)
unfolding pushes
pushes-append [] ns h = refl
pushes-append (m ∷ ms) ns h = pushes-append ms ns (push_bounded m h)

module _ {A : Type 0} where
  pub history-append_to_history :
      (g b : Bool) (id k : ℤ) (m : ChatMsg) (w : Window A)
      → history_of g id (append_to_history k b m w)
        ≡ pushes (pick g id (record { in_group = b; target = k; msg = m } ∷ [])) (history_of g id w)
  unfolding append_to_history append_to pick belongs pushes
  history-append_to_history true true id k m w = rw (lookup-insert) (ground (arith, eq_ℤ_iff k id))
  history-append_to_history true false id k m w = refl
  history-append_to_history false true id k m w = refl
  history-append_to_history false false id k m w =
      rw (lookup-insert) (ground (arith, eq_ℤ_iff k id))
