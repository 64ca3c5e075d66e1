-- ===== src/Window/Ends.antt =====
-- Bubbles that end with those of a list of messages.
use qt_chat.Base.{
  Bool, true, false, List, [], ◌∷◌, ◌++◌, append_assoc, append-nil, map, ◌≡◌, refl, sym, ap, ◌∙◌,
}
use qt_chat.Base.Tests.{if◌then◌else◌, ltb}
use qt_chat.Base.Lists.{length}
use qt_chat.Window.{ChatMsg, Bubble}
use qt_chat.Window.Chat.{bubble, tail, push_bounded}
use qt_chat.Window.Pushes.{pushes}

-- The bubbles `view` end with those of the messages.
abbrev pub Ends : List Bubble → List ChatMsg → Type 0
Ends view ms = (old : List Bubble) × (view ≡ old ++ map bubble ms)

pub map-bubble-append :
    (ms ns : List ChatMsg) → map bubble (ms ++ ns) ≡ map bubble ms ++ map bubble ns
map-bubble-append [] ns = refl
map-bubble-append (m ∷ ms) ns = ap (◌∷◌ (bubble m)) (map-bubble-append ms ns)

tail-Ends : (old : List Bubble) (ms : List ChatMsg) → Ends (old ++ map bubble ms) (tail ms)
tail-Ends old [] = (old, refl)
tail-Ends old (m ∷ ms) =
    (old ++ bubble m ∷ [], sym (append_assoc old (bubble m ∷ []) (map bubble ms)))

trim-Ends :
    (b : Bool) (old : List Bubble) (ms : List ChatMsg)
    → Ends (old ++ map bubble ms) (if b then tail ms else ms)
trim-Ends true old ms = tail-Ends old ms
trim-Ends false old ms = (old, refl)

push-Ends :
    (m : ChatMsg) (view : List Bubble) (ms : List ChatMsg)
    → Ends view ms
    → Ends (view ++ bubble m ∷ []) (push_bounded m ms)
unfolding push_bounded
push-Ends m view ms (old, e) =
    let (older, f) = trim-Ends (ltb 500 (length (ms ++ m ∷ []))) old (ms ++ m ∷ []) in
    (
      older,
      ap (λ v. v ++ bubble m ∷ []) e
          ∙ append_assoc old (map bubble ms) (bubble m ∷ [])
          ∙ ap (λ v. old ++ v) (sym (map-bubble-append ms (m ∷ [])))
          ∙ f,
    )

pub pushes-Ends :
    (ns : List ChatMsg) (view : List Bubble) (ms : List ChatMsg)
    → Ends view ms
    → Ends (view ++ map bubble ns) (pushes ns ms)
unfolding pushes
pushes-Ends [] view ms (old, e) = (old, append-nil view ∙ e)
pushes-Ends (n ∷ ns) view ms h =
    let (old, e) =
      pushes-Ends ns (view ++ bubble n ∷ []) (push_bounded n ms) (push-Ends n view ms h) in
    (old, sym (append_assoc view (bubble n ∷ []) (map bubble ns)) ∙ e)
