-- ===== src/Terminal/Parsing.antt =====
-- How the command line client reads a line of `mainMenu`.
use qt_chat.Base.{
  ℕ, ◌≡◌, refl, sym, ap, ◌∙◌, Bool, true, false, not, ◌&&◌, [], ◌∷◌, ◌++◌, append_assoc, some,
  arith,
}
use qt_chat.Base.Tests.{◌==◌, if-true}
use qt_chat.Base.Lists.{Str, codes, is_empty, str_eq}
use qt_chat.Base.Map.{lookup, str_key}
use qt_chat.Config.{split_at}
use qt_chat.Server.Api.{JsonApi, num, text}
use qt_chat.Server.Models.Text.{atoi}
use qt_chat.Server.Replies.{msgid, one_chat_msg}
use qt_chat.Terminal.{Cli}
use qt_chat.Terminal.Requests.{transmit, chat_to}
use qt_chat.Terminal.Commands.{is_space, skip_spaces, strip_end, dispatch, on_text, on_line}

unfoldable pub all_spaces : Str → Bool
all_spaces [] = true
all_spaces (c ∷ s) = is_space c && all_spaces s

unfoldable pub no_colon : Str → Bool
no_colon [] = true
no_colon (c ∷ s) = not (c == b':') && no_colon s

skip_spaces-append :
    (pre : Str) (c : ℕ) (s : Str)
    → all_spaces pre ≡ true
    → is_space c ≡ false
    → skip_spaces (pre ++ c ∷ s) ≡ c ∷ s
unfolding all_spaces skip_spaces
skip_spaces-append [] c s h n = rw (skip_spaces, n) refl
skip_spaces-append (b ∷ pre) c s h n =
    sym (if-true (skip_spaces (pre ++ c ∷ s)) (b ∷ (pre ++ c ∷ s)) (ground (arith, h)))
    ∙ skip_spaces-append pre c s (ground (arith, h)) n

strip_end-spaces : (s : Str) → all_spaces s ≡ true → strip_end s ≡ []
unfolding all_spaces strip_end
strip_end-spaces [] h = refl
strip_end-spaces (c ∷ s) h = rw (strip_end-spaces s (ground (arith, h))) (ground (arith, h))

non_empty : (s : Str) (c : ℕ) → is_empty (s ++ c ∷ []) ≡ false
non_empty [] c = refl
non_empty (b ∷ s) c = refl

strip_end-append :
    (s : Str) (c : ℕ) (after : Str)
    → is_space c ≡ false
    → all_spaces after ≡ true
    → strip_end (s ++ c ∷ after) ≡ s ++ c ∷ []
unfolding strip_end
strip_end-append [] c after n h = rw (strip_end-spaces after h, n) refl
strip_end-append (b ∷ s) c after n h = rw (strip_end-append s c after n h, non_empty s c) refl

not_colon : (c : ℕ) (a : Str) → no_colon (c ∷ a) ≡ true → (c == 58) ≡ false
unfolding no_colon
not_colon c a h = ground (arith, h)

split_at-append : (a b : Str) → no_colon a ≡ true → split_at 58 (a ++ 58 ∷ b) ≡ some (a, b)
unfolding split_at no_colon
split_at-append [] b h = refl
split_at-append (c ∷ a) b h = rw (not_colon c a h, split_at-append a b (ground (arith, h))) refl

-- The end of the line is what is left of the white space behind the message.
line_end :
    (friend message after : Str) (end : ℕ)
    → all_spaces after ≡ true
    → is_space end ≡ false
    → strip_end (codes "chat:" ++ (friend ++ 58 ∷ (message ++ end ∷ after)))
      ≡ codes "chat:" ++ (friend ++ 58 ∷ (message ++ end ∷ []))
line_end friend message after end q n =
    ap strip_end (sym (regroup after))
    ∙ strip_end-append (codes "chat:" ++ (friend ++ 58 ∷ message)) end after n q
    ∙ regroup []
  where
    regroup :
        (t : Str)
        → (codes "chat:" ++ (friend ++ 58 ∷ message)) ++ end ∷ t
          ≡ codes "chat:" ++ (friend ++ 58 ∷ (message ++ end ∷ t))
    regroup t =
        append_assoc (codes "chat:") (friend ++ 58 ∷ message) (end ∷ t)
        ∙ ap (λ u. codes "chat:" ++ u) (append_assoc friend (58 ∷ message) (end ∷ t))

module _ (J : JsonApi) where
  open J use {object}

  -- A line of the menu with white space before and behind, and between them "chat:", a text without
  -- a colon, a colon, and a message that ends with a visible byte and may itself have colons: the
  -- client sends one chat message, to the number that `atoi` reads in the text, with the message as
  -- it was typed.
  pub typed_chat :
      (sent_ok : Bool) (stamp before after friend message : Str) (end : ℕ) (c : Cli)
      → all_spaces before ≡ true
      → all_spaces after ≡ true
      → no_colon friend ≡ true
      → is_space end ≡ false
      → on_line J sent_ok stamp
          (before ++ (codes "chat:" ++ (friend ++ 58 ∷ (message ++ end ∷ after))))
          c
        ≡ transmit J
            (object (
              msgid one_chat_msg
              ∷ ("id", num c.user.id)
              ∷ ("name", text c.user.name)
              ∷ ("toid", num (atoi friend))
              ∷ ("msg", text (message ++ end ∷ []))
              ∷ ("time", text stamp)
              ∷ []))
            c
  unfolding on_line no_colon is_space lookup str_eq
  typed_chat sent_ok stamp before after friend message end c p q r n =
      ap (λ s. on_text J sent_ok stamp (strip_end s) c)
        (skip_spaces-append before b'c' (codes "hat:" ++ (friend ++ 58 ∷ (message ++ end ∷ after)))
          p refl)
      ∙ ap (λ s. on_text J sent_ok stamp s c) (line_end friend message after end q n)
      ∙ ap
          (λ o.
            dispatch J sent_ok stamp (codes "chat:" ++ (friend ++ 58 ∷ (message ++ end ∷ []))) o c)
          (split_at-append (codes "chat") (friend ++ 58 ∷ (message ++ end ∷ [])) refl)
      ∙ ap (λ o. chat_to J stamp o c) (split_at-append friend (message ++ end ∷ []) r)
