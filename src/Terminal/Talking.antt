-- ===== src/Terminal/Talking.antt =====
-- The command line client against the server: what it sends has no length in front, and what it
-- gets has one.
use qt_chat.Base.{ℕ, suc, ◌/◌, ◌%◌, ◌^◌, ◌≡◌, ◌≢◌, refl, ap, ◌∙◌, [], ◌∷◌, ◌++◌, none, arith}
use qt_chat.Base.Lists.{c_str, Str, length, take}
use qt_chat.Wire.{packet, be32, read32, cut_frame, next_frame, rejected, serve, on_message}
use qt_chat.Wire.Frames.{Fits}
use qt_chat.Server.Api.{JsonApi, Mysql, Pubsub}
use qt_chat.Server.State.{Conn, State}
use qt_chat.Server.Dispatch.{handle_body, server_read}
use qt_chat.Terminal.{JsonLists, Cli, ended}
use qt_chat.Terminal.Requests.{request_bytes}
use qt_chat.Terminal.Replies
use qt_chat.Terminal.Replies.{on_recv, or_ended, ◌>>=◌}

-- Four bytes that begin with a brace and a quote are a length of more than 1 MiB.
brace_rejected : (c : ℕ) (t : Str) → next_frame (b'{' ∷ b'"' ∷ c ∷ (t ++ 0 ∷ [])) ≡ rejected
unfolding next_frame cut_frame read32
brace_rejected c [] = ground arith
brace_rejected c (d ∷ t) = ground arith

c_str-cons : (b : ℕ) (s : Str) → b ≢ 0 → c_str (b ∷ s) ≡ b ∷ c_str s
unfolding c_str
c_str-cons b s n = ground (arith, n)

refused_at_once :
    {S : Type 0} (handle : Str → S → S) (refuse : S → S) (buf : Str) (state : S)
    → next_frame buf ≡ rejected
    → on_message handle refuse buf state ≡ ([], refuse state)
unfolding on_message next_frame
refused_at_once handle refuse [] state e = ground (arith, e)
refused_at_once handle refuse (b ∷ buf) state e = rw (e, serve) refl

module _ (J : JsonApi) (L : JsonLists J) where
  open J use {Json, dump, parse}

  request_rejected :
      (js : Json) (c : ℕ) (s : Str)
      → dump js ≡ b'{' ∷ b'"' ∷ c ∷ s
      → c ≢ 0
      → next_frame (request_bytes J js) ≡ rejected
  unfolding request_bytes
  request_rejected js c s e n =
      ap (λ t. next_frame (c_str t ++ 0 ∷ [])) e
      ∙ ap (λ t. next_frame (t ++ 0 ∷ []))
          (c_str-cons b'{' (b'"' ∷ c ∷ s) (omega arith)
            ∙ ap (λ t. b'{' ∷ t) (c_str-cons b'"' (c ∷ s) (omega arith))
            ∙ ap (λ t. b'{' ∷ b'"' ∷ t) (c_str-cons c s n))
      ∙ brace_rejected c (c_str s)

  abbrev tail_of : Str → Str
  tail_of b =
      length b % 2 ^ 32 / 2 ^ 16 % 256
      ∷ length b % 2 ^ 32 / 2 ^ 8 % 256
      ∷ length b % 2 ^ 32 % 256
      ∷ b

  first_byte : (b : Str) → Fits b → (t : Str) × (packet b ≡ 0 ∷ t)
  unfolding packet be32
  first_byte b fit = (tail_of b, ap (λ h. h ∷ tail_of b) (omega (arith, fit.1)))

  -- Two sides of one mismatch. Where the text of a request begins with a brace, a quote and another
  -- byte but zero, as that of every object with fields does, the server's reader takes the first
  -- four bytes of what the client sends for a length over 1 MiB: it drops the buffer and handles
  -- nothing, so that its state is as before. And where an empty text does not parse, a `recv` that
  -- brings the first byte or more of a packet with a body of 1 byte to 1 MiB ends the client.
  pub never_talk :
      (D : Mysql) (R : Pubsub) (now : ℕ) (conn : Conn) (state : State D.Db R.Link) (js : Json)
      (c : ℕ) (s : Str)
      → dump js ≡ b'{' ∷ b'"' ∷ c ∷ s
      → c ≢ 0
      → parse [] ≡ none
      → (body : Str) (k : ℕ) (cli : Cli) → Fits body
      → (server_read J D R now conn (request_bytes J js) state ≡ ([], state))
        × (on_recv J L (take (suc k) (packet body)) cli ≡ record cli { place = ended })
  unfolding on_recv c_str server_read
  never_talk D R now conn state js c s e n bad body k cli fit =
      let (t, f) = first_byte body fit in
      (
        refused_at_once (handle_body J D R now conn) (λ s. s) (request_bytes J js) state
            (request_rejected js c s e n),
        ap (λ p. on_recv J L (take (suc k) p) cli) f
            ∙ ap (λ o. or_ended J L cli (o >>= λ js. Replies.on_json J L js cli)) bad,
      )
