-- ===== src/Wire/Stream.antt =====
-- The read loop over a byte stream: however the network cuts the stream into deliveries, the
-- handlers see the same messages.
use qt_chat.Base.{
  ℕ, zero, suc, ◌+◌, ◌≤◌, ◌≡◌, refl, sym, ap, ◌∙◌, ◌⊎◌, inl, inr, ◌≢◌, List, [], ◌∷◌, ◌++◌,
  append_assoc, append-nil, arith,
}
use qt_chat.Base.Tests.{ltb, Bool-cases}
use qt_chat.Base.Lists.{
  Str, length, take, drop, length-append, take-append_length, drop-append_length, take-append_le,
  drop-append_le,
}
use qt_chat.Wire.{
  be32, packet, Frame, incomplete, rejected, frame, read32, cut_frame, next_frame, serve,
  on_message, deliver,
}
use qt_chat.Wire.Frames.{Fits, next_frame_shrinks, read32-be32}

-- The stream that `sendJson` makes of a list of bodies.
abbrev pub stream : List Str → Str
stream [] = []
stream (b ∷ bs) = packet b ++ stream bs

abbrev pub AllFit : List Str → Type 0
AllFit [] = Unit {0}
AllFit (b ∷ bs) = Fits b × AllFit bs

abbrev pub concat : List Str → Str
concat [] = []
concat (c ∷ cs) = c ++ concat cs

-- What a buffer that is a front of a stream holds: no whole packet, or the first one.
abbrev Front : Str → Str → Str → Frame → Type 0
Front b more rest f =
    ((f ≡ incomplete) × (more ≢ [])) ⊎ ((buf : Str) × (f ≡ frame b buf) × (buf ++ more ≡ rest))

module _ (b more rest : Str) (h : Fits b) where
  lengths : (r : Str) → r ++ more ≡ b ++ rest → length r + length more ≡ length b + length rest
  lengths r e = omega (arith, ap length e, length-append r more, length-append b rest)

  take-front : (r : Str) → r ++ more ≡ b ++ rest → length b ≤ length r → take (length b) r ≡ b
  take-front r e le =
      sym (take-append_le (length b) r more le)
      ∙ ap (take (length b)) e
      ∙ take-append_length (length b) b rest refl

  drop-front :
      (r : Str) → r ++ more ≡ b ++ rest → length b ≤ length r → drop (length b) r ++ more ≡ rest
  drop-front r e le =
      sym (drop-append_le (length b) r more le)
      ∙ ap (drop (length b)) e
      ∙ drop-append_length (length b) b rest refl

  cut-Front : (r : Str) → r ++ more ≡ b ++ rest → Front b more rest (cut_frame (length b) r)
  unfolding cut_frame
  cut-Front r e = elim (Bool-cases (ltb (length r) (length b))) [
    | inl short ↦ inl (ground arith, λ n. ground (arith, lengths r e, ap length n))
    | inr long ↦ inr (
      drop (length b) r,
      ground (arith, take-front r e (ground arith)),
      drop-front r e (ground arith),
    )
  ]

  next_frame-Front :
      (buf : Str) → buf ++ more ≡ packet b ++ rest → Front b more rest (next_frame buf)
  unfolding next_frame packet be32
  next_frame-Front [] e = inl (refl, λ n. ground (arith, ap length e, ap length n))
  next_frame-Front (x ∷ []) e = inl (refl, λ n. ground (arith, ap length e, ap length n))
  next_frame-Front (x ∷ y ∷ []) e = inl (refl, λ n. ground (arith, ap length e, ap length n))
  next_frame-Front (x ∷ y ∷ z ∷ []) e = inl (refl, λ n. ground (arith, ap length e, ap length n))
  next_frame-Front (x ∷ y ∷ z ∷ w ∷ r) e =
      let same : read32 x y z w ≡ length b = cc (read32-be32 (length b) (omega arith)) in
      rw same (cut-Front r (cc))

packet≢nil : (b r : Str) → packet b ++ r ≢ []
unfolding packet be32
packet≢nil b r e = omega (arith, ap length e)

next_frame-nil : next_frame [] ≡ incomplete
unfolding next_frame
next_frame-nil = refl

stream-empty : (bodies : List Str) → stream bodies ≡ [] → bodies ≡ []
stream-empty [] e = refl
stream-empty (b ∷ bs) e = absurd (packet≢nil b (stream bs) e)

-- The three answers of a round, with the equation.
data Found (f : Frame) : Type 0 where
  wait : f ≡ incomplete → Found f
  refused : f ≡ rejected → Found f
  ready : (m r : Str) → f ≡ frame m r → Found f

Frame-cases : (f : Frame) → Found f
Frame-cases incomplete = wait refl
Frame-cases rejected = refused refl
Frame-cases (frame m r) = ready m r refl

module _ {ℓ} {S : Type ℓ} (handle : Str → S → S) (refuse : S → S) where
  -- The handlers run on a list of messages, in order.
  abbrev pub handle_all : List Str → S → S
  handle_all [] s = s
  handle_all (b ∷ bs) s = handle_all bs (handle b s)

  -- What a run of the loop leaves of a stream: the bodies still to come, with the same outcome.
  record Served (more : Str) (bodies : List Str) (s : S) (out : Str × S) : Type ℓ where
    left : List Str
    fit : AllFit left
    kept : out.0 ++ more ≡ stream left
    same : handle_all left out.1 ≡ handle_all bodies s
    done : more ≡ [] → left ≡ []

  unserved :
      (buf more : Str) (bodies : List Str) (s : S)
      → AllFit bodies
      → buf ++ more ≡ stream bodies
      → (more ≡ [] → bodies ≡ [])
      → Served more bodies s (buf, s)
  unserved buf more bodies s fit e done = record {
    left = bodies;
    fit = fit;
    kept = e;
    same = refl;
    done = done;
  }

  one_more :
      {more : Str} (b : Str) (bs : List Str) (s : S) (out : Str × S)
      → Served more bs (handle b s) out
      → Served more (b ∷ bs) s out
  one_more b bs s out v = record {
    left = v.left;
    fit = v.fit;
    kept = v.kept;
    same = v.same;
    done = v.done;
  }

  serve-Served :
      (fuel : ℕ) (buf more : Str) (bodies : List Str) (s : S)
      → length buf ≤ fuel
      → AllFit bodies
      → buf ++ more ≡ stream bodies
      → Served more bodies s (serve handle refuse fuel buf s)
  unfolding serve
  serve-Served zero buf more [] s le fit e = unserved buf more [] s fit e (λ n. refl)
  serve-Served zero (x ∷ buf) more (b ∷ bs) s le fit e = absurd (omega arith)
  serve-Served zero [] more (b ∷ bs) s le fit e =
      unserved [] more (b ∷ bs) s fit e (λ n. absurd (packet≢nil b (stream bs) (sym e ∙ n)))
  serve-Served (suc fuel) [] more [] s le fit e =
      rw (next_frame-nil, serve) (unserved [] more [] s fit e (λ n. refl))
  serve-Served (suc fuel) (x ∷ buf) more [] s le fit e = absurd (ground (arith, ap length e))
  serve-Served (suc fuel) buf more (b ∷ bs) s le fit e =
      elim (next_frame-Front b more (stream bs) fit.0 buf e) [
        | inl (part, ne) ↦
            rw (part, serve) (unserved buf more (b ∷ bs) s fit e (λ n. absurd (ne n)))
        | inr (rest, whole, e') ↦
            rw (whole, serve)
              (one_more b bs s _ (
                serve-Served fuel rest more bs (handle b s)
                  (omega (arith, next_frame_shrinks buf b rest whole)) fit.1 e'))
      ]

  -- For any cut of a stream of packets into deliveries, the handlers run on exactly the bodies of
  -- the packets, in order, and the buffer ends empty. `held` is what the buffer holds at the start.
  deliver_from :
      (chunks : List Str) (held : Str) (bodies : List Str) (s : S)
      → AllFit bodies
      → held ++ concat chunks ≡ stream bodies
      → (chunks ≡ [] → bodies ≡ [])
      → deliver handle refuse chunks (held, s) ≡ ([], handle_all bodies s)
  unfolding deliver on_message
  deliver_from [] held bodies s fit e done =
      let none_left : bodies ≡ [] = done refl in
      rw none_left (ap (λ (t : Str). (t, s)) (sym (append-nil held) ∙ e ∙ ap stream none_left))
  deliver_from (c ∷ cs) held bodies s fit e done =
      deliver_from cs _ v.left _ v.fit v.kept (λ n. v.done (ap concat n))
      ∙ ap (λ (t : S). ([], t)) v.same
    where
      v : Served (concat cs) bodies s (on_message handle refuse (held ++ c) s)
      v =
          serve-Served (length (held ++ c)) (held ++ c) (concat cs) bodies s (omega arith) fit
            (append_assoc held c (concat cs) ∙ e)

  -- For any cut of a stream of packets, with bodies of 1 byte to 1 MiB, into deliveries: the
  -- handlers run on exactly the bodies of the packets, in order, and the buffer ends empty.
  pub deliver-stream :
      (chunks bodies : List Str) (s : S)
      → AllFit bodies
      → concat chunks ≡ stream bodies
      → deliver handle refuse chunks ([], s) ≡ ([], handle_all bodies s)
  deliver-stream chunks bodies s fit e =
      deliver_from chunks [] bodies s fit e (λ n. stream-empty bodies (sym e ∙ ap concat n))

  -- After a call of the reader no whole packet is left in the buffer.
  serve_drains :
      (fuel : ℕ) (buf : Str) (s : S)
      → length buf ≤ fuel
      → next_frame (serve handle refuse fuel buf s).0 ≡ incomplete
  unfolding serve
  serve_drains zero [] s le = next_frame-nil
  serve_drains zero (x ∷ buf) s le = absurd (omega arith)
  serve_drains (suc fuel) buf s le = elim (Frame-cases (next_frame buf)) [
    | wait e ↦ rw (e, serve) e
    | refused e ↦ rw (e, serve) next_frame-nil
    | ready m r e ↦
        rw (e, serve)
          (serve_drains fuel r (handle m s) (omega (arith, next_frame_shrinks buf m r e)))
  ]

  -- The reader stops on every buffer: what it leaves begins with no whole packet and with no bad
  -- length.
  pub on_message_drains :
      (buf : Str) (s : S) → next_frame (on_message handle refuse buf s).0 ≡ incomplete
  unfolding on_message
  on_message_drains buf s = serve_drains (length buf) buf s (omega arith)
