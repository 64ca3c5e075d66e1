-- ===== src/Logging/Sized.antt =====
-- What each step of the log's thread does to the sizes of the files.
use qt_chat.Base.{
  ℕ, suc, ◌+◌, ◌≤◌, ◌<◌, Bool, true, false, not, ◌&&◌, ◌||◌, List, [], ◌∷◌, ◌++◌, Option, none,
  some, ◌≡◌, ◌⊎◌, inl, inr, refl, sym, ap, subst, arith,
}
use qt_chat.Base.Tests.{if◌then◌else◌, leb, is_some}
use qt_chat.Base.Lists.{Str, is_empty, length, length-append, str_eq_refl}
use qt_chat.Base.Map.{Map, lookup, lookup-insert, str_key}
use qt_chat.Logging.{Log, Place, at_top, at_lock, checked, asleep, returned}
use qt_chat.Logging.Thread.{
  roll, take_line, write_out, write_line, create_new_file, show, put_bytes, wrote, opened, counted,
  at_place, new_name, contents, notified, unlocked,
}
use qt_chat.Logging.Writing.{write_to_file-Ends}

abbrev pub file_size : Str → Log → ℕ
file_size name l = length (contents (lookup name l.disk))

abbrev pub AllShort : ℕ → List Str → Type 0
AllShort most [] = Unit {0}
AllShort most (s ∷ ss) = (length s ≤ most) × AllShort most ss

abbrev pub open_size : Option Str → Map Str Str → ℕ
open_size none disk = 0
open_size (some name) disk = length (contents (lookup name disk))

-- Room in the open file for one more line, where there are files.
abbrev pub Room : Log → Type 0
Room l = (is_empty l.file_name ≡ true) ⊎ (l.written < l.roll_size)

-- What the thread knows where it stands.
abbrev pub Knows : Place → Log → Type 0
Knows at_top l = open_size l.handle l.disk ≤ l.written
Knows at_lock l = (open_size l.handle l.disk ≤ l.written) × Room l
Knows checked l = (open_size l.handle l.disk ≤ l.written) × Room l
Knows asleep l = (open_size l.handle l.disk ≤ l.written) × Room l
Knows returned l = Unit {0}

-- Lines, the level and the request to exit do not matter to it.
pub Knows-push_line :
    (p x : Place) (s : Str) (l : Log)
    → Knows p l
    → Knows (notified (unlocked p)) (record l { queue = l.queue ++ s ∷ []; place = x })
Knows-push_line at_top x s l k = k
Knows-push_line at_lock x s l k = k
Knows-push_line checked x s l k = k
Knows-push_line asleep x s l k = k
Knows-push_line returned x s l k = k

pub Knows-level : (p : Place) (n : ℕ) (l : Log) → Knows p l → Knows p (record l { level = n })
Knows-level at_top n l k = k
Knows-level at_lock n l k = k
Knows-level checked n l k = k
Knows-level asleep n l k = k
Knows-level returned n l k = k

pub Knows-exit :
    (p x : Place) (b : Bool) (l : Log)
    → Knows p l
    → Knows (notified p) (record l { exit = b; place = x })
Knows-exit at_top x b l k = k
Knows-exit at_lock x b l k = k
Knows-exit checked x b l k = k
Knows-exit asleep x b l k = k
Knows-exit returned x b l k = k

pub record Sized (roll_size most : ℕ) (l : Log) : Type 0 where
  pub same : l.roll_size ≡ roll_size
  pub sizes : (name : Str) → file_size name l ≤ l.roll_size + most
  pub knows : Knows l.place l
  pub short : AllShort most l.queue

-- Bytes go to one file only.
put_bytes-sizes :
    (h : Option Str) (s : Str) (l : Log) (most : ℕ)
    → open_size h l.disk + length s ≤ l.roll_size + most
    → ((name : Str) → file_size name l ≤ l.roll_size + most)
    → (name : Str) → file_size name (put_bytes h s l) ≤ l.roll_size + most
put_bytes-sizes none s l most h k name = k name
put_bytes-sizes (some n) s l most h k name =
    rw (lookup-insert) (ground (arith, k name, length-append (contents (lookup n l.disk)) s))

put_bytes-open :
    (h : Option Str) (s : Str) (l : Log)
    → open_size h (put_bytes h s l).disk ≤ open_size h l.disk + length s
put_bytes-open none s l = omega arith
put_bytes-open (some n) s l =
    rw lookup-insert (ground (arith, length-append (contents (lookup n l.disk)) s))

-- A line is about to be written.
record Ready (roll_size most : ℕ) (s : Str) (l : Log) : Type 0 where
  same : l.roll_size ≡ roll_size
  sizes : (name : Str) → file_size name l ≤ l.roll_size + most
  small : open_size l.handle l.disk ≤ l.written
  room : l.written < l.roll_size
  short : AllShort most l.queue
  fits : length s ≤ most

counted-Sized :
    (r most : ℕ) (h : Option Str) (ok : Bool) (part s : Str) (l : Log)
    → l.handle ≡ h
    → length part ≤ length s
    → Ready r most s l
    → Sized r most (counted s (ok, put_bytes h part l))
counted-Sized r most none true part s l e le v = record {
  same = v.same;
  sizes = v.sizes;
  knows = rw e (omega arith);
  short = v.short;
}
counted-Sized r most none false part s l e le v = record {
  same = v.same;
  sizes = v.sizes;
  knows = tt;
  short = v.short;
}
counted-Sized r most (some n) true part s l e le v =
    let o : open_size (some n) l.disk ≤ l.written =
      subst (λ h. open_size h l.disk ≤ l.written) e v.small in
    record {
      same = v.same;
      sizes = put_bytes-sizes (some n) part l most (omega (arith, o, v.room, v.fits)) v.sizes;
      knows = rw e (omega (arith, put_bytes-open (some n) part l, o));
      short = v.short;
    }
counted-Sized r most (some n) false part s l e le v =
    let o : open_size (some n) l.disk ≤ l.written =
      subst (λ h. open_size h l.disk ≤ l.written) e v.small in
    record {
      same = v.same;
      sizes = put_bytes-sizes (some n) part l most (omega (arith, o, v.room, v.fits)) v.sizes;
      knows = tt;
      short = v.short;
    }

pub if-holds :
    (b : Bool) (P : Log → Type 0) (x y : Log)
    → (b ≡ true → P x)
    → (b ≡ false → P y)
    → P (if b then x else y)
if-holds true P x y p q = p refl
if-holds false P x y p q = q refl

show-Ready : (r most : ℕ) (s : Str) (l : Log) → Ready r most s l → Ready r most s (show s l)
unfolding show
show-Ready r most s l v =
    if-holds l.console_output (Ready r most s) (record l { console = l.console ++ s ∷ [] }) l
      (λ t. record {
        same = v.same;
        sizes = v.sizes;
        small = v.small;
        room = v.room;
        short = v.short;
        fits = v.fits;
      })
      (λ f. v)

write_line-Sized :
    (r most : ℕ) (accepts : ℕ → ℕ) (s : Str) (l : Log)
    → Ready r most s l
    → Sized r most (counted s (write_line accepts s l))
unfolding write_line
write_line-Sized r most accepts s l v =
    let e = write_to_file-Ends accepts (suc (length s)) 0 s (omega arith) in
    subst (λ o. Sized r most (counted s (wrote o l))) (sym e.ended)
      (counted-Sized r most l.handle e.ok e.part s l refl
        (omega (arith, length-append e.part e.rest, ap length e.split)) v)

show-top :
    (r most : ℕ) (s : Str) (l : Log)
    → Sized r most (record l { place = at_top })
    → Sized r most (record (show s l) { place = at_top })
unfolding show
show-top r most s l v =
    if-holds l.console_output (λ m. Sized r most (record m { place = at_top }))
      (record l { console = l.console ++ s ∷ [] }) l
      (λ t. record { same = v.same; sizes = v.sizes; knows = v.knows; short = v.short }) (λ f. v)

-- Where the thread makes no new file, it is because there is room or there are no files.
Room-left :
    (l : Log)
    → (not (is_empty l.file_name) && (not (is_some l.handle) || leb l.roll_size l.written)) ≡ false
    → Room l
Room-left l f = ground (arith, f)

created-Sized :
    (r most : ℕ) (opens : Bool) (name : Str) (l : Log)
    → 0 < r
    → Sized r most (record l { place = at_top })
    → Sized r most (opened (create_new_file opens name (record l { written = 0 })))
unfolding create_new_file
created-Sized r most true name l pos v = record {
  same = v.same;
  sizes = λ n. rw lookup-insert (ground (arith, v.sizes n));
  knows = (rw (lookup-insert, str_eq_refl name) (ground arith), inr (omega (arith, pos, v.same)));
  short = v.short;
}
created-Sized r most false name l pos v = record {
  same = v.same;
  sizes = v.sizes;
  knows = tt;
  short = v.short;
}

write_out-Sized :
    (r most : ℕ) (accepts : ℕ → ℕ) (s : Str) (l : Log)
    → Sized r most (record l { place = at_top })
    → Room l
    → length s ≤ most
    → Sized r most (write_out accepts s l)
unfolding write_out
write_out-Sized r most accepts s l v room fits =
    if-holds (not (is_empty l.file_name)) (Sized r most)
      (counted s (write_line accepts s (show s l))) (record (show s l) { place = at_top })
      (λ t. write_line-Sized r most accepts s (show s l) (
        show-Ready r most s l (record {
          same = v.same;
          sizes = v.sizes;
          small = v.knows;
          room = elim room [ inl e ↦ ground (arith, t, e) | inr q ↦ q ];
          short = v.short;
          fits = fits;
        })))
      (λ f. show-top r most s l v)

roll-Sized :
    (r most : ℕ) (opens : Bool) (now : Str) (l : Log)
    → 0 < r
    → Sized r most (record l { place = at_top })
    → Sized r most (roll opens now l)
unfolding roll
roll-Sized r most opens now l pos v =
    if-holds (not (is_empty l.file_name) && (not (is_some l.handle) || leb l.roll_size l.written))
      (Sized r most) (opened (create_new_file opens (new_name now l) (record l { written = 0 })))
      (record l { place = at_lock }) (λ t. created-Sized r most opens (new_name now l) l pos v)
      (λ f. record {
        same = v.same;
        sizes = v.sizes;
        knows = (v.knows, Room-left l f);
        short = v.short;
      })

take_line-Sized :
    (r most : ℕ) (accepts : ℕ → ℕ) (q : List Str) (l : Log)
    → l.queue ≡ q
    → Sized r most l
    → Sized r most (record l { place = at_top })
    → Room l
    → Sized r most (take_line accepts q l)
unfolding take_line
take_line-Sized r most accepts [] l e v w room =
    if-holds l.exit (Sized r most) (record l { place = returned }) (record l { place = checked })
      (λ t. record { same = v.same; sizes = v.sizes; knows = tt; short = v.short })
      (λ f. record { same = v.same; sizes = v.sizes; knows = (w.knows, room); short = v.short })
take_line-Sized r most accepts (s ∷ ss) l e v w room =
    let short : AllShort most (s ∷ ss) = subst (AllShort most) e v.short in
    write_out-Sized r most accepts s (record l { queue = ss })
      (record { same = v.same; sizes = v.sizes; knows = w.knows; short = short.1 }) room short.0

pub at_place-Sized :
    (r most : ℕ) (p : Place) (opens : Bool) (now : Str) (accepts : ℕ → ℕ) (l : Log)
    → l.place ≡ p
    → 0 < r
    → Sized r most l
    → Sized r most (at_place p opens now accepts l)
at_place-Sized r most at_top opens now accepts l e pos v =
    roll-Sized r most opens now l pos (record {
      same = v.same;
      sizes = v.sizes;
      knows = subst (λ p. Knows p l) e v.knows;
      short = v.short;
    })
at_place-Sized r most at_lock opens now accepts l e pos v =
    let k : Knows at_lock l = subst (λ p. Knows p l) e v.knows in
    take_line-Sized r most accepts l.queue l refl v
      (record { same = v.same; sizes = v.sizes; knows = k.0; short = v.short }) k.1
at_place-Sized r most checked opens now accepts l e pos v = record {
  same = v.same;
  sizes = v.sizes;
  knows = subst (λ p. Knows p l) e v.knows;
  short = v.short;
}
at_place-Sized r most asleep opens now accepts l e pos v = v
at_place-Sized r most returned opens now accepts l e pos v = v
