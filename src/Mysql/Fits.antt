-- ===== src/Mysql/Fits.antt =====
-- The statements in their buffers of 1024 bytes, and on their way to `mysql_query`.
use qt_chat.Base.{
  ℕ, ◌+◌, ◌*◌, ◌<◌, ◌≤◌, Bool, true, false, ◌&&◌, List, [], ◌∷◌, ◌++◌, ◌≡◌, refl, ap, ◌∙◌, arith,
}
use mathlib.Core.Path.{fun_ext}
use qt_chat.Base.Lists.{Str, codes, length, zero_free, length-append}
use qt_chat.Server.Api.{
  Sql, insert_user, select_user, update_user_state, update_user_name, reset_user_states,
  insert_friend, select_friends, insert_group, insert_member, select_groups, select_members,
  select_member_ids, select_group, insert_offline, delete_offline, select_offline, cut_short,
}
use qt_chat.Base.Int.{ℤ}
use qt_chat.Server.Models.{offline_text}
use qt_chat.Server.Offline.{length-offline_text}
use qt_chat.Server.Models.Text.{decimal, length-decimal, zero_free-decimal}
use qt_chat.Mysql.{Driver, escape, update}
use qt_chat.Mysql.Statements.{joined, pieces, statement, field_bytes}
use qt_chat.Mysql.Escape.{Escapes, escape_whole, c_str-zero_free}

abbrev pub is_cut : Sql → Bool
is_cut (cut_short text) = true
is_cut _ = false

total : List Str → ℕ
total [] = 0
total (s ∷ ss) = length s + total ss

all_zero_free : List Str → Bool
all_zero_free [] = true
all_zero_free (s ∷ ss) = zero_free s && all_zero_free ss

length-joined : (ss : List Str) → length (joined ss) ≡ total ss
unfolding joined total
length-joined [] = refl
length-joined (s ∷ ss) = omega (arith, length-append s (joined ss), length-joined ss)

zero_free-append : (s t : Str) → zero_free (s ++ t) ≡ (zero_free s && zero_free t)
unfolding zero_free
zero_free-append [] t = refl
zero_free-append (c ∷ s) t = ground (arith, zero_free-append s t)

zero_free-joined : (ss : List Str) → zero_free (joined ss) ≡ all_zero_free ss
unfolding joined all_zero_free zero_free
zero_free-joined [] = refl
zero_free-joined (s ∷ ss) = ground (arith, zero_free-append s (joined ss), zero_free-joined ss)

total-pieces :
    (real : Str → Str)
    → Escapes real
    → (sql : Sql) → is_cut sql ≡ false
    → total (pieces real sql) ≤ 160 + 2 * field_bytes sql
unfolding total pieces
total-pieces real h (insert_user name pwd state) k =
    omega (arith, (h name).0, (h pwd).0, (h state).0)
total-pieces real h (select_user id) k = omega (arith, length-decimal id)
total-pieces real h (update_user_state state id) k = omega (arith, (h state).0, length-decimal id)
total-pieces real h (update_user_name name id) k = omega (arith, (h name).0, length-decimal id)
total-pieces real h reset_user_states k = omega arith
total-pieces real h (insert_friend a b) k = omega (arith, length-decimal a, length-decimal b)
total-pieces real h (select_friends id) k = omega (arith, length-decimal id)
total-pieces real h (insert_group name desc) k = omega (arith, (h name).0, (h desc).0)
total-pieces real h (insert_member a b role) k =
    omega (arith, (h role).0, length-decimal a, length-decimal b)
total-pieces real h (select_groups id) k = omega (arith, length-decimal id)
total-pieces real h (select_members id) k = omega (arith, length-decimal id)
total-pieces real h (select_member_ids a b) k = omega (arith, length-decimal a, length-decimal b)
total-pieces real h (select_group id) k = omega (arith, length-decimal id)
total-pieces real h (insert_offline id msg) k =
    omega (arith, (h msg).0, length-decimal id, length-offline_text id (real msg))
total-pieces real h (delete_offline id) k = omega (arith, length-decimal id)
total-pieces real h (select_offline id) k = omega (arith, length-decimal id)
total-pieces real h (cut_short text) k = absurd (ground (arith, k))

zero_free-offline_text :
    (id : ℤ) (escaped : Str) → zero_free escaped ≡ true → zero_free (offline_text id escaped) ≡ true
unfolding offline_text zero_free
zero_free-offline_text id escaped h = ground (
  arith,
  h,
  zero_free-decimal id,
  zero_free-append (decimal id) (codes ", '" ++ (escaped ++ codes "')")),
  zero_free-append escaped (codes "')"),
)

zero_free-pieces :
    (real : Str → Str)
    → Escapes real
    → (sql : Sql) → is_cut sql ≡ false
    → all_zero_free (pieces real sql) ≡ true
unfolding all_zero_free pieces zero_free
zero_free-pieces real h (insert_user name pwd state) k =
    ground (arith, (h name).1, (h pwd).1, (h state).1)
zero_free-pieces real h (select_user id) k = ground (arith, zero_free-decimal id)
zero_free-pieces real h (update_user_state state id) k =
    ground (arith, (h state).1, zero_free-decimal id)
zero_free-pieces real h (update_user_name name id) k =
    ground (arith, (h name).1, zero_free-decimal id)
zero_free-pieces real h reset_user_states k = ground arith
zero_free-pieces real h (insert_friend a b) k =
    ground (arith, zero_free-decimal a, zero_free-decimal b)
zero_free-pieces real h (select_friends id) k = ground (arith, zero_free-decimal id)
zero_free-pieces real h (insert_group name desc) k = ground (arith, (h name).1, (h desc).1)
zero_free-pieces real h (insert_member a b role) k =
    ground (arith, (h role).1, zero_free-decimal a, zero_free-decimal b)
zero_free-pieces real h (select_groups id) k = ground (arith, zero_free-decimal id)
zero_free-pieces real h (select_members id) k = ground (arith, zero_free-decimal id)
zero_free-pieces real h (select_member_ids a b) k =
    ground (arith, zero_free-decimal a, zero_free-decimal b)
zero_free-pieces real h (select_group id) k = ground (arith, zero_free-decimal id)
zero_free-pieces real h (insert_offline id msg) k =
    ground (arith, zero_free-offline_text id (real msg) (h msg).1)
zero_free-pieces real h (delete_offline id) k = ground (arith, zero_free-decimal id)
zero_free-pieces real h (select_offline id) k = ground (arith, zero_free-decimal id)
zero_free-pieces real h (cut_short text) k = absurd (ground (arith, k))

-- While `mysql_real_escape_string` keeps to what its manual says, every statement whose fields have
-- at most 430 bytes in all fits the 1024 bytes of its buffer with the zero at its end, and reaches
-- `mysql_query` whole: the fields stand in it as the library escaped them.
pub statement_arrives :
    (D : Driver)
    → Escapes D.real_escape
    → (sql : Sql) → is_cut sql ≡ false
    → field_bytes sql ≤ 430
    → (c : D.Conn)
    → (length (statement (escape D) sql) < 1024)
      × (update D (statement (escape D) sql) c ≡ D.query (statement D.real_escape sql) c)
unfolding update
statement_arrives D h sql k small c = rw (fun_ext (escape_whole D h)) (
  omega (arith, length-joined (pieces D.real_escape sql), total-pieces D.real_escape h sql k),
  ap (λ s. D.query s c)
      (c_str-zero_free (statement D.real_escape sql)
        (zero_free-joined (pieces D.real_escape sql) ∙ zero_free-pieces D.real_escape h sql k)),
)
