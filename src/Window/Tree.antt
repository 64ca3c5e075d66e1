-- ===== src/Window/Tree.antt =====
-- The tree of the window: its roots "Friends" and "Groups", the items below them and their badges.
use qt_chat.Base.{ℕ, true, false, List, [], ◌∷◌, ◌++◌, Option, none, some}
use qt_chat.Base.Tests.{if◌then◌else◌, ltb, ◌==◌}
use qt_chat.Base.Int.{ℤ, pos, eq_ℤ}
use qt_chat.Base.Lists.{Str, codes, str_eq}
use qt_chat.Server.Models.Text.{decimal}
use qt_chat.Window.{QtText, Item, Root}

-- "%1 [%2]"
unfoldable pub bracketed : Str → Str → Str
bracketed name state = name ++ codes " [" ++ state ++ codes "]"

-- The new item of `loadFriends` and of `onFriendAdded`.
unfoldable pub friend_item : ℤ → Str → Str → Item
unfolding bracketed
friend_item id name state = record {
  is_group = false;
  id = id;
  label = bracketed name state;
  badge = 0;
  lit = str_eq state (codes "online");
}

-- The new item of `loadGroups` and of `onGroupCreated`.
unfoldable pub group_item : ℤ → Str → Item
group_item id name = record { is_group = true; id = id; label = name; badge = 0; lit = false }

-- The loop over the children in `updateFriendBadge` and in `updateGroupBadge`.
unfoldable pub mark_first : ℤ → ℕ → List Item → List Item
mark_first k n [] = []
mark_first k n (i ∷ is) = if eq_ℤ i.id k then record i { badge = n } ∷ is else i ∷ mark_first k n is

-- The loop over the roots, which skips those with another text.
unfoldable pub update_badge : Str → ℤ → ℕ → List Root → List Root
unfolding mark_first
update_badge name k n [] = []
update_badge name k n (r ∷ rs) =
    (if str_eq r.name name then record r { children = mark_first k n r.children } else r)
    ∷ update_badge name k n rs

-- The child goes to the first root with the text.
unfoldable pub add_child : Str → Item → List Root → List Root
add_child name i [] = []
add_child name i (r ∷ rs) =
    if str_eq r.name name
    then record r { children = r.children ++ i ∷ [] } ∷ rs
    else r ∷ add_child name i rs

abbrev cons_found : Item → Option (List Item) → Option (List Item)
cons_found i none = none
cons_found i (some is) = some (i ∷ is)

-- `onFriendStateChanged` on the children of a root; `none` where no child has the id.
unfoldable pub set_state : {A : Type 0} → QtText A → ℤ → Str → List Item → Option (List Item)
unfolding bracketed
set_state T k state [] = none
set_state T k state (i ∷ is) =
    if eq_ℤ i.id k
    then some (
        record i {
          label = bracketed (T.before_bracket i.label) state;
          lit = str_eq state (codes "online");
        }
        ∷ is)
    else cons_found i (set_state T k state is)

-- Its loop over all roots, whatever their text: the first child found ends it.
abbrev on_found : Root → Option (List Item) → List Root → List Root → List Root
on_found r none rs changed = r ∷ changed
on_found r (some is) rs changed = record r { children = is } ∷ rs

unfoldable pub change_state : {A : Type 0} → QtText A → ℤ → Str → List Root → List Root
unfolding set_state
change_state T k state [] = []
change_state T k state (r ∷ rs) =
    on_found r (set_state T k state r.children) rs (change_state T k state rs)

-- The text of `BadgeDelegate::paint`, if it draws one.
unfoldable pub badge_text : ℕ → Option Str
badge_text n =
    if n == 0 then none else if ltb 99 n then some (codes "99+") else some (decimal (pos n))
