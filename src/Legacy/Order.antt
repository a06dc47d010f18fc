-- ===== src/Legacy/Order.antt =====
-- The rule of order of tools/work_queue.py: `transition(.., "start")` against `next_item`.
use agent_engineering_standa.Base.{
  ◌≡◌, ◌↔◌, true, false, some, List, [], ◌∷◌, Text, codes, ◌=ᵗ◌, =ᵗ_iff, =ᵗ_refl, ok, arith,
}
use agent_engineering_standa.Queue.Types.{live, active, LegacyItem, Legacy}
use agent_engineering_standa.Legacy.Items.{
  is_open, is_done, first_open, next_item, find_item, find, check_earlier, start, acted, transition,
  changed_items, with_status,
}

first_open_of_checked :
    (id : Text) (items : List LegacyItem) (i : LegacyItem)
    → find_item id items ≡ some i
    → is_open i ≡ true
    → check_earlier id items ≡ ok tt
    → first_open items ≡ some i
unfolding find_item check_earlier first_open
first_open_of_checked id [] i f o h = cc
first_open_of_checked id (j ∷ js) i f o h = ground (arith, first_open_of_checked id js i)

find_item-id :
    (id : Text) (items : List LegacyItem) (i : LegacyItem) → find_item id items ≡ some i → i.id ≡ id
unfolding find_item
find_item-id id [] i f = cc
find_item-id id (j ∷ js) i f = ground (arith, find_item-id id js i, =ᵗ_iff j.id id)

checked_of_first_open :
    (id : Text) (items : List LegacyItem) (i : LegacyItem)
    → find_item id items ≡ some i
    → first_open items ≡ some i
    → check_earlier id items ≡ ok tt
unfolding find_item check_earlier first_open
checked_of_first_open id [] i f o = cc
checked_of_first_open id (j ∷ js) i f o =
    ground (arith, checked_of_first_open id js i, find_item-id id js i, =ᵗ_iff j.id id)

find-eq-ok :
    (s : Legacy) (id : Text) (i : LegacyItem) → find s id ≡ ok i → find_item id s.items ≡ some i
unfolding find
find-eq-ok s id i h = ground arith

open_undone : (i : LegacyItem) → is_open i ≡ true → is_done i ≡ false
open_undone i o = ground arith

-- Of the items that are neither done nor blocked, exactly the first one starts.
pub transition-next_item :
    (s : Legacy) (id reason : Text) (i : LegacyItem)
    → find s id ≡ ok i
    → is_open i ≡ true
    → ((t : Legacy) × (transition s id (codes "start") reason ≡ ok t)) ↔ (next_item s ≡ some i)
unfolding transition acted start next_item
transition-next_item s id reason i f o =
    let found = find-eq-ok s id i f in
    let starts : (codes "start" =ᵗ codes "start") ≡ true = =ᵗ_refl (codes "start") in
    (
      λ (t, h). first_open_of_checked id s.items i found o (ground arith),
      λ n.
          let c = checked_of_first_open id s.items i found n in
          (changed_items s id (with_status (live active)), rw (f, starts, c, open_undone i o)),
    )
