-- ===== src/Queue/Cap.antt =====
-- The cap on active items of tools/queue_core.py, which `validate` does not check: every operation
-- keeps it.
use native.Mathlib.Nat.{le_trans}
use agent_engineering_standa.Base.{
  ℕ, ◌≤◌, ◌+◌, ◌≡◌, refl, ap, ◌∙◌, select, true, Option, some, List, [], ◌∷◌, ◌++◌, Text, ok, arith,
  length, length-append, select-append,
}
use agent_engineering_standa.Queue.Types.{pending, active, Item, State, Details, ◌=ˢ◌}
use agent_engineering_standa.Queue.Query.{find_item, max_active, is_active, active_items}
use agent_engineering_standa.Queue.Edit.{
  Change, add, edit, limit, handoff, change_item, apply_details, changes,
}
use agent_engineering_standa.Queue.Transition.{
  with_status, blocked_for, start, block, unblock, done, remove_item, transition,
}
use agent_engineering_standa.Queue.Move.{Anchor, after_item, before_item, insert_at, move}
use agent_engineering_standa.Queue.Request.{Request, perform}
use agent_engineering_standa.Queue.Inversion.{
  new_item, add-eq-ok, edit-eq-ok, block-eq-ok, unblock-eq-ok, done-eq-ok, move-eq-ok,
}
use agent_engineering_standa.Queue.Start.{start-eq-ok}

-- How many items are active.
abbrev pub running : List Item → ℕ
running items = length (active_items items)

abbrev pub WithinCap : State → Type 0
WithinCap s = running s.items ≤ max_active s

running-append : (xs ys : List Item) → running (xs ++ ys) ≡ running xs + running ys
unfolding active_items
running-append xs ys =
    ap length (select-append is_active xs ys)
    ∙ length-append (select is_active xs) (select is_active ys)

running-pending : (i : Item) → i.status ≡ pending → running (i ∷ []) ≡ 0
unfolding active_items ◌=ˢ◌
running-pending i h = ground arith

apply_details-active :
    (d : Details) (i : Item) → is_active (apply_details d i) ≡ true → is_active i ≡ true
unfolding apply_details
apply_details-active d i h = h

running-change :
    (id : Text) (f : Item → Item) (items : List Item)
    → running (change_item id f items) ≤ running items + 1
unfolding change_item active_items
running-change id f [] = omega arith
running-change id f (i ∷ is) = ground (arith, running-change id f is)

-- A change that activates nothing.
running-change_le :
    (id : Text) (f : Item → Item) (items : List Item)
    → ((i : Item) → is_active (f i) ≡ true → is_active i ≡ true)
    → running (change_item id f items) ≤ running items
unfolding change_item active_items
running-change_le id f [] h = omega arith
running-change_le id f (i ∷ is) h = ground (arith, running-change_le id f is h, h i)

running-remove :
    (id : Text) (items : List Item) (i : Item)
    → find_item id items ≡ some i
    → running items ≡ running (i ∷ remove_item id items)
unfolding remove_item active_items find_item
running-remove id [] i f = cc
running-remove id (j ∷ js) i f = ground (arith, running-remove id js i)

running-remove_le : (id : Text) (items : List Item) → running (remove_item id items) ≤ running items
unfolding remove_item active_items
running-remove_le id [] = omega arith
running-remove_le id (j ∷ js) = ground (arith, running-remove_le id js)

running-insert :
    (a : Anchor) (i : Item) (items : List Item)
    → running (insert_at a i items) ≡ running (i ∷ items)
unfolding insert_at active_items
running-insert a i [] = refl
running-insert (after_item a) i (j ∷ js) = ground (arith, running-insert (after_item a) i js)
running-insert (before_item a) i (j ∷ js) = ground (arith, running-insert (before_item a) i js)

-- `WithinCap` under an equation for the state.
WithinCap-of_eq : (s : State) (c : Change) → c.0 ≡ s → WithinCap s → WithinCap c.0
WithinCap-of_eq s c e w = rw e w

-- Each operation, by what it does to the items and to the cap.
add-WithinCap :
    (s : State) (title : Text) (refs : List Text) (note : Text) (deps : List Text) (c : Change)
    → add s title refs note deps ≡ ok c
    → WithinCap s
    → WithinCap c.0
unfolding max_active
add-WithinCap s title refs note deps c h w =
    let (t, rs, n, ds, et, er, en, ed, new) = add-eq-ok s title refs note deps c h in
    rw new (
      omega (
        arith,
        running-append s.items (new_item s t rs n ds ∷ []),
        running-pending (new_item s t rs n ds) refl,
        w,
      ))

edit-WithinCap :
    (s : State) (id : Text) (d : Details) (c : Change)
    → edit s id d ≡ ok c
    → WithinCap s
    → WithinCap c.0
unfolding max_active
edit-WithinCap s id d c h w =
    let (i, p, ei, ep, new) = edit-eq-ok s id d c h in
    rw new (
      le_trans (running-change_le id (apply_details (changes i p)) s.items (apply_details-active _))
        w)

limit-WithinCap :
    (s : State) (n : ℕ) (by reason : Text) (c : Change) → limit s n by reason ≡ ok c → WithinCap c.0
unfolding limit max_active
limit-WithinCap s n by reason c h = ground arith

start-WithinCap : (s : State) (id : Text) (c : Change) → start s id ≡ ok c → WithinCap c.0
unfolding max_active
start-WithinCap s id c h =
    let (i, found, passed, here, room, new) = start-eq-ok s id c h in
    rw new (omega (arith, room, running-change id (with_status active) s.items))

block-WithinCap :
    (s : State) (id reason : Text) (c : Change)
    → block s id reason ≡ ok c
    → WithinCap s
    → WithinCap c.0
unfolding max_active
block-WithinCap s id reason c h w =
    let (i, r, ei, er, eb, new) = block-eq-ok s id reason c h in
    rw new (le_trans (running-change_le id (blocked_for r) s.items (λ j a. unfold ◌=ˢ◌ in cc a)) w)

unblock-WithinCap :
    (s : State) (id : Text) (c : Change) → unblock s id ≡ ok c → WithinCap s → WithinCap c.0
unfolding max_active
unblock-WithinCap s id c h w =
    let (i, ei, eb, new) = unblock-eq-ok s id c h in
    rw new
      (le_trans (running-change_le id (with_status pending) s.items (λ j a. unfold ◌=ˢ◌ in cc a)) w)

done-WithinCap :
    (s : State) (id reason : Text) (c : Change)
    → done s id reason ≡ ok c
    → WithinCap s
    → WithinCap c.0
unfolding max_active
done-WithinCap s id reason c h w =
    let (i, ei, eb, new) = done-eq-ok s id reason c h in
    rw new (le_trans (running-remove_le id s.items) w)

move-WithinCap :
    (s : State) (id : Text) (after before : Option Text) (by reason : Text) (c : Change)
    → move s id after before by reason ≡ ok c
    → WithinCap s
    → WithinCap c.0
unfolding max_active
move-WithinCap s id after before by reason c h w =
    let (a, i, j, eo, ea, ei, en, ej, ed, new) = move-eq-ok s id after before by reason c h in
    rw new (
      omega (arith, running-insert a i (remove_item id s.items), running-remove id s.items i ei, w))

handoff-WithinCap :
    (digest : Text → Text) (s : State) (value : Text) (c : Change)
    → handoff digest s value ≡ ok c
    → WithinCap s
    → WithinCap c.0
unfolding handoff
handoff-WithinCap digest s value c h w = ground arith

transition-WithinCap :
    (s : State) (id action reason : Text) (c : Change)
    → transition s id action reason ≡ ok c
    → WithinCap s
    → WithinCap c.0
unfolding transition
transition-WithinCap s id action reason c h w = ground (
  arith,
  start-WithinCap s id c,
  block-WithinCap s id reason c,
  unblock-WithinCap s id c,
  done-WithinCap s id reason c,
)

-- No accepted command leaves more items active than the cap allows, if there were not more before.
pub perform-WithinCap :
    (digest : Text → Text) (s : State) (r : Request) (c : Change)
    → perform digest s r ≡ ok c
    → WithinCap s
    → WithinCap c.0
unfolding perform
perform-WithinCap digest s (Request.add title refs note deps) c h w =
    add-WithinCap s title refs note deps c h w
perform-WithinCap digest s (Request.edit id d) c h w = edit-WithinCap s id d c h w
perform-WithinCap digest s (Request.move id after before by reason) c h w =
    move-WithinCap s id after before by reason c h w
perform-WithinCap digest s (Request.limit n by reason) c h w = limit-WithinCap s n by reason c h
perform-WithinCap digest s (Request.handoff text) c h w = handoff-WithinCap digest s text c h w
perform-WithinCap digest s (Request.transition id action reason) c h w =
    transition-WithinCap s id action reason c h w
