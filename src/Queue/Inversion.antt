-- ===== src/Queue/Inversion.antt =====
-- What each operation of tools/queue_core.py has checked when it succeeds, and the state that it
-- returns.
use agent_engineering_standa.Base.{
  ◌+◌, ◌≡◌, true, false, Option, some, List, [], ◌∷◌, ◌++◌, Text, ◌=ᵗ◌, ok, guard, refuse,
  bind-eq-ok, guard-eq-ok, refuse-eq-ok, ok-fst, arith, Bool-cases, contains,
}
use agent_engineering_standa.Queue.Types.{pending, blocked, Item, State, Details, ◌=ˢ◌, not_owner}
use agent_engineering_standa.Queue.Ids.{make_id}
use agent_engineering_standa.Queue.Fields.{
  title_limit, note_limit, reason_limit, text_of, refs_of, deps_of,
}
use agent_engineering_standa.Queue.Query.{find_item, find}
use agent_engineering_standa.Queue.Validate.{deps_in_order}
use agent_engineering_standa.Queue.Edit.{
  Change, add, edited, edit, change_item, apply_details, proposal, changes,
}
use agent_engineering_standa.Queue.Transition.{
  with_status, blocked_for, block, unblock, done, remove_item,
}
use agent_engineering_standa.Queue.Move.{Anchor, anchor_of, anchor_id, insert_at, moved, move}

pub find-eq-ok :
    (s : State) (id : Text) (i : Item) → find s id ≡ ok i → find_item id s.items ≡ some i
unfolding find
find-eq-ok s id i h = ground (arith, Bool-cases (contains id s.archived))

abbrev pub new_item : State → Text → List Text → Text → List Text → Item
new_item s title refs note deps = record {
  id = make_id s.next_id;
  title = title;
  refs = refs;
  status = pending;
  note = note;
  depends_on = deps;
}

pub add-eq-ok :
    (s : State) (title : Text) (refs : List Text) (note : Text) (deps : List Text) (c : Change)
    → add s title refs note deps ≡ ok c
    → (t : Text) × (rs : List Text) × (n : Text) × (ds : List Text) × (text_of title title_limit
          true
        ≡ ok t)
      × (refs_of refs ≡ ok rs)
      × (text_of note note_limit false ≡ ok n)
      × (deps_of s (make_id s.next_id) deps ≡ ok ds)
      × (c.0 ≡ record s { items = s.items ++ (new_item s t rs n ds ∷ []); next_id = s.next_id + 1 })
unfolding add
add-eq-ok s title refs note deps c h =
    let (t, et, h1) = bind-eq-ok (text_of title title_limit true) _ h in
    let (rs, er, h2) = bind-eq-ok (refs_of refs) _ h1 in
    let (n, en, h3) = bind-eq-ok (text_of note note_limit false) _ h2 in
    let (ds, ed, h4) = bind-eq-ok (deps_of s (make_id s.next_id) deps) _ h3 in
    (t, rs, n, ds, et, er, en, ed, ok-fst h4)

edited-eq-ok :
    (s : State) (id : Text) (i : Item) (d : Details) (c : Change)
    → edited s id i d ≡ ok c
    → c.0 ≡ record s { items = change_item id (apply_details d) s.items }
unfolding edited
edited-eq-ok s id i d c h = ground arith

pub edit-eq-ok :
    (s : State) (id : Text) (d : Details) (c : Change)
    → edit s id d ≡ ok c
    → (i : Item) × (p : Details) × (find_item id s.items ≡ some i)
      × (proposal s id d ≡ ok p)
      × (c.0 ≡ record s { items = change_item id (apply_details (changes i p)) s.items })
unfolding edit
edit-eq-ok s id d c h =
    let (i, ei, h1) = bind-eq-ok (find s id) _ h in
    let (p, ep, h2) = bind-eq-ok (proposal s id d) _ h1 in
    (i, p, find-eq-ok s id i ei, ep, edited-eq-ok s id i (changes i p) c h2)

pub block-eq-ok :
    (s : State) (id reason : Text) (c : Change)
    → block s id reason ≡ ok c
    → (i : Item) × (r : Text) × (find_item id s.items ≡ some i)
      × (text_of reason reason_limit true ≡ ok r)
      × ((i.status =ˢ blocked) ≡ false)
      × (c.0 ≡ record s { items = change_item id (blocked_for r) s.items })
unfolding block
block-eq-ok s id reason c h =
    let (i, ei, h1) = bind-eq-ok (find s id) _ h in
    let (r, er, h2) = bind-eq-ok (text_of reason reason_limit true) _ h1 in
    let (u, eu, h3) = bind-eq-ok (refuse _ _) _ h2 in
    (i, r, find-eq-ok s id i ei, er, refuse-eq-ok _ _ eu, ok-fst h3)

pub unblock-eq-ok :
    (s : State) (id : Text) (c : Change)
    → unblock s id ≡ ok c
    → (i : Item) × (find_item id s.items ≡ some i)
      × ((i.status =ˢ blocked) ≡ true)
      × (c.0 ≡ record s { items = change_item id (with_status pending) s.items })
unfolding unblock
unblock-eq-ok s id c h =
    let (i, ei, h1) = bind-eq-ok (find s id) _ h in
    let (u, eu, h2) = bind-eq-ok (guard _ _) _ h1 in
    (i, find-eq-ok s id i ei, guard-eq-ok _ _ eu, ok-fst h2)

pub done-eq-ok :
    (s : State) (id reason : Text) (c : Change)
    → done s id reason ≡ ok c
    → (i : Item) × (find_item id s.items ≡ some i)
      × ((i.status =ˢ pending) ≡ false)
      × (c.0 ≡ record s { items = remove_item id s.items; archived = s.archived ++ (id ∷ []) })
unfolding done
done-eq-ok s id reason c h =
    let (i, ei, h1) = bind-eq-ok (find s id) _ h in
    let (r, er, h2) = bind-eq-ok (text_of reason reason_limit true) _ h1 in
    let (u, eu, h3) = bind-eq-ok (refuse _ _) _ h2 in
    (i, find-eq-ok s id i ei, refuse-eq-ok _ _ eu, ok-fst h3)

moved-eq-ok :
    (s : State) (id : Text) (items : List Item) (by reason : Text) (c : Change)
    → moved s id items by reason ≡ ok c
    → (deps_in_order s.archived items ≡ true) × (c.0 ≡ record s { items = items })
unfolding moved
moved-eq-ok s id items by reason c h = ground arith

pub move-eq-ok :
    (s : State) (id : Text) (after before : Option Text) (by reason : Text) (c : Change)
    → move s id after before by reason ≡ ok c
    → (a : Anchor) × (i : Item) × (j : Item) × ((by =ᵗ s.owner) ≡ true)
      × (anchor_of after before ≡ ok a)
      × (find_item id s.items ≡ some i)
      × ((anchor_id a =ᵗ id) ≡ false)
      × (find_item (anchor_id a) s.items ≡ some j)
      × (deps_in_order s.archived (insert_at a i (remove_item id s.items)) ≡ true)
      × (c.0 ≡ record s { items = insert_at a i (remove_item id s.items) })
unfolding move
move-eq-ok s id after before by reason c h =
    let (u, eu, h1) = bind-eq-ok (guard (by =ᵗ s.owner) not_owner) _ h in
    let (r, er, h2) = bind-eq-ok (text_of reason reason_limit true) _ h1 in
    let (a, ea, h3) = bind-eq-ok (anchor_of after before) _ h2 in
    let (i, ei, h4) = bind-eq-ok (find s id) _ h3 in
    let (v, ev, h5) = bind-eq-ok (refuse _ _) _ h4 in
    let (j, ej, h6) = bind-eq-ok (find s (anchor_id a)) _ h5 in
    let (ordered, new) = moved-eq-ok s id (insert_at a i (remove_item id s.items)) by r c h6 in
    (
      a,
      i,
      j,
      guard-eq-ok _ _ eu,
      ea,
      find-eq-ok s id i ei,
      refuse-eq-ok _ _ ev,
      find-eq-ok s (anchor_id a) j ej,
      ordered,
      new,
    )
