-- ===== src/Queue/Valid/Requests.antt =====
-- Every command that tools/work_queue.py dispatches keeps a queue valid.
use agent_engineering_standa.Base.{
  ℕ, ◌<◌, ◌≡◌, refl, ◌∙◌, inl, inr, Bool, true, false, ◌||◌, Option, some, List, [], ◌∷◌, Text,
  ◌=ᵗ◌, =ᵗ_iff, contains, any, ok, arith, All, Bool-cases,
}
use agent_engineering_standa.Queue.Types.{State, Item}
use agent_engineering_standa.Queue.Fields.{distinct}
use agent_engineering_standa.Queue.Query.{ids, find_item}
use agent_engineering_standa.Queue.Validate.{cap_fits, validate}
use agent_engineering_standa.Queue.Edit.{Change, limit, handoff}
use agent_engineering_standa.Queue.Transition.{remove_item}
use agent_engineering_standa.Queue.Move.{Anchor, after_item, before_item, insert_at, move}
use agent_engineering_standa.Queue.Request.{Request, perform}
use agent_engineering_standa.Queue.Inversion.{move-eq-ok}
use agent_engineering_standa.Queue.Valid.{IsItem, IsValid, validate-IsValid, IsValid-validate}
use agent_engineering_standa.Queue.Valid.Changes.{
  find_item-All, All-remove_item, distinct-remove_item, any-remove_item, removed,
}
use agent_engineering_standa.Queue.Valid.Additions.{add-IsValid}
use agent_engineering_standa.Queue.Valid.Edits.{edit-IsValid}
use agent_engineering_standa.Queue.Valid.Transitions.{transition-validate}

-- The item that a move puts back.
module _ (x : Item) where
  All-insert_at :
      (a : Anchor) (n : ℕ) (items : List Item)
      → IsItem n x
      → All (IsItem n) items
      → All (IsItem n) (insert_at a x items)
  unfolding insert_at
  All-insert_at a n [] new v = (new, tt)
  All-insert_at (after_item a) n (i ∷ is) new (first, rest) = elim (Bool-cases (i.id =ᵗ a)) [
    | inl here ↦ rw here (first, (new, rest))
    | inr other ↦ rw other (first, All-insert_at (after_item a) n is new rest)
  ]
  All-insert_at (before_item a) n (i ∷ is) new (first, rest) = elim (Bool-cases (i.id =ᵗ a)) [
    | inl here ↦ rw here (new, (first, rest))
    | inr other ↦ rw other (first, All-insert_at (before_item a) n is new rest)
  ]

  any-insert_at :
      (p : Text → Bool) (a : Anchor) (items : List Item)
      → any p (ids (insert_at a x items)) ≡ (p x.id || any p (ids items))
  unfolding insert_at
  any-insert_at p a [] = ground arith
  any-insert_at p (after_item a) (i ∷ is) = ground (arith, any-insert_at p (after_item a) is)
  any-insert_at p (before_item a) (i ∷ is) = ground (arith, any-insert_at p (before_item a) is)

  contains-insert_at :
      (y : Text) (a : Anchor) (items : List Item)
      → contains y (ids (insert_at a x items)) ≡ ((y =ᵗ x.id) || contains y (ids items))
  unfolding insert_at contains
  contains-insert_at y a [] = ground arith
  contains-insert_at y (after_item a) (i ∷ is) =
      ground (arith, contains-insert_at y (after_item a) is)
  contains-insert_at y (before_item a) (i ∷ is) =
      ground (arith, contains-insert_at y (before_item a) is)

  distinct-insert_at :
      (a : Anchor) (items : List Item)
      → contains x.id (ids items) ≡ false
      → distinct (ids items) ≡ true
      → distinct (ids (insert_at a x items)) ≡ true
  unfolding insert_at distinct contains
  distinct-insert_at a [] f h = refl
  distinct-insert_at (after_item a) (i ∷ is) f h = ground (
    arith,
    distinct-insert_at (after_item a) is,
    contains-insert_at i.id (after_item a) is,
    =ᵗ_iff x.id i.id,
    =ᵗ_iff i.id x.id,
  )
  distinct-insert_at (before_item a) (i ∷ is) f h = ground (
    arith,
    distinct-insert_at (before_item a) is,
    contains-insert_at i.id (before_item a) is,
    =ᵗ_iff x.id i.id,
    =ᵗ_iff i.id x.id,
  )

any-found :
    (p : Text → Bool) (id : Text) (items : List Item) (i : Item)
    → find_item id items ≡ some i
    → any p (ids items) ≡ false
    → p i.id ≡ false
unfolding find_item
any-found p id [] i f h = cc
any-found p id (j ∷ js) i f h = ground (arith, any-found p id js i)

move-IsValid :
    (s : State) (id : Text) (after before : Option Text) (by reason : Text) (c : Change)
    → IsValid s
    → move s id after before by reason ≡ ok c
    → IsValid c.0
move-IsValid s id after before by reason c v h =
    let (a, i, j, eo, ea, found, en, ej, ordered, new) =
      move-eq-ok s id after before by reason c h in
    let (item, key) = find_item-All id s.items s.next_id i found v.items in
    let left = remove_item id s.items in
    let gone : contains i.id (ids left) ≡ false = rw key (removed id s.items v.once) in
    let archived = λ (k : Text). contains k s.archived in
    rw new (record {
      cap = v.cap;
      version = v.version;
      owner = v.owner;
      next = v.next;
      items = All-insert_at i a s.next_id left item (All-remove_item id s.next_id s.items v.items);
      archived = v.archived;
      archived_once = v.archived_once;
      once = distinct-insert_at i a left gone (distinct-remove_item id s.items v.once);
      apart =
          any-insert_at i archived a left
          ∙ ground (arith, any-found archived id s.items i, any-remove_item id archived s.items);
      below = v.below;
      ordered = ordered;
      head = v.head;
      seq = v.seq;
      handoff = v.handoff;
    })

limit-cap :
    (s : State) (n : ℕ) (by reason : Text) (c : Change)
    → limit s n by reason ≡ ok c
    → (c.0 ≡ record s { max_active = some n }) × (cap_fits (some n) ≡ true)
unfolding limit
limit-cap s n by reason c h = (ground arith, ground arith)

handoff-same :
    (digest : Text → Text) (s : State) (value : Text) (c : Change)
    → handoff digest s value ≡ ok c
    → c.0 ≡ s
unfolding handoff
handoff-same digest s value c h = ground arith

limit-IsValid :
    (s : State) (n : ℕ) (by reason : Text) (c : Change)
    → IsValid s
    → limit s n by reason ≡ ok c
    → IsValid c.0
limit-IsValid s n by reason c v h =
    let (new, fits) = limit-cap s n by reason c h in
    rw new (record {
      cap = fits;
      version = v.version;
      owner = v.owner;
      next = v.next;
      items = v.items;
      archived = v.archived;
      archived_once = v.archived_once;
      once = v.once;
      apart = v.apart;
      below = v.below;
      ordered = v.ordered;
      head = v.head;
      seq = v.seq;
      handoff = v.handoff;
    })

-- An accepted command on a queue that `validate` accepts leaves one that it accepts, while the next
-- number has at most six digits.
pub perform-validate :
    (digest : Text → Text) (s : State) (r : Request) (c : Change)
    → s.next_id < 1000000
    → validate s ≡ ok tt
    → perform digest s r ≡ ok c
    → validate c.0 ≡ ok tt
unfolding perform
perform-validate digest s (Request.add title refs note deps) c small h e =
    IsValid-validate c.0 (add-IsValid s title refs note deps c small (validate-IsValid s h) e)
perform-validate digest s (Request.edit id d) c small h e =
    IsValid-validate c.0 (edit-IsValid s id d c (validate-IsValid s h) e)
perform-validate digest s (Request.move id after before by reason) c small h e =
    IsValid-validate c.0 (move-IsValid s id after before by reason c (validate-IsValid s h) e)
perform-validate digest s (Request.limit n by reason) c small h e =
    IsValid-validate c.0 (limit-IsValid s n by reason c (validate-IsValid s h) e)
perform-validate digest s (Request.handoff text) c small h e = rw (handoff-same digest s text c e) h
perform-validate digest s (Request.transition id action reason) c small h e =
    transition-validate s id action reason c h e
