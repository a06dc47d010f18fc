-- ===== src/Queue/Start.antt =====
-- `op_transition(.., "start")` of tools/queue_core.py against `next_startable`: an item starts exactly
-- when it is the next one in the order and the cap has room.
use agent_engineering_standa.Base.{
  ◌<◌, ◌≡◌, ◌↔◌, Bool, true, false, some, List, [], ◌∷◌, Text, =ᵗ_iff, =ᵗ_refl, contains, ok,
  lt→ltb, bind-eq-ok, arith, Bool-cases, length,
}
use agent_engineering_standa.Queue.Types.{active, Item, State, ◌=ˢ◌, event, op_start, status}
use agent_engineering_standa.Queue.Fields.{distinct}
use agent_engineering_standa.Queue.Query.{
  ids, find_item, find, first, is_startable, next_startable, max_active, active_items,
}
use agent_engineering_standa.Queue.Edit.{Change, change_item}
use agent_engineering_standa.Queue.Transition.{is_passed, check_earlier, with_status, start}

startable-not_passed :
    (archived : List Text) (i : Item)
    → is_passed archived i ≡ true
    → is_startable archived i ≡ false
unfolding ◌=ˢ◌
startable-not_passed archived i h = ground arith

passed-not_startable :
    (archived : List Text) (i : Item)
    → is_startable archived i ≡ false
    → is_passed archived i ≡ true
unfolding ◌=ˢ◌
passed-not_startable archived i h = ground arith

-- A startable item with only passed items before it is the first startable one.
first_of_checked :
    (archived : List Text) (id : Text) (items : List Item) (i : Item)
    → find_item id items ≡ some i
    → check_earlier archived id items ≡ ok tt
    → is_startable archived i ≡ true
    → first (is_startable archived) items ≡ some i
unfolding find_item check_earlier first
first_of_checked archived id [] i f c s = cc
first_of_checked archived id (j ∷ js) i f c s =
    ground (arith, first_of_checked archived id js i, startable-not_passed archived j)

pub find_item-id :
    (id : Text) (items : List Item) (i : Item) → find_item id items ≡ some i → i.id ≡ id
unfolding find_item
find_item-id id [] i f = cc
find_item-id id (j ∷ js) i f = ground (arith, find_item-id id js i, =ᵗ_iff j.id id)

first-contains :
    (p : Item → Bool) (items : List Item) (i : Item)
    → first p items ≡ some i
    → contains i.id (ids items) ≡ true
unfolding first contains
first-contains p [] i f = cc
first-contains p (j ∷ js) i f =
    ground (arith, first-contains p js i, =ᵗ_iff i.id j.id, =ᵗ_refl i.id)

first-true : (p : Item → Bool) (items : List Item) (i : Item) → first p items ≡ some i → p i ≡ true
unfolding first
first-true p [] i f = cc
first-true p (j ∷ js) i f = ground (arith, first-true p js i)

-- Under distinct ids the first startable item is found by its id, past passed items only.
checked_of_first :
    (archived : List Text) (items : List Item) (i : Item)
    → distinct (ids items) ≡ true
    → first (is_startable archived) items ≡ some i
    → (find_item i.id items ≡ some i) × (check_earlier archived i.id items ≡ ok tt)
unfolding find_item check_earlier first distinct
checked_of_first archived [] i d f = cc
checked_of_first archived (j ∷ js) i d f = ground (
  arith,
  checked_of_first archived js i,
  passed-not_startable archived j,
  first-contains (is_startable archived) js i,
  =ᵗ_iff j.id i.id,
  =ᵗ_refl i.id,
)

find-eq-ok :
    (state : State) (id : Text) (i : Item)
    → find state id ≡ ok i
    → find_item id state.items ≡ some i
unfolding find
find-eq-ok state id i h = ground (arith, Bool-cases (contains id state.archived))

-- The guards of `start`.
pub start-eq-ok :
    (state : State) (id : Text) (c : Change)
    → start state id ≡ ok c
    → (i : Item) × (find_item id state.items ≡ some i)
      × (check_earlier state.archived id state.items ≡ ok tt)
      × (is_startable state.archived i ≡ true)
      × (length (active_items state.items) < max_active state)
      × (c.0 ≡ record state { items = change_item id (with_status active) state.items })
unfolding start
start-eq-ok state id c h =
    let (i, found, rest) = bind-eq-ok (find state id) _ h in
    (i, find-eq-ok state id i found, ground arith, ground arith, ground arith, ground arith)

find-of_found :
    (state : State) (id : Text) (i : Item)
    → find_item id state.items ≡ some i
    → find state id ≡ ok i
unfolding find
find-of_found state id i f = rw f (ground (arith, Bool-cases (contains id state.archived)))

abbrev pub started : State → Item → Change
started state i = (
  record state { items = change_item i.id (with_status active) state.items },
  event op_start (some i.id) (status i.status) (status active) [] ∷ [],
)

pub start_next :
    (state : State) (i : Item)
    → distinct (ids state.items) ≡ true
    → next_startable state ≡ some i
    → length (active_items state.items) < max_active state
    → start state i.id ≡ ok (started state i)
unfolding start next_startable
start_next state i d next room =
    let (found, passed) = checked_of_first state.archived state.items i d next in
    let here = first-true (is_startable state.archived) state.items i next in
    rw (find-of_found state i.id i found, passed, lt→ltb _ _ room) (ground arith)

-- An item starts exactly when it is the first pending item whose dependencies are done and fewer
-- items are active than the cap allows, in a queue whose ids are distinct.
pub start_iff :
    (state : State) (id : Text)
    → distinct (ids state.items) ≡ true
    → ((c : Change) × (start state id ≡ ok c)) ↔ (
        (i : Item) × (next_startable state ≡ some i)
        × (i.id ≡ id)
        × (length (active_items state.items) < max_active state))
start_iff state id d = (
  λ (c, h).
      let (i, found, passed, here, room, new) = start-eq-ok state id c h in
      (
        i,
        unfold next_startable in first_of_checked state.archived id state.items i found passed here,
        find_item-id id state.items i found,
        room,
      ),
  λ (i, next, same, room). (started state i, rw (← same) (start_next state i d next room)),
)
