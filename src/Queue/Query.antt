-- ===== src/Queue/Query.antt =====
-- tools/queue_core.py, the queries: `find`, `waiting_on`, `next_item`, `max_active`,
-- `active_items`, `next_startable`, `upcoming` and `history`.
use agent_engineering_standa.Base.{
  ℕ, Bool, true, false, ◌&&◌, ◌||◌, Option, none, some, List, [], ◌∷◌, map, Text, ◌=ᵗ◌, contains,
  select, length, ltb, ok, err, if◌then◌else◌, not,
}
use agent_engineering_standa.Queue.Types.{
  pending, active, Item, State, Event, Outcome, archived_item, no_item, ◌=ˢ◌,
}

abbrev pub ids : List Item → List Text
ids = map (λ i. i.id)

-- The item with an id; the ids of a valid queue are distinct.
unfoldable pub find_item : Text → List Item → Option Item
find_item id [] = none
find_item id (i ∷ is) = if i.id =ᵗ id then some i else find_item id is

abbrev found : Bool → Text → Option Item → Outcome Item
found gone id (some i) = ok i
found true id none = err (archived_item id)
found false id none = err (no_item id)

unfoldable pub find : State → Text → Outcome Item
find state id = found (contains id state.archived) id (find_item id state.items)

-- `waiting_on`, over the archived ids.
unfoldable pub unmet_deps : List Text → List Text → List Text
unfolding contains
unmet_deps archived = select (λ d. not (contains d archived))

abbrev pub waiting_on : State → Item → List Text
waiting_on state item = unmet_deps state.archived item.depends_on

abbrev is_nil : List Text → Bool
is_nil [] = true
is_nil (x ∷ xs) = false

unfoldable pub is_ready : List Text → Item → Bool
unfolding unmet_deps
is_ready archived item = is_nil (unmet_deps archived item.depends_on)

-- The first item that meets a test.
unfoldable pub first : (Item → Bool) → List Item → Option Item
first p [] = none
first p (i ∷ is) = if p i then some i else first p is

unfoldable pub next_item : State → Option Item
next_item state =
    first (λ i. (i.status =ˢ pending || i.status =ˢ active) && is_ready state.archived i)
      state.items

unfoldable pub max_active : State → ℕ
max_active state = elim state.max_active [ none ↦ 1 | some n ↦ n ]

abbrev pub is_active : Item → Bool
is_active i = i.status =ˢ active

unfoldable pub active_items : List Item → List Item
unfolding ◌=ˢ◌
active_items = select is_active

abbrev pub is_startable : List Text → Item → Bool
is_startable archived i = i.status =ˢ pending && is_ready archived i

unfoldable pub next_startable : State → Option Item
next_startable state = first (is_startable state.archived) state.items

abbrev or_else : Option Item → Option Item → Option Item
or_else none y = y
or_else (some x) y = some x

unfoldable pub upcoming : State → Option Item
upcoming state =
    if ltb 1 (max_active state) && ltb (length (active_items state.items)) (max_active state)
    then or_else (next_startable state) (next_item state)
    else next_item state

abbrev names : Text → Option Text → Bool
names id none = false
names id (some j) = j =ᵗ id

-- `history`
unfoldable pub events_about : Option Text → List Event → List Event
events_about none events = events
events_about (some id) events = select (λ e. names id e.body.draft.item) events
