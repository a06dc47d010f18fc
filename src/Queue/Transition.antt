-- ===== src/Queue/Transition.antt =====
-- tools/queue_core.py, `op_transition`: start, block, unblock and done.
use agent_engineering_standa.Base.{
  Bool, true, ◌||◌, some, List, [], ◌∷◌, ◌++◌, Text, ◌=ᵗ◌, codes, take, length, ltb, ok, err,
  refuse, guard, ◌>>=◌, ◌>>◌, if◌then◌else◌, not,
}
use agent_engineering_standa.Queue.Types.{
  Status, pending, active, blocked, Item, State, Outcome, event, op_start, op_block, op_unblock,
  op_done, op_archive, text, status, whole, unknown_transition, not_pending, earlier_item, at_cap,
  unmet, already_blocked, not_blocked, never_started, ◌=ˢ◌,
}
use agent_engineering_standa.Queue.Fields.{note_limit, reason_limit, text_of}
use agent_engineering_standa.Queue.Query.{find, waiting_on, is_ready, max_active, active_items}
use agent_engineering_standa.Queue.Edit.{Change, change_item}

-- Whether an earlier item lets a later one start.
abbrev pub is_passed : List Text → Item → Bool
is_passed archived i = i.status =ˢ blocked || i.status =ˢ active || not (is_ready archived i)

-- The loop over the earlier items.
unfoldable pub check_earlier : List Text → Text → List Item → Outcome (Unit {0})
check_earlier archived id [] = ok tt
check_earlier archived id (i ∷ is) =
    let rest = check_earlier archived id is in
    if i.id =ᵗ id
    then ok tt
    else if is_passed archived i
    then rest
    else err (earlier_item id i.id i.status)

abbrev pub with_status : Status → Item → Item
with_status s i = record i { status = s }

unfoldable pub start : State → Text → Outcome Change
start state id =
    let running = length (active_items state.items) in
    do
      item ← find state id
      guard (item.status =ˢ pending) (not_pending id item.status)
      check_earlier state.archived id state.items
      guard (ltb running (max_active state)) (at_cap running (max_active state))
      guard (is_ready state.archived item) (unmet id (waiting_on state item))
      ok (
        record state { items = change_item id (with_status active) state.items },
        event op_start (some id) (status item.status) (status active) [] ∷ [],
      )

abbrev pub blocked_for : Text → Item → Item
blocked_for reason i = record i { status = blocked; note = take note_limit reason }

unfoldable pub block : State → Text → Text → Outcome Change
block state id reason = do
  item ← find state id
  r ← text_of reason reason_limit true
  refuse (item.status =ˢ blocked) (already_blocked id)
  ok (
    record state { items = change_item id (blocked_for r) state.items },
    event op_block (some id) (status item.status) (status blocked) r ∷ [],
  )

unfoldable pub unblock : State → Text → Outcome Change
unblock state id = do
  item ← find state id
  guard (item.status =ˢ blocked) (not_blocked id)
  ok (
    record state { items = change_item id (with_status pending) state.items },
    event op_unblock (some id) (status item.status) (status pending) [] ∷ [],
  )

-- `items.remove(item)`, for the item that `find` returned.
unfoldable pub remove_item : Text → List Item → List Item
remove_item id [] = []
remove_item id (i ∷ is) = let rest = remove_item id is in if i.id =ᵗ id then is else i ∷ rest

unfoldable pub done : State → Text → Text → Outcome Change
done state id reason = do
  item ← find state id
  r ← text_of reason reason_limit true
  refuse (item.status =ˢ pending) (never_started id)
  ok (
    record state { items = remove_item id state.items; archived = state.archived ++ (id ∷ []) },
    event op_done (some id) (status item.status) (text (codes "done")) r
        ∷ event op_archive (some id) (whole item) (text (codes "archived")) []
        ∷ [],
  )

unfoldable pub transition : State → Text → Text → Text → Outcome Change
transition state id action reason =
    if action =ᵗ codes "start"
    then start state id
    else if action =ᵗ codes "block"
    then block state id reason
    else if action =ᵗ codes "unblock"
    then unblock state id
    else if action =ᵗ codes "done"
    then done state id reason
    else err (unknown_transition action)
