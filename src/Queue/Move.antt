-- ===== src/Queue/Move.antt =====
-- tools/queue_core.py, `op_move`: the only reorder.
use agent_engineering_standa.Base.{
  true, Option, none, some, List, [], ◌∷◌, Text, ◌=ᵗ◌, ok, err, refuse, guard, ◌>>=◌, ◌>>◌,
  if◌then◌else◌,
}
use agent_engineering_standa.Queue.Types.{
  Item, State, Outcome, event, op_move, place, placed, not_owner, one_anchor, self_anchor,
  no_effect, move_breaks_deps,
}
use agent_engineering_standa.Queue.Fields.{reason_limit, text_of}
use agent_engineering_standa.Queue.Query.{ids, find}
use agent_engineering_standa.Queue.Validate.{deps_in_order}
use agent_engineering_standa.Queue.Edit.{Change, ◌=ᵗˢ◌}
use agent_engineering_standa.Queue.Transition.{remove_item}

-- Where the item goes: exactly one of `--after` and `--before`.
pub data Anchor : Type 0 where
  after_item before_item : Text → Anchor

abbrev pub anchor_id : Anchor → Text
anchor_id (after_item a) = a
anchor_id (before_item a) = a

unfoldable pub anchor_of : Option Text → Option Text → Outcome Anchor
anchor_of (some a) none = ok (after_item a)
anchor_of none (some b) = ok (before_item b)
anchor_of _ _ = err one_anchor

-- `items.insert(index + 1 if after is not None else index, item)`
unfoldable pub insert_at : Anchor → Item → List Item → List Item
insert_at anchor item [] = item ∷ []
insert_at (after_item a) item (i ∷ is) =
    let rest = insert_at (after_item a) item is in if i.id =ᵗ a then i ∷ item ∷ is else i ∷ rest
insert_at (before_item a) item (i ∷ is) =
    let rest = insert_at (before_item a) item is in if i.id =ᵗ a then item ∷ i ∷ is else i ∷ rest

-- `order[order.index(id) - 1] if order.index(id) else None`, after the id `previous`.
unfoldable pub predecessor : Option Text → Text → List Text → Option Text
predecessor previous id [] = none
predecessor previous id (j ∷ js) =
    let rest = predecessor (some j) id js in if j =ᵗ id then previous else rest

-- `op_move`, once the items are in their new order.
unfoldable pub moved : State → Text → List Item → Text → Text → Outcome Change
moved state id items authorized_by reason = do
  refuse (ids items =ᵗˢ ids state.items) (no_effect id)
  guard (deps_in_order state.archived items) (move_breaks_deps id)
  ok (
    record state { items = items },
    event op_move (some id) (place (predecessor none id (ids state.items)))
          (placed (predecessor none id (ids items)) authorized_by) reason
        ∷ [],
  )

unfoldable pub move : State → Text → Option Text → Option Text → Text → Text → Outcome Change
move state id after before authorized_by reason = do
  guard (authorized_by =ᵗ state.owner) not_owner
  r ← text_of reason reason_limit true
  anchor ← anchor_of after before
  item ← find state id
  refuse (anchor_id anchor =ᵗ id) (self_anchor id)
  other ← find state (anchor_id anchor)
  moved state id (insert_at anchor item (remove_item id state.items)) authorized_by r
