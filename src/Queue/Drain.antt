-- ===== src/Queue/Drain.antt =====
-- tools/queue_core.py: a queue of pending items can be worked to its end, in its order.
use agent_engineering_standa.Base.{◌≡◌, Bool, List, [], ◌∷◌, Text, codes, ok, all, some}
use agent_engineering_standa.Queue.Types.{
  pending, active, Item, State, Draft, ◌=ˢ◌, event, op_done, op_archive, text, status, whole,
}
use agent_engineering_standa.Queue.Edit.{Change}
use agent_engineering_standa.Queue.Transition.{with_status, transition}

-- Accepted transitions, one after the other.
pub data Runs : State → State → Type 0 where
  finished : (s : State) → Runs s s
  ran :
      (s : State) (id action reason : Text) (c : Change) (t : State)
      → transition s id action reason ≡ ok c
      → Runs c.0 t
      → Runs s t

abbrev pub all_pending : List Item → Bool
all_pending = all (λ i. i.status =ˢ pending)

abbrev queue_of : State → List Item → List Text → State
queue_of s items archived = record s { items = items; archived = archived }

module _ (s : State) (i : Item) (is : List Item) (archived : List Text) where
  abbrev queue : State
  queue = queue_of s (i ∷ is) archived

  abbrev working : State
  working = queue_of s (with_status active i ∷ is) archived

  archived_draft : Text → List Draft
  archived_draft r =
      event op_done (some i.id) (status active) (text (codes "done")) r
      ∷ event op_archive (some i.id) (whole (with_status active i)) (text (codes "archived")) []
      ∷ []
