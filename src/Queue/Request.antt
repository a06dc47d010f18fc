-- ===== src/Queue/Request.antt =====
-- tools/work_queue.py, `_run_v2`: the commands that change a queue, and the operation that each one
-- calls. `init` makes the first state.
use agent_engineering_standa.Base.{ℕ, Option, List, Text}
use agent_engineering_standa.Queue.Types.{State, Details, Outcome}
use agent_engineering_standa.Queue.Edit
use agent_engineering_standa.Queue.Edit.{Change}
use agent_engineering_standa.Queue.Transition
use agent_engineering_standa.Queue.Move

pub data Request : Type 0 where
  -- title, refs, note and depends_on
  add : Text → List Text → Text → List Text → Request
  edit : Text → Details → Request
  -- id, after, before, authorized_by and reason
  move : Text → Option Text → Option Text → Text → Text → Request
  limit : ℕ → Text → Text → Request
  handoff : Text → Request
  -- id, the name of the transition, and the evidence or reason
  transition : Text → Text → Text → Request

module _ (text_digest : Text → Text) where
  unfoldable pub perform : State → Request → Outcome Change
  perform s (add title refs note depends_on) = Edit.add s title refs note depends_on
  perform s (edit id d) = Edit.edit s id d
  perform s (move id after before by reason) = Move.move s id after before by reason
  perform s (limit n by reason) = Edit.limit s n by reason
  perform s (handoff text) = Edit.handoff text_digest s text
  perform s (transition id action reason) = Transition.transition s id action reason
