-- ===== src/Legacy/Mutate.antt =====
-- tools/work_queue.py, `_mutate` and the commands of `_main_v1` that change the queue.
use agent_engineering_standa.Base.{
  ℕ, Bool, true, false, List, Text, ◌=ᵗ◌, has_part, ok, err, refuse, guard, ◌>>=◌, ◌>>◌,
}
use agent_engineering_standa.Queue.Types.{Legacy}
use agent_engineering_standa.Legacy.Items
use agent_engineering_standa.Legacy.Items.{
  Refusal, Answer, no_block, malformed, not_version_one, bad_next_id, duplicate, no_item, untitled,
  earlier_item, already_done, not_blocked, no_evidence, no_reason, unknown_transition,
  already_there, changed, Given, validate, empty_state,
}
use agent_engineering_standa.Legacy.Body.{Json, marker, parse, render}

-- What `get_issue` returns: the body and `updated_at`.
pub record Issue : Type 0 where
  pub body : Text
  pub stamp : Text

module _ (json : Json) where
  -- The state that `change` is applied to.
  unfoldable pub source : Bool → Text → Answer Legacy
  source true body = do refuse (has_part marker body) already_there; ok empty_state
  source false body = parse json body

  -- `_mutate`: the Issue as it is read first and as it is read again, and the state and the body
  -- that are written.
  unfoldable pub mutate : Bool → (Legacy → Answer Legacy) → Issue → Issue → Answer (Legacy × Text)
  mutate seed change read again = do
    old ← source seed read.body
    state ← change old
    validate state
    guard (again.stamp =ᵗ read.stamp) changed
    ok (state, render json state)

pub data Command : Type 0 where
  init : Command
  -- title, refs and note
  add : Text → List Text → Text → Command
  edit : Text → Given → Command
  -- id, action, and the evidence or reason
  transition : Text → Text → Text → Command

abbrev pub is_init : Command → Bool
is_init init = true
is_init (add title refs note) = false
is_init (edit id g) = false
is_init (transition id action reason) = false

-- The function that `_main_v1` hands to `_mutate`.
unfoldable pub commanded : Command → Legacy → Answer Legacy
commanded init s = ok s
commanded (add title refs note) s = Items.append s title refs note
commanded (edit id g) s = Items.edit s id g
commanded (transition id action reason) s = Items.transition s id action reason

unfoldable pub run : Json → Command → Issue → Issue → Answer (Legacy × Text)
run json c read again = mutate json (is_init c) (commanded c) read again

-- The exit codes of `_main_v1`.
unfoldable pub exit_code : {A : Type 0} → Answer A → ℕ
exit_code (ok a) = 0
exit_code (err no_block) = 2
exit_code (err malformed) = 2
exit_code (err not_version_one) = 2
exit_code (err bad_next_id) = 2
exit_code (err (duplicate id)) = 2
exit_code (err changed) = 4
exit_code (err e) = 1
