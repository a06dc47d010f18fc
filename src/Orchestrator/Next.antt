-- ===== src/Orchestrator/Next.antt =====
-- tools/autonomous_orchestrator.py: which ticks dispatch an action.
use agent_engineering_standa.Base.{◌≡◌, ◌↔◌, true, false, ◌||◌, arith}
use agent_engineering_standa.Ruled
use agent_engineering_standa.Orchestrator.Types.{next_up, Tick}
use agent_engineering_standa.Orchestrator.Decide.{none_left, decide_by, dispatched, ticked}

pub record IsDispatch (item : Tick) : Type 0 where
  pub new : item.duplicate_dispatch ≡ false
  pub uncrashed : item.crashed ≡ false
  pub single : item.second_worker ≡ false
  pub current : item.head_moved ≡ false
  pub free : item.held ≡ false
  pub healthy : item.provider_healthy ≡ true
  pub funded : none_left item.budget_left ≡ false
  pub unlocked : item.deadlocked ≡ false
  pub work :
      (item.review_repair || item.merged_pending_cleanup) ≡ false
      → (item.milestone_complete ≡ false) × (item.ready_work ≡ true)

module _ (item : Tick) where
  ticked-IsDispatch : (ticked item).outcome.verdict ≡ next_up → IsDispatch item
  unfolding ticked dispatched decide_by Ruled.decide_by
  ticked-IsDispatch h = record {
    new = ground arith;
    uncrashed = ground arith;
    single = ground arith;
    current = ground arith;
    free = ground arith;
    healthy = ground arith;
    funded = ground arith;
    unlocked = ground arith;
    work = λ n. (ground arith, ground arith);
  }

  IsDispatch-ticked : IsDispatch item → (ticked item).outcome.verdict ≡ next_up
  unfolding ticked dispatched decide_by Ruled.decide_by
  IsDispatch-ticked d = ground (arith, d.work)

  -- A tick dispatches exactly when nothing is duplicated, crashed, doubled, moved, held, unhealthy,
  -- exhausted or deadlocked, and there is a repair or a cleanup to do, or else the milestone is not
  -- complete and work is ready.
  pub ticked_iff : ((ticked item).outcome.verdict ≡ next_up) ↔ IsDispatch item
  ticked_iff = (ticked-IsDispatch, IsDispatch-ticked)
