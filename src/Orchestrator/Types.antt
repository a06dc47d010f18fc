-- ===== src/Orchestrator/Types.antt =====
-- tools/autonomous_orchestrator.py: verdicts, rules, ticks and the finding check.
use agent_engineering_standa.Base.{Bool, ℤ, List, [], ◌∷◌, Text, codes}
use agent_engineering_standa.Plain.{Value}
use agent_engineering_standa.Plain.Findings.{Repair, repairs}
use agent_engineering_standa.Ruled
use agent_engineering_standa.Ruled.{Table}

-- VERDICTS
pub data Verdict : Type 0 where
  next_up wait recover escalate complete : Verdict

abbrev pub verdict_name : Verdict → Text
verdict_name next_up = codes "NEXT"
verdict_name wait = codes "WAIT"
verdict_name recover = codes "RECOVER"
verdict_name escalate = codes "ESCALATE"
verdict_name complete = codes "COMPLETE"

-- RULES
pub data Rule : Type 0 where
  duplicate_event crash_around double_worker stale_head no_ready_work : Rule
  owner_hold provider_down budget_exhausted deadlock_found review_finding : Rule
  merge_cleanup milestone_done clean_next : Rule

abbrev pub rule_name : Rule → Text
rule_name duplicate_event = codes "duplicate-event"
rule_name crash_around = codes "crash-around"
rule_name double_worker = codes "double-worker"
rule_name stale_head = codes "stale-head"
rule_name no_ready_work = codes "no-ready-work"
rule_name owner_hold = codes "owner-hold"
rule_name provider_down = codes "provider-down"
rule_name budget_exhausted = codes "budget-exhausted"
rule_name deadlock_found = codes "deadlock"
rule_name review_finding = codes "review-finding"
rule_name merge_cleanup = codes "merge-cleanup"
rule_name milestone_done = codes "milestone-done"
rule_name clean_next = codes "clean-next"

abbrev pub all_rules : List Rule
all_rules =
    duplicate_event ∷ crash_around ∷ double_worker ∷ stale_head ∷ no_ready_work ∷ owner_hold
    ∷ provider_down ∷ budget_exhausted ∷ deadlock_found ∷ review_finding ∷ merge_cleanup
    ∷ milestone_done ∷ clean_next ∷ []

-- RULE_VERDICTS
abbrev pub verdict_of : Rule → Verdict
verdict_of duplicate_event = wait
verdict_of crash_around = recover
verdict_of double_worker = recover
verdict_of stale_head = recover
verdict_of no_ready_work = wait
verdict_of owner_hold = escalate
verdict_of provider_down = wait
verdict_of budget_exhausted = escalate
verdict_of deadlock_found = escalate
verdict_of review_finding = next_up
verdict_of merge_cleanup = next_up
verdict_of milestone_done = complete
verdict_of clean_next = next_up

abbrev pub table : Table Rule Verdict
table = record {
  rule_name = rule_name;
  verdict_name = verdict_name;
  all_rules = all_rules;
  verdict_of = verdict_of;
}

-- What `_normalize_tick` returns.
pub record Tick : Type 0 where
  pub slice : Text
  pub milestone : Text
  pub duplicate_dispatch : Bool
  pub crashed : Bool
  pub second_worker : Bool
  pub head_moved : Bool
  pub ready_work : Bool
  pub held : Bool
  pub provider_healthy : Bool
  pub budget_left : ℤ
  pub deadlocked : Bool
  pub deadlock_cycle : Text
  pub review_repair : Bool
  pub merged_pending_cleanup : Bool
  pub milestone_complete : Bool
  pub action : Text

-- The verdict, the rule and the findings of an `OrchestratorDecision`, and its action.
pub record OrchestratorDecision : Type 0 where
  pub outcome : Ruled.Decision Rule Verdict
  pub action : Text

-- `validate_finding`
unfoldable pub validate_finding : Value → List Repair
validate_finding v = repairs (Ruled.rules table) v
