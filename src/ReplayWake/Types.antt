-- ===== src/ReplayWake/Types.antt =====
-- tools/replay_wake.py: verdicts, rules, observations and the finding check.
use agent_engineering_standa.Base.{Bool, List, [], ◌∷◌, Text, codes}
use agent_engineering_standa.Plain.{Value, Values}
use agent_engineering_standa.Plain.Findings.{Repair, repairs}
use agent_engineering_standa.Ruled
use agent_engineering_standa.Ruled.{Table}

-- VERDICTS
pub data Verdict : Type 0 where
  clean_resume recheckpoint reconcile_head reconcile_state github_gone merged : Verdict

abbrev pub verdict_name : Verdict → Text
verdict_name clean_resume = codes "CLEAN_RESUME"
verdict_name recheckpoint = codes "RECHECKPOINT"
verdict_name reconcile_head = codes "RECONCILE_HEAD"
verdict_name reconcile_state = codes "RECONCILE_STATE"
verdict_name github_gone = codes "GITHUB_DOWN"
verdict_name merged = codes "MERGED_DONE"

-- RULES
pub data Rule : Type 0 where
  github_down merged_done moved_head missing_commit interrupted_phase : Rule
  incomplete_check stale_capsule corrupt_snapshot provider_change duplicate_event : Rule
  clean : Rule

abbrev pub rule_name : Rule → Text
rule_name github_down = codes "github-down"
rule_name merged_done = codes "merged-done"
rule_name moved_head = codes "moved-head"
rule_name missing_commit = codes "missing-commit"
rule_name interrupted_phase = codes "interrupted-phase"
rule_name incomplete_check = codes "incomplete-check"
rule_name stale_capsule = codes "stale-capsule"
rule_name corrupt_snapshot = codes "corrupt-snapshot"
rule_name provider_change = codes "provider-change"
rule_name duplicate_event = codes "duplicate-event"
rule_name clean = codes "clean"

abbrev pub all_rules : List Rule
all_rules =
    github_down ∷ merged_done ∷ moved_head ∷ missing_commit ∷ interrupted_phase ∷ incomplete_check
    ∷ stale_capsule ∷ corrupt_snapshot ∷ provider_change ∷ duplicate_event ∷ clean ∷ []

-- RULE_VERDICTS
abbrev pub verdict_of : Rule → Verdict
verdict_of github_down = github_gone
verdict_of merged_done = merged
verdict_of moved_head = reconcile_head
verdict_of missing_commit = reconcile_head
verdict_of interrupted_phase = recheckpoint
verdict_of incomplete_check = recheckpoint
verdict_of stale_capsule = reconcile_state
verdict_of corrupt_snapshot = reconcile_state
verdict_of provider_change = reconcile_state
verdict_of duplicate_event = reconcile_state
verdict_of clean = clean_resume

abbrev pub table : Table Rule Verdict
table = record {
  rule_name = rule_name;
  verdict_name = verdict_name;
  all_rules = all_rules;
  verdict_of = verdict_of;
}

-- _NEXT_ACTIONS
abbrev pub next_action_of : Verdict → Text
next_action_of clean_resume = codes "resume the recorded next action"
next_action_of recheckpoint = codes "re-checkpoint before resuming"
next_action_of reconcile_head = codes "reconcile the head before any mutation"
next_action_of reconcile_state = codes "reconcile state before any mutation"
next_action_of github_gone = codes "local read-only work only"
next_action_of merged = codes "reconcile and close out"

-- What `_normalize_observation` returns.
pub record Observation : Type 0 where
  pub issue : Text
  pub branch : Text
  pub journal : Values
  pub recorded_head : Text
  pub live_head : Text
  pub commit_present : Bool
  pub phase_complete : Bool
  pub checkpoint_state : Text
  pub capsule_head : Text
  pub journal_head : Text
  pub snapshot_ok : Bool
  pub builder_family : Text
  pub recorded_family : Text
  pub github_reachable : Bool
  pub pr_merged : Bool
  pub duplicate_conflict : Bool

-- The verdict, the rule and the findings of a `WakeDecision`, and its next action.
pub record WakeDecision : Type 0 where
  pub outcome : Ruled.Decision Rule Verdict
  pub next_action : Text

-- `validate_finding`
unfoldable pub validate_finding : Value → List Repair
validate_finding v = repairs (Ruled.rules table) v
