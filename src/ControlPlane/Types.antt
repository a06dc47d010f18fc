-- ===== src/ControlPlane/Types.antt =====
-- tools/control_plane.py: verdicts, rules, observations and the finding check.
use agent_engineering_standa.Base.{Bool, List, [], ◌∷◌, Text, codes}
use agent_engineering_standa.Plain.{Value, Fields}
use agent_engineering_standa.Plain.Findings.{Repair, repairs}
use agent_engineering_standa.Ruled
use agent_engineering_standa.Ruled.{Table}

-- VERDICTS
pub data Verdict : Type 0 where
  arm hold refused : Verdict

abbrev pub verdict_name : Verdict → Text
verdict_name arm = codes "ARM"
verdict_name hold = codes "HOLD"
verdict_name refused = codes "REFUSE"

-- RULES
pub data Rule : Type 0 where
  missing_lane duplicate_lane skipped_lane neutral_lane cancelled_lane : Rule
  stale_lane path_filter unsafe_target floating_pin excess_permission : Rule
  head_moved missing_evidence policy_fail merge_conflict draft_hold : Rule
  rearm clean_arm : Rule

abbrev pub rule_name : Rule → Text
rule_name missing_lane = codes "missing-lane"
rule_name duplicate_lane = codes "duplicate-lane"
rule_name skipped_lane = codes "skipped-lane"
rule_name neutral_lane = codes "neutral-lane"
rule_name cancelled_lane = codes "cancelled-lane"
rule_name stale_lane = codes "stale-lane"
rule_name path_filter = codes "path-filter"
rule_name unsafe_target = codes "unsafe-target"
rule_name floating_pin = codes "floating-pin"
rule_name excess_permission = codes "excess-permission"
rule_name head_moved = codes "head-moved"
rule_name missing_evidence = codes "missing-evidence"
rule_name policy_fail = codes "policy-fail"
rule_name merge_conflict = codes "merge-conflict"
rule_name draft_hold = codes "draft-hold"
rule_name rearm = codes "rearm"
rule_name clean_arm = codes "clean-arm"

abbrev pub all_rules : List Rule
all_rules =
    missing_lane ∷ duplicate_lane ∷ skipped_lane ∷ neutral_lane ∷ cancelled_lane ∷ stale_lane
    ∷ path_filter ∷ unsafe_target ∷ floating_pin ∷ excess_permission ∷ head_moved ∷ missing_evidence
    ∷ policy_fail ∷ merge_conflict ∷ draft_hold ∷ rearm ∷ clean_arm ∷ []

-- RULE_VERDICTS
abbrev pub verdict_of : Rule → Verdict
verdict_of missing_lane = refused
verdict_of duplicate_lane = refused
verdict_of skipped_lane = refused
verdict_of neutral_lane = refused
verdict_of cancelled_lane = refused
verdict_of stale_lane = refused
verdict_of path_filter = refused
verdict_of unsafe_target = refused
verdict_of floating_pin = refused
verdict_of excess_permission = refused
verdict_of head_moved = refused
verdict_of missing_evidence = refused
verdict_of policy_fail = refused
verdict_of merge_conflict = hold
verdict_of draft_hold = hold
verdict_of rearm = hold
verdict_of clean_arm = arm

abbrev pub table : Table Rule Verdict
table = record {
  rule_name = rule_name;
  verdict_name = verdict_name;
  all_rules = all_rules;
  verdict_of = verdict_of;
}

-- What `_normalize_observation` returns.
pub record Observation : Type 0 where
  pub pr : Text
  pub profile : Text
  pub lanes : List Text
  pub required : List Text
  pub conclusions : Fields
  pub tested_head : Text
  pub live_head : Text
  pub path_filtered : Bool
  pub target_unsafe : Bool
  pub pins_floating : Bool
  pub permission_excess : Bool
  pub evidence_complete : Bool
  pub policy_ok : Bool
  pub conflicted : Bool
  pub draft : Bool
  pub draft_allowed : Bool
  pub owner_hold : Bool
  pub needs_rearm : Bool
  pub expected_oid : Text
  pub armed_oid : Text

-- `ControlDecision`
abbrev pub Decision : Type 0
Decision = Ruled.Decision Rule Verdict

-- `validate_finding`
unfoldable pub validate_finding : Value → List Repair
validate_finding v = repairs (Ruled.rules table) v
