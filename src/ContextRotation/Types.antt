-- ===== src/ContextRotation/Types.antt =====
-- tools/context_rotation.py: verdicts, rules, signals and the finding check.
use agent_engineering_standa.Base.{Bool, List, [], ◌∷◌, Text, codes}
use agent_engineering_standa.Plain.{Value, Values}
use agent_engineering_standa.Plain.Findings.{Repair, repairs}
use agent_engineering_standa.Ruled
use agent_engineering_standa.Ruled.{Table}

-- VERDICTS
pub data Verdict : Type 0 where
  rotate hold freeze recover : Verdict

abbrev pub verdict_name : Verdict → Text
verdict_name rotate = codes "ROTATE"
verdict_name hold = codes "HOLD"
verdict_name freeze = codes "FREEZE"
verdict_name recover = codes "RECOVER"

-- RULES
pub data Rule : Type 0 where
  compacted polluted_history read_only_bound boundary_due imminent_compact : Rule
  overflow_output missing_checkpoint provider_switch canary_missing clean_rotate : Rule

abbrev pub rule_name : Rule → Text
rule_name compacted = codes "compacted"
rule_name polluted_history = codes "polluted"
rule_name read_only_bound = codes "read-only-bound"
rule_name boundary_due = codes "boundary-due"
rule_name imminent_compact = codes "imminent-compact"
rule_name overflow_output = codes "overflow-output"
rule_name missing_checkpoint = codes "missing-checkpoint"
rule_name provider_switch = codes "provider-switch"
rule_name canary_missing = codes "canary-missing"
rule_name clean_rotate = codes "clean-rotate"

abbrev pub all_rules : List Rule
all_rules =
    compacted ∷ polluted_history ∷ read_only_bound ∷ boundary_due ∷ imminent_compact
    ∷ overflow_output ∷ missing_checkpoint ∷ provider_switch ∷ canary_missing ∷ clean_rotate ∷ []

-- RULE_VERDICTS
abbrev pub verdict_of : Rule → Verdict
verdict_of compacted = freeze
verdict_of polluted_history = recover
verdict_of read_only_bound = rotate
verdict_of boundary_due = rotate
verdict_of imminent_compact = rotate
verdict_of overflow_output = rotate
verdict_of missing_checkpoint = hold
verdict_of provider_switch = rotate
verdict_of canary_missing = hold
verdict_of clean_rotate = rotate

abbrev pub table : Table Rule Verdict
table = record {
  rule_name = rule_name;
  verdict_name = verdict_name;
  all_rules = all_rules;
  verdict_of = verdict_of;
}

-- What `_normalize_signal` returns.
pub record Signal : Type 0 where
  pub transition : Text
  pub footprint_status : Text
  pub boundary : Bool
  pub compaction_imminent : Bool
  pub compaction_done : Bool
  pub polluted : Bool
  pub tool_overflow : Bool
  pub checkpointed : Bool
  pub provider_switched : Bool
  pub canaries_passed : Bool
  pub automatic : Bool
  pub steps_done : Values

-- `RotationDecision`
abbrev pub Decision : Type 0
Decision = Ruled.Decision Rule Verdict

-- `validate_finding`
unfoldable pub validate_finding : Value → List Repair
validate_finding v = repairs (Ruled.rules table) v
