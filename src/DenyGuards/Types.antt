-- ===== src/DenyGuards/Types.antt =====
-- tools/deny_guards.py: verdicts, rules, requests and the finding check.
use agent_engineering_standa.Base.{Bool, List, [], ◌∷◌, Text, codes}
use agent_engineering_standa.Plain.{Value}
use agent_engineering_standa.Plain.Findings.{Repair, repairs}
use agent_engineering_standa.Ruled
use agent_engineering_standa.Ruled.{Table}

-- VERDICTS
pub data Verdict : Type 0 where
  allow deny no_op : Verdict

abbrev pub verdict_name : Verdict → Text
verdict_name allow = codes "ALLOW"
verdict_name deny = codes "DENY"
verdict_name no_op = codes "NO_OP"

-- RULES
pub data Rule : Type 0 where
  later_allow hook_bug self_weaken base_disagreement owner_replacement : Rule
  adapter_gap protected_path ordinary_allow : Rule

abbrev pub rule_name : Rule → Text
rule_name later_allow = codes "later-allow"
rule_name hook_bug = codes "hook-bug"
rule_name self_weaken = codes "self-weaken"
rule_name base_disagreement = codes "base-disagreement"
rule_name owner_replacement = codes "owner-replacement"
rule_name adapter_gap = codes "adapter-gap"
rule_name protected_path = codes "protected-path"
rule_name ordinary_allow = codes "ordinary-allow"

abbrev pub all_rules : List Rule
all_rules =
    later_allow ∷ hook_bug ∷ self_weaken ∷ base_disagreement ∷ owner_replacement ∷ adapter_gap
    ∷ protected_path ∷ ordinary_allow ∷ []

-- RULE_VERDICTS
abbrev pub verdict_of : Rule → Verdict
verdict_of later_allow = deny
verdict_of hook_bug = deny
verdict_of self_weaken = deny
verdict_of base_disagreement = deny
verdict_of owner_replacement = allow
verdict_of adapter_gap = no_op
verdict_of protected_path = deny
verdict_of ordinary_allow = allow

abbrev pub table : Table Rule Verdict
table = record {
  rule_name = rule_name;
  verdict_name = verdict_name;
  all_rules = all_rules;
  verdict_of = verdict_of;
}

-- LAYERS
abbrev pub all_layers : List Text
all_layers =
    codes "admin"
    ∷ codes "trusted"
    ∷ codes "standard"
    ∷ codes "repo"
    ∷ codes "phase-role"
    ∷ codes "task"
    ∷ codes "dynamic"
    ∷ []

-- What `_normalize_request` returns: `layers` has a verdict for each layer, in the order of LAYERS.
pub record Request : Type 0 where
  pub action : Text
  pub path : Text
  pub layers : List (Text × Text)
  pub hook_error : Bool
  pub weakens_policy : Bool
  pub base_policy : Text
  pub pr_policy : Text
  pub owner : Text
  pub owner_fresh : Bool
  pub adapter_enforces : Bool
  pub protected : Bool
  pub owner_approved : Bool
  pub harmless : Bool

-- `GuardDecision`
abbrev pub Decision : Type 0
Decision = Ruled.Decision Rule Verdict

-- `validate_finding`
unfoldable pub validate_finding : Value → List Repair
validate_finding v = repairs (Ruled.rules table) v
