-- ===== src/SafeParallelism/Types.antt =====
-- tools/safe_parallelism.py: verdicts, rules, proposals and the finding check.
use agent_engineering_standa.Base.{Bool, List, [], ◌∷◌, Text, codes}
use agent_engineering_standa.Plain.{Value}
use agent_engineering_standa.Plain.Findings.{Repair, repairs}
use agent_engineering_standa.Ruled
use agent_engineering_standa.Ruled.{Table}

-- VERDICTS
pub data Verdict : Type 0 where
  safe serialize refused : Verdict

abbrev pub verdict_name : Verdict → Text
verdict_name safe = codes "SAFE"
verdict_name serialize = codes "SERIALIZE"
verdict_name refused = codes "REFUSE"

-- RULES
pub data Rule : Type 0 where
  same_files shared_schema dependent_output orphan_process unpushed_work closed_unmerged : Rule
  squash_recognized cloud_workspace missing_report classifier_failed clean_parallel : Rule

abbrev pub rule_name : Rule → Text
rule_name same_files = codes "same-files"
rule_name shared_schema = codes "shared-schema"
rule_name dependent_output = codes "dependent-output"
rule_name orphan_process = codes "orphan-process"
rule_name unpushed_work = codes "unpushed-work"
rule_name closed_unmerged = codes "closed-unmerged"
rule_name squash_recognized = codes "squash-recognized"
rule_name cloud_workspace = codes "cloud-workspace"
rule_name missing_report = codes "missing-report"
rule_name classifier_failed = codes "classifier-failed"
rule_name clean_parallel = codes "clean-parallel"

abbrev pub all_rules : List Rule
all_rules =
    same_files ∷ shared_schema ∷ dependent_output ∷ orphan_process ∷ unpushed_work ∷ closed_unmerged
    ∷ squash_recognized ∷ cloud_workspace ∷ missing_report ∷ classifier_failed ∷ clean_parallel ∷ []

-- RULE_VERDICTS
abbrev pub verdict_of : Rule → Verdict
verdict_of same_files = serialize
verdict_of shared_schema = serialize
verdict_of dependent_output = serialize
verdict_of orphan_process = refused
verdict_of unpushed_work = refused
verdict_of closed_unmerged = refused
verdict_of squash_recognized = safe
verdict_of cloud_workspace = refused
verdict_of missing_report = refused
verdict_of classifier_failed = refused
verdict_of clean_parallel = safe

abbrev pub table : Table Rule Verdict
table = record {
  rule_name = rule_name;
  verdict_name = verdict_name;
  all_rules = all_rules;
  verdict_of = verdict_of;
}

-- What `_normalize_proposal` returns.
pub record Proposal : Type 0 where
  pub files_a : List Text
  pub files_b : List Text
  pub schema_shared : Bool
  pub output_needed : Bool
  pub orphaned : Bool
  pub unpushed : Bool
  pub closed : Bool
  pub squash_merged : Bool
  pub workspace : Text
  pub report_present : Bool
  pub classifier_ok : Bool
  pub leases_distinct : Bool
  pub open_pr : Bool
  pub active_writer : Bool

-- `ParallelDecision`
abbrev pub Decision : Type 0
Decision = Ruled.Decision Rule Verdict

-- `validate_finding`
unfoldable pub validate_finding : Value → List Repair
validate_finding v = repairs (Ruled.rules table) v
