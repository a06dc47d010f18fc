-- ===== src/Tests/Effects.antt =====
-- Runs of the effect decisions, and witnesses for the theorems on them.
use agent_engineering_standa.Base.{◌≡◌, ◌↔◌, refl, false, [], codes, ok, All, pos, ◌=ᵗ◌}
use agent_engineering_standa.Plain.{
  null, str, dict, bare, field, get_or, fields_of, show_or_empty, int_or_zero,
}
use agent_engineering_standa.Plain.Findings.{plain}
use agent_engineering_standa.Effects.Types.{Attempt, execute, validate_finding}
use agent_engineering_standa.Effects.Decide.{normalize, decision, decide}
use agent_engineering_standa.Effects.Executed.{IsFirst, execute_iff}
use agent_engineering_standa.Effects.Reported.{effect_findings}
use agent_engineering_standa.Tests.Leases.{python}

abbrev deploy : Attempt
deploy = record {
  tool = codes "shell";
  operation = codes "deploy";
  args = dict bare;
  head = [];
  guard_head = [];
  generation = pos 0;
  fingerprint = [];
  recorded_fingerprint = [];
  recorded_result = null;
  has_recorded_result = false;
  recorded_payload = null;
  payload = null;
  guard_args = null;
  result_mutated = false;
  confirmed = false;
  duplicate_delivery = false;
  crashed_after_remote = false;
  dedupe_key = [];
}

execute_iff_example : ((decision python deploy).verdict ≡ execute) ↔ IsFirst python deploy
execute_iff_example = execute_iff python deploy

deploy_decided :
    decide python (
      dict (
        field
          (codes "tool")
          (str (codes "shell"))
          (field (codes "operation") (str (codes "deploy")) bare)))
    ≡ ok (decision python deploy)
unfolding decide normalize int_or_zero get_or fields_of ◌=ᵗ◌ show_or_empty
deploy_decided = refl

effect_findings_example :
    All (λ f. validate_finding (plain f) ≡ []) (decision python deploy).findings
    × (((decision python deploy).verdict ≡ execute) ↔ ((decision python deploy).findings ≡ []))
effect_findings_example = effect_findings python _ (decision python deploy) deploy_decided
