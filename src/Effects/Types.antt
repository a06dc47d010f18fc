-- ===== src/Effects/Types.antt =====
-- tools/idempotent_effects.py: attempts, verdicts, rules and decisions.
use agent_engineering_standa.Base.{Bool, List, [], ◌∷◌, Text, codes, ℤ, map}
use agent_engineering_standa.Plain.{Value}
use agent_engineering_standa.Plain.Findings.{Finding, Repair, repairs}

-- VERDICTS
pub data Verdict : Type 0 where
  execute replay refused : Verdict

abbrev pub verdict_name : Verdict → Text
verdict_name execute = codes "EXECUTE"
verdict_name replay = codes "REPLAY"
verdict_name refused = codes "REFUSE"

-- RULES
pub data Rule : Type 0 where
  recorded_result conflicting_reuse changed_argument mutated_result stale_head : Rule
  destructive_action duplicate_webhook crash_after_remote missing_dedupe : Rule

abbrev pub rule_name : Rule → Text
rule_name recorded_result = codes "recorded-result"
rule_name conflicting_reuse = codes "conflicting-reuse"
rule_name changed_argument = codes "changed-argument"
rule_name mutated_result = codes "mutated-result"
rule_name stale_head = codes "stale-head"
rule_name destructive_action = codes "destructive-action"
rule_name duplicate_webhook = codes "duplicate-webhook"
rule_name crash_after_remote = codes "crash-after-remote"
rule_name missing_dedupe = codes "missing-dedupe"

abbrev pub rules : List Text
rules = map rule_name (
    recorded_result ∷ conflicting_reuse ∷ changed_argument ∷ mutated_result ∷ stale_head
    ∷ destructive_action ∷ duplicate_webhook ∷ crash_after_remote ∷ missing_dedupe ∷ [])

-- DESTRUCTIVE_OPS
abbrev pub destructive_ops : List Text
destructive_ops =
    codes "deploy" ∷ codes "delete" ∷ codes "email-send" ∷ codes "merge" ∷ codes "payment" ∷ []

-- DEDUPE_OPS
abbrev pub dedupe_ops : List Text
dedupe_ops = codes "comment-upsert" ∷ codes "dispatch" ∷ []

-- What `_normalize_attempt` returns.
pub record Attempt : Type 0 where
  pub tool : Text
  pub operation : Text
  pub args : Value
  pub head : Text
  pub guard_head : Text
  pub generation : ℤ
  pub fingerprint : Text
  pub recorded_fingerprint : Text
  pub recorded_result : Value
  pub has_recorded_result : Bool
  pub recorded_payload : Value
  pub payload : Value
  pub guard_args : Value
  pub result_mutated : Bool
  pub confirmed : Bool
  pub duplicate_delivery : Bool
  pub crashed_after_remote : Bool
  pub dedupe_key : Text

-- `EffectDecision`
pub record Decision : Type 0 where
  pub verdict : Verdict
  pub rule : Rule
  pub findings : List Finding

-- `validate_finding`
unfoldable pub validate_finding : Value → List Repair
validate_finding v = repairs rules v
