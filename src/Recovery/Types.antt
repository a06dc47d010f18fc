-- ===== src/Recovery/Types.antt =====
-- tools/recovery_loop.py: classes, routes, rules, reports and decisions.
use agent_engineering_standa.Base.{Bool, List, [], ◌∷◌, Text, codes, ℤ, map}
use agent_engineering_standa.Plain.{Value}
use agent_engineering_standa.Plain.Findings.{Finding, Repair, repairs}

abbrev pub unknown : Text
unknown = codes "unknown"

-- CLASSES
abbrev pub classes : List Text
classes =
    codes "product-defect"
    ∷ codes "infra-flake"
    ∷ codes "external-dependency"
    ∷ codes "idempotency-block"
    ∷ codes "budget-exhausted"
    ∷ codes "lease-conflict"
    ∷ codes "stale-state"
    ∷ codes "policy-deny"
    ∷ codes "tool-overflow"
    ∷ codes "unknown"
    ∷ []

-- ROUTES
pub data Route : Type 0 where
  repair retry_bounded reconcile escalate recover_capsule : Route

abbrev pub route_name : Route → Text
route_name repair = codes "repair"
route_name retry_bounded = codes "retry-bounded"
route_name reconcile = codes "reconcile"
route_name escalate = codes "escalate"
route_name recover_capsule = codes "recover-capsule"

-- RULES
pub data Rule : Type 0 where
  blind_rerun non_idempotent partial_green misclassified exhausted_budget : Rule
  infra_as_product unknown_mutation unowned_lane historical_replay clean_triage : Rule

abbrev pub rule_name : Rule → Text
rule_name blind_rerun = codes "blind-rerun"
rule_name non_idempotent = codes "non-idempotent"
rule_name partial_green = codes "partial-green"
rule_name misclassified = codes "misclassified"
rule_name exhausted_budget = codes "exhausted-budget"
rule_name infra_as_product = codes "infra-as-product"
rule_name unknown_mutation = codes "unknown-mutation"
rule_name unowned_lane = codes "unowned-lane"
rule_name historical_replay = codes "historical-replay"
rule_name clean_triage = codes "clean-triage"

abbrev pub all_rules : List Rule
all_rules =
    blind_rerun ∷ non_idempotent ∷ partial_green ∷ misclassified ∷ exhausted_budget
    ∷ infra_as_product ∷ unknown_mutation ∷ unowned_lane ∷ historical_replay ∷ clean_triage ∷ []

abbrev pub rules : List Text
rules = map rule_name all_rules

-- RULE_ROUTES
unfoldable pub route_of : Rule → Route
route_of blind_rerun = repair
route_of non_idempotent = escalate
route_of partial_green = repair
route_of misclassified = reconcile
route_of exhausted_budget = escalate
route_of infra_as_product = reconcile
route_of unknown_mutation = escalate
route_of unowned_lane = escalate
route_of historical_replay = repair
route_of clean_triage = repair

-- What `_normalize_report` returns.
pub record Report : Type 0 where
  pub failure : Text
  pub filed_class : Text
  pub true_class : Text
  pub hypothesis : Text
  pub retry_proposed : Bool
  pub idempotent : Bool
  pub confirmed : Bool
  pub partially_green : Bool
  pub retries_left : ℤ
  pub owning_lane : Text
  pub evidence_preserved : Bool
  pub mutation_proposed : Bool
  pub historical_match : Bool
  pub infra_signal : Bool

-- `TriageDecision`
pub record Decision : Type 0 where
  pub failure_class : Text
  pub route : Route
  pub rule : Rule
  pub findings : List Finding

-- `validate_finding`
unfoldable pub validate_finding : Value → List Repair
validate_finding v = repairs rules v
