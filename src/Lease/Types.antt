-- ===== src/Lease/Types.antt =====
-- tools/writer_lease.py: operations, verdicts, rules and decisions.
use agent_engineering_standa.Base.{
  Bool, Option, none, some, List, [], ◌∷◌, Text, codes, ◌=ᵗ◌, ℤ, if◌then◌else◌, map,
}
use agent_engineering_standa.Plain.{Value, Fields}
use agent_engineering_standa.Plain.Findings.{Finding, Repair, repairs}

-- OPERATIONS
pub data Op : Type 0 where
  acquire heartbeat transfer release write reconcile owner_recover : Op

abbrev pub op_name : Op → Text
op_name acquire = codes "acquire"
op_name heartbeat = codes "heartbeat"
op_name transfer = codes "transfer"
op_name release = codes "release"
op_name write = codes "write"
op_name reconcile = codes "reconcile"
op_name owner_recover = codes "owner-recover"

abbrev pub operations : List Op
operations = acquire ∷ heartbeat ∷ transfer ∷ release ∷ write ∷ reconcile ∷ owner_recover ∷ []

named : Text → List Op → Option Op
named name [] = none
named name (op ∷ ops) = let rest = named name ops in if op_name op =ᵗ name then some op else rest

-- The operation of a name; `none` if it is not one of OPERATIONS.
unfoldable pub op_of : Text → Option Op
unfolding named
op_of name = named name operations

-- VERDICTS
pub data Verdict : Type 0 where
  granted refused recovering released : Verdict

-- RULES
pub data Rule : Type 0 where
  concurrent_claim stale_generation expired_lease late_heartbeat provider_transfer : Rule
  workspace_lost partition_split process_dead owner_recovery clean_release no_lease : Rule

abbrev pub rule_name : Rule → Text
rule_name concurrent_claim = codes "concurrent-claim"
rule_name stale_generation = codes "stale-generation"
rule_name expired_lease = codes "expired-lease"
rule_name late_heartbeat = codes "late-heartbeat"
rule_name provider_transfer = codes "provider-transfer"
rule_name workspace_lost = codes "workspace-lost"
rule_name partition_split = codes "partition-split"
rule_name process_dead = codes "process-dead"
rule_name owner_recovery = codes "owner-recovery"
rule_name clean_release = codes "clean-release"
rule_name no_lease = codes "no-lease"

abbrev pub all_rules : List Rule
all_rules =
    concurrent_claim ∷ stale_generation ∷ expired_lease ∷ late_heartbeat ∷ provider_transfer
    ∷ workspace_lost ∷ partition_split ∷ process_dead ∷ owner_recovery ∷ clean_release ∷ no_lease
    ∷ []

abbrev pub rules : List Text
rules = map rule_name all_rules

-- `validate_finding`
unfoldable pub validate_finding : Value → List Repair
unfolding repairs
validate_finding v = repairs rules v

-- What `_normalize_operation` returns.
pub record Operation : Type 0 where
  pub op : Text
  pub agent : Text
  pub slice : Text
  pub lease : Fields
  pub generation : ℤ
  pub ticks_since_heartbeat : ℤ
  pub holder_alive : Bool
  pub provider : Text
  pub transfer_to : Text
  pub transfer_provider : Text
  pub workspace_present : Bool
  pub partitioned : Bool
  pub owner : Text
  pub read_only : Bool

-- `LeaseDecision`
pub record Decision : Type 0 where
  pub verdict : Verdict
  pub rule : Rule
  pub findings : List Finding
