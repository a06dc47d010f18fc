-- ===== src/Lease/Decide.antt =====
-- tools/writer_lease.py: `_normalize_operation`, `_excerpt` and `decide`, in the order of its tests.
use agent_engineering_standa.Base.{
  Bool, true, false, ◌&&◌, not, none, some, [], ◌∷◌, ◌++◌, Text, codes, ◌=ᵗ◌, strip, take, Result,
  ok, ◌>>=◌, ℤ, pos, ltℤ, sameℤ, if◌then◌else◌,
}
use agent_engineering_standa.Plain.{
  Value, flag, str, Python, Raised, get, get_or, truthy, fields_of, value_is, show, show_or_empty,
  int_or_zero,
}
use agent_engineering_standa.Plain.Findings.{Finding}
use agent_engineering_standa.Lease.Types.{
  Op, acquire, heartbeat, transfer, release, owner_recover, op_of, Verdict, granted, refused,
  recovering, released, Rule, concurrent_claim, stale_generation, expired_lease, late_heartbeat,
  provider_transfer, workspace_lost, partition_split, process_dead, owner_recovery, clean_release,
  no_lease, rule_name, Operation, Decision,
}
use agent_engineering_standa.Lease.Messages.{
  unknown_operation, owner_released, owner_needed, already_leased, none_held, superseded, behind,
  past_deadline, provider_moved_text, workspace_gone, split, dead, no_recipient, not_holder,
  released_text,
}

abbrev pub owner_login : Text
owner_login = codes "kgsmith19"

abbrev pub heartbeat_deadline : ℤ
heartbeat_deadline = pos 3

abbrev major : Text
major = codes "major"

abbrev minor : Text
minor = codes "minor"

abbrev blocker : Text
blocker = codes "blocker"

-- `_make_finding`
unfoldable pub make_finding : Rule → Text → Text → Text → Finding
make_finding rule message excerpt severity = record {
  id = rule_name rule ++ codes "-1";
  rule = rule_name rule;
  finding = message;
  severity = severity;
  excerpt = take 200 excerpt;
}

-- A text that `strip` does not empty.
abbrev visible : Text → Bool
visible s = elim (strip s) [ [] ↦ false | c ∷ t ↦ true ]

-- `_excerpt`, of a normalized operation, which has no key `holder`.
unfoldable pub excerpt : Operation → Text
excerpt item =
    if visible item.slice
    then take 200 item.slice
    else if visible item.agent
    then take 200 item.agent
    else codes "(lease)"

abbrev pub grant : Rule → Decision
grant rule = record { verdict = granted; rule = rule; findings = [] }

abbrev pub reported : Verdict → Rule → Text → Text → Text → Decision
reported verdict rule message tag severity = record {
  verdict = verdict;
  rule = rule;
  findings = make_finding rule message tag severity ∷ [];
}

-- `_refuse` and `_recover`
unfoldable pub refuse_for : Rule → Text → Text → Text → Decision
refuse_for rule message tag severity = reported refused rule message tag severity

unfoldable pub recover_for : Rule → Text → Text → Decision
recover_for rule message tag = reported recovering rule message tag major

abbrev pub held : Operation → Bool
held item = truthy (get (codes "holder") item.lease)

abbrev pub nonempty : Text → Bool
nonempty [] = false
nonempty (c ∷ s) = true

abbrev pub is_transfer : Op → Bool
is_transfer transfer = true
is_transfer _ = false

abbrev pub is_heartbeat : Op → Bool
is_heartbeat heartbeat = true
is_heartbeat _ = false

-- The condition of the rule provider-transfer.
unfoldable pub provider_moved : Op → Operation → Bool
provider_moved op item =
    let old = get (codes "provider") item.lease in
    nonempty item.provider
    && truthy old
    && not (value_is item.provider old)
    && not (is_transfer op)
    && not (nonempty item.transfer_to)

module _ (py : Python) where
  unfoldable pub normalize : Value → Result Raised Operation
  normalize operation =
      let d = fields_of operation in
      do
        generation ← int_or_zero py (get (codes "generation") d)
        ticks ← int_or_zero py (get (codes "ticks_since_heartbeat") d)
        ok (record {
          op = show_or_empty py (get_or (codes "op") (str []) d);
          agent = show py (get_or (codes "agent") (str []) d);
          slice = show py (get_or (codes "slice") (str []) d);
          lease = fields_of (get (codes "lease") d);
          generation = generation;
          ticks_since_heartbeat = ticks;
          holder_alive = truthy (get_or (codes "holder_alive") (flag true) d);
          provider = show_or_empty py (get_or (codes "provider") (str []) d);
          transfer_to = show_or_empty py (get_or (codes "transfer_to") (str []) d);
          transfer_provider = show_or_empty py (get_or (codes "transfer_provider") (str []) d);
          workspace_present = truthy (get_or (codes "workspace_present") (flag true) d);
          partitioned = truthy (get_or (codes "partitioned") (flag false) d);
          owner = show_or_empty py (get_or (codes "owner") (str []) d);
          read_only = truthy (get_or (codes "read_only") (flag false) d);
        })

  -- From `if op == "release"` on.
  unfoldable pub concluded : Op → Operation → ℤ → Decision
  concluded release item generation =
      if nonempty item.agent && not (value_is item.agent (get (codes "holder") item.lease))
      then refuse_for concurrent_claim (not_holder py item) (excerpt item) blocker
      else reported released clean_release (released_text py item generation) (excerpt item) minor
  concluded transfer item generation =
      if nonempty item.transfer_to
      then grant provider_transfer
      else refuse_for provider_transfer no_recipient (excerpt item) major
  concluded _ item generation = grant no_lease

  -- From the test of the workspace on.
  unfoldable pub recovered : Op → Operation → ℤ → Decision
  recovered op item generation =
      if not item.workspace_present
      then recover_for workspace_lost workspace_gone (excerpt item)
      else if item.partitioned
      then recover_for partition_split split (excerpt item)
      else if not item.holder_alive
      then recover_for process_dead dead (excerpt item)
      else concluded op item generation

  -- From the test of a late heartbeat on.
  unfoldable pub fenced : Op → Operation → ℤ → Decision
  fenced op item generation =
      if is_heartbeat op && not (sameℤ item.generation generation)
      then refuse_for late_heartbeat (superseded py item generation) (excerpt item) major
      else if ltℤ item.generation generation
      then refuse_for stale_generation (behind py item generation) (excerpt item) blocker
      else if ltℤ heartbeat_deadline item.ticks_since_heartbeat
      then refuse_for expired_lease (past_deadline py item heartbeat_deadline) (excerpt item) major
      else if provider_moved op item
      then refuse_for provider_transfer (provider_moved_text py item) (excerpt item) blocker
      else recovered op item generation

  -- From `if op == "owner-recover"` on.
  unfoldable pub decided : Op → Operation → ℤ → Decision
  decided owner_recover item generation =
      if (item.owner =ᵗ owner_login) && held item
      then reported released owner_recovery (owner_released py owner_login item) (excerpt item)
          major
      else refuse_for owner_recovery owner_needed (excerpt item) blocker
  decided acquire item generation =
      if held item
      then refuse_for concurrent_claim (already_leased py item generation) (excerpt item) blocker
      else grant no_lease
  decided op item generation =
      if held item
      then fenced op item generation
      else refuse_for no_lease (none_held py item) (excerpt item) major

  unfoldable pub decision : Operation → ℤ → Decision
  decision item generation = elim (op_of item.op) [
    | none ↦ refuse_for no_lease (unknown_operation py item) (excerpt item) major
    | some op ↦ if item.read_only then grant no_lease else decided op item generation
  ]

  unfoldable pub decide : Value → Result Raised Decision
  decide operation = do
    item ← normalize operation
    generation ← int_or_zero py (get (codes "generation") item.lease)
    ok (decision item generation)
