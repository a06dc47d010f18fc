-- ===== src/Tests/Leases.antt =====
-- Runs of the lease decisions, and witnesses for the theorems on them.
use agent_engineering_standa.Base.{
  Text, ◌≡◌, ◌↔◌, refl, true, false, none, some, [], codes, ok, All, is_digit, pos, ◌=ᵗ◌, ltℤ,
}
use agent_engineering_standa.Plain.{
  Value, number, str, dict, bare, field, Python, get_or, fields_of, value_is, show_or_empty,
  int_or_zero,
}
use agent_engineering_standa.Plain.Findings.{plain}
use agent_engineering_standa.Lease.Types.{Op, op_of, Operation, granted, no_lease, validate_finding}
use agent_engineering_standa.Lease.Decide.{
  grant, normalize, decision, decided, fenced, recovered, concluded, provider_moved, decide,
}
use agent_engineering_standa.Lease.Granted.{IsGranted, grant_iff}
use agent_engineering_standa.Lease.Reported.{lease_findings}

-- Tells texts apart.
abbrev dump : Value → Text
dump (str s) = s
dump v = []

abbrev pub python : Python
python = record {
  repr = λ v. codes "?";
  int = λ s. none;
  is_decimal = λ c. is_digit c;
  dumps = λ v. dump v;
  compact = λ v. dump v;
  sha256 = λ s. s;
}

-- `clean_operation()`
abbrev clean_operation : Value
clean_operation = dict (
    field (codes "op") (str (codes "heartbeat")) (
      field (codes "agent") (str (codes "builder-1")) (
        field (codes "slice") (str (codes "slice-1")) (
          field (codes "lease")
            (dict (
              field (codes "holder") (str (codes "builder-1")) (
                field (codes "generation") (number (pos 3))
                  (field (codes "provider") (str (codes "anthropic")) bare))))
            (field (codes "generation") (number (pos 3))
              (field (codes "provider") (str (codes "anthropic")) bare))))))

clean_granted : decide python clean_operation ≡ ok (grant no_lease)
unfolding decide normalize int_or_zero get_or fields_of ◌=ᵗ◌ decision op_of show_or_empty decided
    fenced ltℤ provider_moved value_is recovered concluded
clean_granted = refl

abbrev beat : Operation
beat = record {
  op = codes "heartbeat";
  agent = codes "builder-1";
  slice = codes "slice-1";
  lease = field (codes "holder") (str (codes "builder-1")) bare;
  generation = pos 4;
  ticks_since_heartbeat = pos 0;
  holder_alive = true;
  provider = [];
  transfer_to = [];
  transfer_provider = [];
  workspace_present = true;
  partitioned = false;
  owner = [];
  read_only = false;
}

grant_iff_example :
    ((decision python beat (pos 4)).verdict ≡ granted)
    ↔ ((op : Op) × (op_of beat.op ≡ some op) × IsGranted op beat (pos 4))
grant_iff_example = grant_iff python beat (pos 4)

-- A write of another agent at the generation of the lease is granted too.
foreign_write :
    decide python (
      dict (
        field (codes "op") (str (codes "write")) (
          field (codes "agent") (str (codes "builder-2")) (
            field
              (codes "lease")
              (dict (
                field
                  (codes "holder")
                  (str (codes "builder-1"))
                  (field (codes "generation") (number (pos 3)) bare)))
              (field (codes "generation") (number (pos 3)) bare)))))
    ≡ ok (grant no_lease)
unfolding clean_granted
foreign_write = refl

abbrev stale_write : Value
stale_write = dict (
    field (codes "op") (str (codes "write")) (
      field (codes "agent") (str (codes "builder-1")) (
        field (codes "lease")
          (dict (
            field (codes "holder") (str (codes "builder-1"))
              (field (codes "generation") (number (pos 3)) bare)))
          (field (codes "generation") (number (pos 2)) bare))))

abbrev stale_item : Operation
stale_item = record beat {
  op = codes "write";
  slice = [];
  generation = pos 2;
  lease =
      field (codes "holder") (str (codes "builder-1"))
        (field (codes "generation") (number (pos 3)) bare);
}

stale_refused : decide python stale_write ≡ ok (decision python stale_item (pos 3))
unfolding decide normalize int_or_zero get_or fields_of ◌=ᵗ◌ show_or_empty
stale_refused = refl

lease_findings_example :
    All (λ f. validate_finding (plain f) ≡ []) (decision python stale_item (pos 3)).findings
    × (((decision python stale_item (pos 3)).verdict ≡ granted)
        ↔ ((decision python stale_item (pos 3)).findings ≡ []))
lease_findings_example =
    lease_findings python stale_write (decision python stale_item (pos 3)) stale_refused
