-- ===== src/Recovery/Triage.antt =====
-- tools/recovery_loop.py: `_normalize_report`, `_excerpt` and `triage`, in the order of its tests.
use agent_engineering_standa.Base.{
  Bool, true, false, ◌&&◌, not, [], ◌∷◌, ◌++◌, Text, codes, ◌=ᵗ◌, contains, strip, take, Result, ok,
  ◌>>=◌, ℤ, pos, ltℤ, if◌then◌else◌,
}
use agent_engineering_standa.Plain.{
  Value, number, flag, str, Python, Raised, get_or, truthy, fields_of, show, show_or_empty, int_of,
}
use agent_engineering_standa.Plain.Findings.{Finding}
use agent_engineering_standa.Recovery.Types.{
  unknown, classes, Rule, blind_rerun, non_idempotent, partial_green, misclassified,
  exhausted_budget, infra_as_product, unknown_mutation, unowned_lane, historical_replay,
  clean_triage, rule_name, repair, route_of, Report, Decision,
}

-- `_make_finding`
unfoldable pub make_finding : Rule → Text → Text → Text → Finding
make_finding rule message excerpt severity = record {
  id = rule_name rule ++ codes "-1";
  rule = rule_name rule;
  finding = message;
  severity = severity;
  excerpt = take 200 excerpt;
}

abbrev pub nonempty : Text → Bool
nonempty [] = false
nonempty (c ∷ s) = true

-- `_excerpt`, of a normalized report, which has no key `test` or `workflow`.
unfoldable pub excerpt : Report → Text
excerpt item = if nonempty (strip item.failure) then take 200 item.failure else codes "(failure)"

-- `_decide`
unfoldable pub decide : Rule → Text → Text → Text → Text → Decision
decide rule failure_class message tag severity = record {
  failure_class = failure_class;
  route = route_of rule;
  rule = rule;
  findings = make_finding rule message tag severity ∷ [];
}

-- `first or second or "unknown"`, or "unknown" if that is no class.
unfoldable pub class_of : Text → Text → Text
class_of first second =
    let c = if nonempty first then first else if nonempty second then second else unknown in
    if contains c classes then c else unknown

abbrev pub filed : Report → Text
filed item = class_of item.filed_class item.true_class

abbrev pub actual : Report → Text
actual item = class_of item.true_class item.filed_class

-- `n <= 0`
abbrev pub none_left : ℤ → Bool
none_left n = ltℤ n (pos 1)

module _ (py : Python) where
  unfoldable pub normalize : Value → Result Raised Report
  normalize report =
      let d = fields_of report in
      do
        retries ← int_of py (get_or (codes "retries_left") (number (pos 1)) d)
        ok (record {
          failure = show py (get_or (codes "failure") (str []) d);
          filed_class = show_or_empty py (get_or (codes "filed_class") (str []) d);
          true_class = show_or_empty py (get_or (codes "true_class") (str []) d);
          hypothesis = show_or_empty py (get_or (codes "hypothesis") (str []) d);
          retry_proposed = truthy (get_or (codes "retry_proposed") (flag false) d);
          idempotent = truthy (get_or (codes "idempotent") (flag true) d);
          confirmed = truthy (get_or (codes "confirmed") (flag false) d);
          partially_green = truthy (get_or (codes "partial_green") (flag false) d);
          retries_left = retries;
          owning_lane = show_or_empty py (get_or (codes "owning_lane") (str []) d);
          evidence_preserved = truthy (get_or (codes "evidence_preserved") (flag true) d);
          mutation_proposed = truthy (get_or (codes "unknown_mutation") (flag false) d);
          historical_match = truthy (get_or (codes "historical_match") (flag false) d);
          infra_signal = truthy (get_or (codes "infra_signal") (flag false) d);
        })

  -- From the test of the owning lane on.
  unfoldable pub owned : Report → Decision
  owned item =
      if not (nonempty (strip item.owning_lane))
      then decide unowned_lane (filed item)
          (codes "failure with no owning lane: escalate with the lane named") (excerpt item)
          (codes "major")
      else if item.historical_match
      then decide historical_replay (filed item)
          (codes "historical workflow failure reproduces the route: repair from history")
          (excerpt item) (codes "minor")
      else if not item.evidence_preserved
      then decide clean_triage (filed item)
          (codes "evidence not preserved: preserve evidence, then triage") (excerpt item)
          (codes "blocker")
      else record {
        failure_class = filed item;
        route = repair;
        rule = clean_triage;
        findings =
            make_finding clean_triage
              (codes "classified as "
                ++ (py.repr (str (filed item)) ++ codes " with evidence preserved: route repair"))
              (excerpt item) (codes "minor")
            ∷ [];
      }

  -- From the test of a wrong class on.
  unfoldable pub classified : Report → Decision
  classified item =
      if nonempty item.filed_class
        && nonempty item.true_class
        && not (item.filed_class =ᵗ item.true_class)
      then decide misclassified (actual item)
          (codes "filed as "
            ++ (py.repr (str (filed item))
                ++ (codes " but evidence shows "
                    ++ (py.repr (str (actual item)) ++ codes ": reclassify before routing"))))
          (excerpt item) (codes "major")
      else if item.retry_proposed && none_left item.retries_left
      then decide exhausted_budget (filed item) (codes "retry budget spent: escalate, never loop")
          (excerpt item) (codes "major")
      else if (filed item =ᵗ codes "product-defect") && item.infra_signal
      then decide infra_as_product (codes "infra-flake")
          (codes "infrastructure fault filed as product defect: reroute to infra recovery")
          (excerpt item) (codes "major")
      else if (actual item =ᵗ unknown) && item.mutation_proposed
      then decide unknown_mutation unknown
          (codes "UNKNOWN cause with mutation proposed: refuse mutation until the class is known")
          (excerpt item) (codes "blocker")
      else owned item

  unfoldable pub triaged : Report → Decision
  triaged item =
      if item.retry_proposed && not (nonempty (strip item.hypothesis))
      then decide blind_rerun (filed item)
          (codes
            "retry with no hypothesis: reproduce, hypothesize, test, root-cause, then repair — never a blind loop")
          (excerpt item) (codes "blocker")
      else if item.retry_proposed && not item.idempotent && not item.confirmed
      then decide non_idempotent (filed item)
          (codes "retry on non-idempotent state without explicit confirmation: refuse")
          (excerpt item) (codes "blocker")
      else if item.partially_green
      then decide partial_green (filed item)
          (codes "partial green is not complete: finish or repair, never declare done")
          (excerpt item) (codes "blocker")
      else classified item

  unfoldable pub triage : Value → Result Raised Decision
  triage report = do item ← normalize report; ok (triaged item)
