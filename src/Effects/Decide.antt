-- ===== src/Effects/Decide.antt =====
-- tools/idempotent_effects.py: `fingerprint`, `_normalize_attempt`, `_excerpt` and `decide`.
use agent_engineering_standa.Base.{
  Bool, true, false, ◌&&◌, not, [], ◌∷◌, ◌++◌, Text, codes, ◌=ᵗ◌, contains, strip, take, Result, ok,
  ◌>>=◌, ℤ, if◌then◌else◌,
}
use agent_engineering_standa.Plain.{
  Value, null, flag, str, number, dict, bare, field, Python, Raised, get, get_or, truthy, fields_of,
  show, show_or_empty, int_or_zero,
}
use agent_engineering_standa.Plain.Findings.{Finding}
use agent_engineering_standa.Effects.Types.{
  Verdict, execute, replay, refused, Rule, recorded_result, conflicting_reuse, changed_argument,
  mutated_result, stale_head, destructive_action, duplicate_webhook, crash_after_remote,
  missing_dedupe, rule_name, destructive_ops, dedupe_ops, Attempt, Decision,
}

-- `_make_finding`
unfoldable pub make_finding : Rule → Text → Text → Text → Finding
make_finding rule message excerpt severity = record {
  id = rule_name rule ++ codes "-1";
  rule = rule_name rule;
  finding = message;
  severity = severity;
  excerpt = take 200 excerpt;
}

abbrev visible : Text → Bool
visible s = elim (strip s) [ [] ↦ false | c ∷ t ↦ true ]

-- `_excerpt`
unfoldable pub excerpt : Attempt → Text
excerpt item =
    if visible item.tool
    then take 200 item.tool
    else if visible item.operation
    then take 200 item.operation
    else if visible item.fingerprint
    then take 200 item.fingerprint
    else codes "(effect)"

abbrev pub reported : Verdict → Rule → Text → Text → Text → Decision
reported verdict rule message tag severity = record {
  verdict = verdict;
  rule = rule;
  findings = make_finding rule message tag severity ∷ [];
}

-- `_refuse`
unfoldable pub refuse_for : Rule → Text → Text → Text → Decision
refuse_for rule message tag severity = reported refused rule message tag severity

abbrev pub nonempty : Text → Bool
nonempty [] = false
nonempty (c ∷ s) = true

-- `v is not None`
abbrev pub is_given : Value → Bool
is_given null = false
is_given _ = true

module _ (py : Python) where
  -- `fingerprint`
  unfoldable pub fingerprint : Text → Value → Text → ℤ → Text
  fingerprint tool args head generation = py.sha256 (
      py.compact (
        dict (
          field (codes "tool") (str tool) (
            field (codes "args") args (
              field (codes "head") (str head)
                (field (codes "generation") (number generation) bare))))))

  unfoldable pub normalize : Value → Result Raised Attempt
  normalize attempt =
      let d = fields_of attempt in
      do
        generation ← int_or_zero py (get (codes "generation") d)
        ok (record {
          tool = show py (get_or (codes "tool") (str []) d);
          operation = show_or_empty py (get_or (codes "operation") (str []) d);
          args = get_or (codes "args") (dict bare) d;
          head = show py (get_or (codes "head") (str []) d);
          guard_head = show_or_empty py (get_or (codes "guard_head") (str []) d);
          generation = generation;
          fingerprint = show_or_empty py (get_or (codes "fingerprint") (str []) d);
          recorded_fingerprint =
              show_or_empty py (get_or (codes "recorded_fingerprint") (str []) d);
          recorded_result = get (codes "recorded_result") d;
          has_recorded_result = truthy (get_or (codes "has_recorded_result") (flag false) d);
          recorded_payload = get (codes "recorded_payload") d;
          payload = get (codes "payload") d;
          guard_args = get (codes "guard_args") d;
          result_mutated = truthy (get_or (codes "result_mutated") (flag false) d);
          confirmed = truthy (get_or (codes "confirmed") (flag false) d);
          duplicate_delivery = truthy (get_or (codes "duplicate_delivery") (flag false) d);
          crashed_after_remote = truthy (get_or (codes "crashed_after_remote") (flag false) d);
          dedupe_key = show_or_empty py (get_or (codes "dedupe_key") (str []) d);
        })

  -- `json.dumps(a, sort_keys=True) != json.dumps(b, sort_keys=True)`
  abbrev pub differ : Value → Value → Bool
  differ a b = not (py.dumps a =ᵗ py.dumps b)

  unfoldable pub payload_changed : Attempt → Bool
  payload_changed item =
      nonempty item.recorded_fingerprint
      && nonempty item.fingerprint
      && (item.recorded_fingerprint =ᵗ item.fingerprint)
      && is_given item.recorded_payload
      && is_given item.payload
      && differ item.recorded_payload item.payload

  -- From the test of the destructive operations on.
  unfoldable pub confirmed_and_keyed : Attempt → Decision
  confirmed_and_keyed item =
      if contains item.operation destructive_ops && not item.confirmed
      then refuse_for destructive_action
          (codes "non-idempotent "
            ++ (py.repr (str item.operation)
                ++ codes " without explicit confirmation: confirm before executing"))
          (excerpt item) (codes "blocker")
      else if contains item.operation dedupe_ops && not (nonempty item.dedupe_key)
      then refuse_for missing_dedupe
          (py.repr (str item.operation)
            ++ codes " without its dedupe key: attach the key before executing")
          (excerpt item) (codes "major")
      else record { verdict = execute; rule = recorded_result; findings = [] }

  -- From the test of a conflicting reuse on.
  unfoldable pub unchanged : Attempt → Decision
  unchanged item =
      if payload_changed item
      then refuse_for conflicting_reuse
          (codes
            "same fingerprint with a different payload: payloads never change an operation's identity")
          (excerpt item) (codes "blocker")
      else if is_given item.guard_args && differ item.guard_args item.args
      then refuse_for changed_argument
          (codes "arguments changed after the guard: refuse and re-guard before executing")
          (excerpt item) (codes "blocker")
      else if item.result_mutated
      then refuse_for mutated_result
          (codes "authoritative result bytes changed: results are immutable; refuse") (excerpt item)
          (codes "blocker")
      else if nonempty item.guard_head && nonempty item.head && not (item.guard_head =ᵗ item.head)
      then refuse_for stale_head
          (codes "head moved since the guard: refuse and re-guard at the live head") (excerpt item)
          (codes "major")
      else confirmed_and_keyed item

  unfoldable pub decision : Attempt → Decision
  decision item =
      if item.has_recorded_result
      then reported replay recorded_result
          (codes "authoritative result recorded: replay it, never re-execute") (excerpt item)
          (codes "minor")
      else if item.duplicate_delivery
      then reported replay duplicate_webhook
          (codes "duplicate delivery: replay the recorded outcome, never a second effect")
          (excerpt item) (codes "minor")
      else if item.crashed_after_remote
      then reported replay crash_after_remote
          (codes
            "crash after remote success: reconcile against the authoritative result, then replay")
          (excerpt item) (codes "major")
      else unchanged item

  -- The code also computes a fingerprint and drops it.
  unfoldable pub decide : Value → Result Raised Decision
  decide attempt = do item ← normalize attempt; ok (decision item)
