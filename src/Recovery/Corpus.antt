-- ===== src/Recovery/Corpus.antt =====
-- tools/recovery_loop.py: `validate_failure_corpus`, whose entries record a rule, a class and a
-- route.
use agent_engineering_standa.Base.{
  Bool, false, ◌&&◌, ◌||◌, not, List, [], ◌∷◌, ◌++◌, Text, codes, contains, any, has_part, length,
  ltb, Result, ok, ◌>>=◌, if◌then◌else◌,
}
use agent_engineering_standa.Plain.{
  Value, str, array, dict, Fields, bare, Python, Raised, get, get_or, has_key, show, value_is,
}
use agent_engineering_standa.Plain.Findings.{is_one_of}
use agent_engineering_standa.Plain.Corpus.{flaw_if, entries_of, is_true, is_blank, id_fits, id_of}
use agent_engineering_standa.Recovery.Types.{rule_name, all_rules, rules, route_of, route_name}
use agent_engineering_standa.Recovery.Triage.{triage}

-- One constructor for each finding.
pub data Failing : Type 0 where
  not_frozen no_provenance no_corpus : Failing
  few_entries : Failing
  not_entry : Failing
  bad_id duplicate_id no_note : Text → Failing
  no_key : Text → Text → Failing
  unknown_rule other_route wrong_rule wrong_class wrong_route : Text → Value → Failing
  no_entries_for : Text → Failing

unfoldable pub stem : Text
stem = codes "recovery-loop"

-- `route == RULE_ROUTES.get(str(rule))`, of a rule that is one of RULES.
unfoldable pub has_route : Value → Value → Bool
has_route rule route =
    any (λ r. value_is (rule_name r) rule && value_is (route_name (route_of r)) route) all_rules

module _ (py : Python) where
  unfoldable pub shape_failing : List Text → Fields → List Failing
  unfolding stem
  shape_failing seen d =
      let id = id_of py d in
      let missing : Text → List Failing = λ key. flaw_if (not (has_key key d)) (no_key id key) in
      flaw_if (not (id_fits py stem id)) (bad_id id)
      ++ (flaw_if (contains id seen) (duplicate_id id)
          ++ (flaw_if (is_blank (show py (get_or (codes "note") (str []) d))) (no_note id)
              ++ (missing (codes "expected_rule")
                  ++ (missing (codes "expected_class") ++ missing (codes "expected_route")))))

  -- The triage against what the entry records.
  unfoldable pub triage_failing : Fields → Result Raised (List Failing)
  triage_failing d =
      let rule = get (codes "expected_rule") d in
      let failure_class = get (codes "expected_class") d in
      let route = get (codes "expected_route") d in
      do
        t ← triage py (get_or (codes "report") (dict bare) d)
        ok (
            flaw_if (not (value_is (rule_name t.rule) rule)) (wrong_rule (id_of py d) rule)
            ++ (flaw_if (not (value_is t.failure_class failure_class))
                  (wrong_class (id_of py d) failure_class)
                ++ flaw_if (not (value_is (route_name t.route) route))
                    (wrong_route (id_of py d) route)))

  unfoldable pub failure_failing : List Text → Fields → Result Raised (List Failing)
  failure_failing seen d =
      let rule = get (codes "expected_rule") d in
      let route = get (codes "expected_route") d in
      let shape = shape_failing seen d in
      if not (is_one_of rules rule)
      then ok (shape ++ (unknown_rule (id_of py d) rule ∷ []))
      else if not (has_route rule route)
      then ok (shape ++ (other_route (id_of py d) route ∷ []))
      else do wrong ← triage_failing d; ok (shape ++ wrong)

  -- The loop, with the ids seen so far.
  unfoldable pub failures_failing : List Text → List Value → Result Raised (List Failing)
  failures_failing seen [] = ok []
  failures_failing seen (dict d ∷ es) = do
    first ← failure_failing seen d
    rest ← failures_failing (id_of py d ∷ seen) es
    ok (first ++ rest)
  failures_failing seen (_ ∷ es) = do rest ← failures_failing seen es; ok (not_entry ∷ rest)

  unfoldable pub rule_covered : Text → List Value → Bool
  rule_covered rule [] = false
  rule_covered rule (dict d ∷ es) =
      value_is rule (get (codes "expected_rule") d) || rule_covered rule es
  rule_covered rule (_ ∷ es) = rule_covered rule es

  unfoldable pub rules_failing : List Text → List Value → List Failing
  rules_failing [] es = []
  rules_failing (rule ∷ names) es =
      flaw_if (not (rule_covered rule es)) (no_entries_for rule) ++ rules_failing names es

  unfoldable pub failures : List Value → Result Raised (List Failing × List Value)
  failures es = do
    wrong ← failures_failing [] es
    ok (flaw_if (ltb (length es) 10) few_entries ++ (wrong ++ rules_failing rules es), es)

  unfoldable pub validate_failure_corpus : Value → Result Raised (List Failing × List Value)
  validate_failure_corpus (dict d) =
      let found = failures (entries_of (dict d)) in
      if not (is_true (get (codes "_frozen") d))
      then ok (not_frozen ∷ [], [])
      else if not
          (has_part (codes "Stage 58 #149") (show py (get_or (codes "_provenance") (str []) d)))
      then ok (no_provenance ∷ [], [])
      else found
  validate_failure_corpus (array vs) = failures (entries_of (array vs))
  validate_failure_corpus _ = ok (no_corpus ∷ [], [])
