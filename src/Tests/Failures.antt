-- ===== src/Tests/Failures.antt =====
-- A failure corpus with one entry for each rule, and a witness for the theorem on such corpora.
use agent_engineering_standa.Base.{
  ◌≡◌, refl, true, false, List, [], ◌∷◌, ◌++◌, Text, codes, ok, pos, ◌=ᵗ◌, contains, strip,
  is_digit, ltℤ,
}
use agent_engineering_standa.Plain.{
  Value, Values, str, flag, number, dict, array, empty, more, Fields, bare, field, get_or, has_key,
  truthy, fields_of, value_is, show, show_or_empty, int_of,
}
use agent_engineering_standa.Plain.Findings.{is_one_of}
use agent_engineering_standa.Plain.Corpus.{entries_of, id_fits, id_of, list_of}
use agent_engineering_standa.Recovery.Types.{
  unknown, Rule, blind_rerun, non_idempotent, partial_green, misclassified, exhausted_budget,
  infra_as_product, unknown_mutation, unowned_lane, historical_replay, clean_triage, rule_name,
  route_name, route_of,
}
use agent_engineering_standa.Recovery.Triage.{
  normalize, class_of, decide, owned, classified, triaged, triage,
}
use agent_engineering_standa.Recovery.Corpus.{
  stem, has_route, shape_failing, triage_failing, failure_failing, failures_failing, rule_covered,
  rules_failing, failures, validate_failure_corpus,
}
use agent_engineering_standa.Recovery.Recorded.{
  IsFailureCorpus, validate_failure_corpus-IsFailureCorpus,
}
use agent_engineering_standa.Tests.Leases.{python}

abbrev entry : Text → Rule → Text → Fields → Value
unfolding route_of
entry digits rule failure_class report = dict (
    field (codes "id") (str (codes "recovery-loop.rule." ++ digits)) (
      field (codes "note") (str (codes "one rule")) (
        field (codes "expected_rule") (str (rule_name rule)) (
          field (codes "expected_class") (str failure_class) (
            field (codes "expected_route") (str (route_name (route_of rule)))
              (field (codes "report") (dict report) bare))))))

abbrev lane : Fields
lane = field (codes "owning_lane") (str (codes "tests")) bare

abbrev argued : Fields → Fields
argued rest =
    field (codes "retry_proposed") (flag true)
      (field (codes "hypothesis") (str (codes "race")) rest)

abbrev corpus : List Value
corpus =
    entry (codes "01") blind_rerun unknown (field (codes "retry_proposed") (flag true) bare)
    ∷ entry (codes "02") non_idempotent unknown
        (argued (field (codes "idempotent") (flag false) bare))
    ∷ entry (codes "03") partial_green unknown (field (codes "partial_green") (flag true) bare)
    ∷ entry (codes "04") misclassified (codes "stale-state") (
        field (codes "filed_class") (str (codes "infra-flake"))
          (field (codes "true_class") (str (codes "stale-state")) bare))
    ∷ entry (codes "05") exhausted_budget unknown
        (argued (field (codes "retries_left") (number (pos 0)) bare))
    ∷ entry (codes "06") infra_as_product (codes "infra-flake") (
        field (codes "filed_class") (str (codes "product-defect"))
          (field (codes "infra_signal") (flag true) bare))
    ∷ entry (codes "07") unknown_mutation unknown
        (field (codes "unknown_mutation") (flag true) bare)
    ∷ entry (codes "08") unowned_lane unknown bare
    ∷ entry (codes "09") historical_replay unknown
        (field (codes "historical_match") (flag true) lane)
    ∷ entry (codes "10") clean_triage unknown lane
    ∷ []

abbrev values_of : List Value → Values
values_of [] = empty
values_of (v ∷ vs) = more v (values_of vs)

corpus_validated : validate_failure_corpus python (array (values_of corpus)) ≡ ok ([], corpus)
unfolding validate_failure_corpus failures failures_failing failure_failing shape_failing
    triage_failing rules_failing rule_covered has_route entries_of list_of stem id_fits id_of
    is_digit is_one_of contains ◌=ᵗ◌ get_or has_key show show_or_empty truthy fields_of value_is
    int_of strip triage normalize triaged classified owned decide class_of ltℤ entry
corpus_validated = refl

validate_failure_corpus-IsFailureCorpus_example : IsFailureCorpus python corpus
validate_failure_corpus-IsFailureCorpus_example =
    validate_failure_corpus-IsFailureCorpus python (array (values_of corpus)) corpus
      corpus_validated
