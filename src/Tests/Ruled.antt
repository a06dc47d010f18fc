-- ===== src/Tests/Ruled.antt =====
-- Runs of the tools whose rules have one verdict each, and witnesses for the theorems on them.
use agent_engineering_standa.Base.{
  ◌≡◌, ◌↔◌, refl, true, false, List, [], ◌∷◌, ◌++◌, Text, codes, ok, ◌=ᵗ◌, contains, strip,
  is_digit,
}
use agent_engineering_standa.Plain.{
  Value, Values, empty, more, str, flag, array, dict, Fields, bare, field, get_or, has_key, truthy,
  fields_of, show, show_or_empty, value_is,
}
use agent_engineering_standa.Plain.Findings.{is_one_of}
use agent_engineering_standa.Plain.Corpus.{entries_of, list_of, id_fits, id_of}
use agent_engineering_standa.Ruled
use agent_engineering_standa.Ruled.Corpus.{
  has_verdict, shape_flaws, judged, entry_flaws, entries_flaws, covers, uncovered, flaws,
  validate_corpus,
}
use agent_engineering_standa.Ruled.Recorded.{IsRuledCorpus, validate_corpus-IsRuledCorpus}
use agent_engineering_standa.SafeParallelism.Types
use agent_engineering_standa.SafeParallelism.Types.{Proposal, Rule, safe}
use agent_engineering_standa.SafeParallelism.Decide
use agent_engineering_standa.SafeParallelism.Decide.{parallel_oracle}
use agent_engineering_standa.SafeParallelism.Safe.{IsSafe, safe_iff}
use agent_engineering_standa.Tests.Leases.{python}

-- Two slices on different files.
abbrev apart : Proposal
apart = record {
  files_a = codes "tools/alpha.py" ∷ [];
  files_b = codes "tools/beta.py" ∷ [];
  schema_shared = false;
  output_needed = false;
  orphaned = false;
  unpushed = false;
  closed = false;
  squash_merged = false;
  workspace = codes "present";
  report_present = true;
  classifier_ok = true;
  leases_distinct = true;
  open_pr = false;
  active_writer = false;
}

safe_iff_example : ((Decide.decided python apart).verdict ≡ safe) ↔ IsSafe apart
safe_iff_example = safe_iff python apart

-- A proposal that says nothing is SAFE.
empty_safe : (Decide.decide python (dict bare)).verdict ≡ safe
unfolding Decide.decide Decide.normalize Decide.decided Decide.cleaned Decide.overlap get_or
    fields_of truthy ◌=ᵗ◌ show_or_empty Decide.decide_by Ruled.decide_by
empty_safe = refl

-- So is a squash-merged branch whose classifier failed.
abbrev unclassified : Proposal
unclassified = record apart { closed = true; squash_merged = true; classifier_ok = false }

unclassified_safe : (Decide.decided python unclassified).verdict ≡ safe
unfolding Decide.decided Decide.cleaned Decide.overlap contains ◌=ᵗ◌ Decide.decide_by
    Ruled.decide_by
unclassified_safe = refl

abbrev entry : Text → Rule → Fields → Value
entry digits rule proposal = dict (
    field (codes "id") (str (codes "safe-parallelism.rule." ++ digits)) (
      field (codes "note") (str (codes "one rule")) (
        field (codes "expected_rule") (str (Types.rule_name rule)) (
          field (codes "expected_verdict") (str (Types.verdict_name (Types.verdict_of rule)))
            (field (codes "proposal") (dict proposal) bare)))))

abbrev yes_to : Text → Fields
yes_to key = field key (flag true) bare

abbrev no_to : Text → Fields
no_to key = field key (flag false) bare

abbrev shared_file : Value
shared_file = array (more (str (codes "a.py")) empty)

abbrev corpus : List Value
corpus =
    entry (codes "01") Types.same_files
      (field (codes "files_a") shared_file (field (codes "files_b") shared_file bare))
    ∷ entry (codes "02") Types.shared_schema (yes_to (codes "shared_schema"))
    ∷ entry (codes "03") Types.dependent_output (yes_to (codes "dependent_output"))
    ∷ entry (codes "04") Types.orphan_process (yes_to (codes "orphan_process"))
    ∷ entry (codes "05") Types.unpushed_work (yes_to (codes "unpushed"))
    ∷ entry (codes "06") Types.closed_unmerged (yes_to (codes "closed_unmerged"))
    ∷ entry (codes "07") Types.squash_recognized
        (field (codes "closed_unmerged") (flag true) (yes_to (codes "squash_merged")))
    ∷ entry (codes "08") Types.cloud_workspace
        (field (codes "cloud_workspace") (str (codes "missing")) bare)
    ∷ entry (codes "09") Types.missing_report (no_to (codes "report_present"))
    ∷ entry (codes "10") Types.classifier_failed (no_to (codes "classifier_ok"))
    ∷ entry (codes "11") Types.clean_parallel bare
    ∷ []

abbrev values_of : List Value → Values
values_of [] = empty
values_of (v ∷ vs) = more v (values_of vs)

corpus_validated :
    validate_corpus python (parallel_oracle python) (array (values_of corpus)) ≡ ok ([], corpus)
unfolding validate_corpus flaws entries_flaws entry_flaws shape_flaws judged uncovered covers
    has_verdict entries_of list_of id_fits id_of is_digit is_one_of contains ◌=ᵗ◌ get_or has_key
    show show_or_empty truthy fields_of value_is strip parallel_oracle Decide.decide
    Decide.normalize Decide.strs Decide.scalars Decide.decided Decide.cleaned Decide.overlap
    Decide.decide_by Ruled.decide_by
corpus_validated = refl

validate_corpus-IsRuledCorpus_example : IsRuledCorpus python (parallel_oracle python) corpus
validate_corpus-IsRuledCorpus_example =
    validate_corpus-IsRuledCorpus python (parallel_oracle python) (array (values_of corpus)) corpus
      corpus_validated
