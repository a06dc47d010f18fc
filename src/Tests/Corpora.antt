-- ===== src/Tests/Corpora.antt =====
-- A run of the validation of a corpus, and a witness for the theorem on it.
use agent_engineering_standa.Base.{◌≡◌, refl, [], ◌∷◌, codes, ok, is_digit, strip, ◌=ᵗ◌, contains}
use agent_engineering_standa.Plain.{
  Value, str, dict, array, bare, field, empty, more, get_or, has_key, show, value_is,
}
use agent_engineering_standa.Plain.Findings.{is_one_of}
use agent_engineering_standa.Plain.Corpus.{
  Oracle, validate_corpus, corpus_flaws, entries_flaws, entry_flaws, shape_flaws, judged, covers,
  uncovered, id_fits, id_of, entries_of,
}
use agent_engineering_standa.Plain.Corpus.Frozen.{IsCorpus, validate_corpus-IsCorpus}
use agent_engineering_standa.Tests.Leases.{python}

abbrev oracle : Oracle
oracle = record {
  stem = codes "writer-lease";
  stage = codes "Stage 46 #137";
  minimum = 1;
  rules = codes "no-lease" ∷ [];
  verdicts = codes "GRANT" ∷ [];
  key = codes "operation";
  run = λ v. ok (codes "no-lease", codes "GRANT");
}

abbrev entry : Value
entry = dict (
    field (codes "id") (str (codes "writer-lease.no-lease.01")) (
      field (codes "note") (str (codes "free")) (
        field (codes "expected_rule") (str (codes "no-lease"))
          (field (codes "expected_verdict") (str (codes "GRANT")) bare))))

validated : validate_corpus python oracle (array (more entry empty)) ≡ ok ([], entry ∷ [])
unfolding validate_corpus corpus_flaws entries_flaws entries_of entry_flaws is_one_of get_or ◌=ᵗ◌
    contains judged shape_flaws id_fits id_of show is_digit strip has_key value_is uncovered covers
validated = refl

validate_corpus-IsCorpus_example : IsCorpus python oracle (entry ∷ [])
validate_corpus-IsCorpus_example =
    validate_corpus-IsCorpus python oracle (array (more entry empty)) (entry ∷ []) validated
