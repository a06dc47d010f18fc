-- ===== src/Ruled/Corpus.antt =====
-- The corpus check of the tools whose rules have one verdict each: an entry records its rule and the
-- verdict of this rule.
use agent_engineering_standa.Base.{
  ℕ, Bool, false, ◌&&◌, ◌||◌, not, List, [], ◌∷◌, ◌++◌, map, Text, codes, contains, any, has_part,
  length, ltb, Result, ok, ◌>>=◌, if◌then◌else◌,
}
use agent_engineering_standa.Plain.{
  Value, str, array, dict, Fields, bare, Python, Raised, get, get_or, has_key, show, value_is,
}
use agent_engineering_standa.Plain.Findings.{is_one_of}
use agent_engineering_standa.Plain.Corpus.{flaw_if, entries_of, is_true, is_blank, id_fits, id_of}

-- The names in which the tools differ, and the decision of the tool: its rule and verdict.
pub record Oracle : Type 0 where
  pub stem : Text
  pub stage : Text
  pub minimum : ℕ
  pub rule_verdicts : List (Text × Text)
  pub key : Text
  pub run : Value → Result Raised (Text × Text)

-- RULES
abbrev pub rules_of : Oracle → List Text
rules_of o = map (λ (p : Text × Text). p.0) o.rule_verdicts

-- One constructor for each finding.
pub data Flaw : Type 0 where
  not_frozen no_provenance no_corpus : Flaw
  few_entries : Flaw
  not_entry : Flaw
  bad_id duplicate_id no_note : Text → Flaw
  no_key : Text → Text → Flaw
  unknown_rule other_verdict wrong_rule wrong_verdict : Text → Value → Flaw
  no_entries_for : Text → Flaw

-- `verdict == RULE_VERDICTS.get(str(rule))`, of a rule that is one of RULES.
unfoldable pub has_verdict : List (Text × Text) → Value → Value → Bool
has_verdict table rule verdict =
    any (λ (p : Text × Text). value_is p.0 rule && value_is p.1 verdict) table

module _ (py : Python) (o : Oracle) where
  unfoldable pub shape_flaws : List Text → Fields → List Flaw
  shape_flaws seen d =
      let id = id_of py d in
      let missing : Text → List Flaw = λ key. flaw_if (not (has_key key d)) (no_key id key) in
      flaw_if (not (id_fits py o.stem id)) (bad_id id)
      ++ (flaw_if (contains id seen) (duplicate_id id)
          ++ (flaw_if (is_blank (show py (get_or (codes "note") (str []) d))) (no_note id)
              ++ (missing (codes "expected_rule") ++ missing (codes "expected_verdict"))))

  -- The decision against what the entry records.
  unfoldable pub judged : Fields → Result Raised (List Flaw)
  judged d =
      let rule = get (codes "expected_rule") d in
      let verdict = get (codes "expected_verdict") d in
      do
        (r, v) ← o.run (get_or o.key (dict bare) d)
        ok (
            flaw_if (not (value_is r rule)) (wrong_rule (id_of py d) rule)
            ++ flaw_if (not (value_is v verdict)) (wrong_verdict (id_of py d) verdict))

  unfoldable pub entry_flaws : List Text → Fields → Result Raised (List Flaw)
  entry_flaws seen d =
      let rule = get (codes "expected_rule") d in
      let verdict = get (codes "expected_verdict") d in
      let shape = shape_flaws seen d in
      if not (is_one_of (rules_of o) rule)
      then ok (shape ++ (unknown_rule (id_of py d) rule ∷ []))
      else if not (has_verdict o.rule_verdicts rule verdict)
      then ok (shape ++ (other_verdict (id_of py d) verdict ∷ []))
      else do wrong ← judged d; ok (shape ++ wrong)

  -- The loop, with the ids seen so far.
  unfoldable pub entries_flaws : List Text → List Value → Result Raised (List Flaw)
  entries_flaws seen [] = ok []
  entries_flaws seen (dict d ∷ es) = do
    first ← entry_flaws seen d
    rest ← entries_flaws (id_of py d ∷ seen) es
    ok (first ++ rest)
  entries_flaws seen (_ ∷ es) = do rest ← entries_flaws seen es; ok (not_entry ∷ rest)

  -- `rule in covered`
  unfoldable pub covers : Text → List Value → Bool
  covers rule [] = false
  covers rule (dict d ∷ es) = value_is rule (get (codes "expected_rule") d) || covers rule es
  covers rule (_ ∷ es) = covers rule es

  unfoldable pub uncovered : List Text → List Value → List Flaw
  uncovered [] es = []
  uncovered (rule ∷ names) es =
      flaw_if (not (covers rule es)) (no_entries_for rule) ++ uncovered names es

  unfoldable pub flaws : List Value → Result Raised (List Flaw × List Value)
  flaws es = do
    wrong ← entries_flaws [] es
    ok (flaw_if (ltb (length es) o.minimum) few_entries ++ (wrong ++ uncovered (rules_of o) es), es)

  unfoldable pub validate_corpus : Value → Result Raised (List Flaw × List Value)
  validate_corpus (dict d) =
      let found = flaws (entries_of (dict d)) in
      if not (is_true (get (codes "_frozen") d))
      then ok (not_frozen ∷ [], [])
      else if not (has_part o.stage (show py (get_or (codes "_provenance") (str []) d)))
      then ok (no_provenance ∷ [], [])
      else found
  validate_corpus (array vs) = flaws (entries_of (array vs))
  validate_corpus _ = ok (no_corpus ∷ [], [])
