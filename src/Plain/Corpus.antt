-- ===== src/Plain/Corpus.antt =====
-- The validators of a frozen corpus, which the deciding tools share but for their names: each entry
-- records the rule and the verdict that the tool's `decide` is to give.
pub mod Clear
pub mod Frozen
use agent_engineering_standa.Base.{
  ℕ, suc, Bool, true, false, ◌||◌, ◌&&◌, not, Option, none, some, List, [], ◌∷◌, ◌++◌, Text, codes,
  ◌=ᵗ◌, contains, strip, has_part, Result, ok, ◌>>=◌, ltb, leb, ◌==◌, length, if◌then◌else◌,
}
use agent_engineering_standa.Plain.{
  Value, Values, empty, more, str, flag, array, dict, Fields, bare, Python, Raised, get, get_or,
  has_key, show, value_is,
}
use agent_engineering_standa.Plain.Findings.{is_one_of}

-- The names in which the validators differ, and the decision of the tool: its rule and verdict.
pub record Oracle : Type 0 where
  pub stem : Text
  pub stage : Text
  pub minimum : ℕ
  pub rules : List Text
  pub verdicts : List Text
  pub key : Text
  pub run : Value → Result Raised (Text × Text)

-- One constructor for each finding of a validator.
pub data Flaw : Type 0 where
  not_frozen no_provenance no_corpus : Flaw
  few_entries : ℕ → Flaw
  not_entry : Flaw
  bad_id duplicate_id no_note : Text → Flaw
  no_key : Text → Text → Flaw
  unknown_rule unknown_verdict wrong_rule wrong_verdict : Text → Value → Flaw
  no_entries_for : Text → Flaw

abbrev pub flaw_if {ℓ} : {F : Type ℓ} → Bool → F → List F
flaw_if true f = f ∷ []
flaw_if false f = []

unfoldable pub list_of : Values → List Value
list_of empty = []
list_of (more v vs) = v ∷ list_of vs

listed : Value → List Value
listed (array vs) = list_of vs
listed _ = []

-- `_entries_of`
unfoldable pub entries_of : Value → List Value
unfolding listed list_of
entries_of (dict d) = listed (get (codes "entries") d)
entries_of v = listed v

-- `v is True`
abbrev pub is_true : Value → Bool
is_true (flag b) = b
is_true _ = false

abbrev pub is_blank : Text → Bool
is_blank s = elim (strip s) [ [] ↦ true | c ∷ t ↦ false ]

module _ (py : Python) where
  -- Two decimals, then the end or a final newline.
  two_decimals : Text → Bool
  two_decimals (a ∷ b ∷ []) = py.is_decimal a && py.is_decimal b
  two_decimals (a ∷ b ∷ c ∷ []) = py.is_decimal a && py.is_decimal b && c == 10
  two_decimals _ = false

  is_class_char : ℕ → Bool
  is_class_char c = leb b'a' c && leb c b'z' || c == b'-'

  -- `[a-z-]*\.\d{2}$`
  class_and_number : Text → Bool
  unfolding two_decimals is_class_char
  class_and_number [] = false
  class_and_number (c ∷ s) =
      let later = class_and_number s in
      if c == b'.' then two_decimals s else is_class_char c && later

  -- `[a-z-]+\.\d{2}$`
  some_class : Text → Bool
  unfolding class_and_number is_class_char
  some_class [] = false
  some_class (c ∷ s) = is_class_char c && class_and_number s

  -- `^stem\.[a-z-]+\.\d{2}$`
  unfoldable pub id_fits : Text → Text → Bool
  unfolding some_class
  id_fits [] (c ∷ s) = c == b'.' && some_class s
  id_fits (d ∷ stem) (c ∷ s) = d == c && id_fits stem s
  id_fits _ [] = false

  unfoldable pub id_of : Fields → Text
  id_of d = show py (get_or (codes "id") (str []) d)

  module _ (o : Oracle) where
    -- The tests that do not need the decision.
    unfoldable pub shape_flaws : List Text → Fields → List Flaw
    shape_flaws seen d =
        let id = id_of d in
        flaw_if (not (id_fits o.stem id)) (bad_id id)
        ++ (flaw_if (contains id seen) (duplicate_id id)
            ++ (flaw_if (is_blank (show py (get_or (codes "note") (str []) d))) (no_note id)
                ++ (flaw_if (not (has_key (codes "expected_rule") d))
                      (no_key id (codes "expected_rule"))
                    ++ flaw_if (not (has_key (codes "expected_verdict") d))
                        (no_key id (codes "expected_verdict")))))

    -- The decision against what the entry records.
    unfoldable pub judged : Fields → Result Raised (List Flaw)
    judged d =
        let rule = get (codes "expected_rule") d in
        let verdict = get (codes "expected_verdict") d in
        do
          (r, v) ← o.run (get_or o.key (dict bare) d)
          ok (
              flaw_if (not (value_is r rule)) (wrong_rule (id_of d) rule)
              ++ flaw_if (not (value_is v verdict)) (wrong_verdict (id_of d) verdict))

    -- The body of the loop for an entry that is a mapping.
    unfoldable pub entry_flaws : List Text → Fields → Result Raised (List Flaw)
    entry_flaws seen d =
        let rule = get (codes "expected_rule") d in
        let verdict = get (codes "expected_verdict") d in
        let shape = shape_flaws seen d in
        if not (is_one_of o.rules rule)
        then ok (shape ++ (unknown_rule (id_of d) rule ∷ []))
        else if not (is_one_of o.verdicts verdict)
        then ok (shape ++ (unknown_verdict (id_of d) verdict ∷ []))
        else do wrong ← judged d; ok (shape ++ wrong)

    -- The loop, with the ids seen so far.
    unfoldable pub entries_flaws : List Text → List Value → Result Raised (List Flaw)
    entries_flaws seen [] = ok []
    entries_flaws seen (dict d ∷ es) = do
      first ← entry_flaws seen d
      rest ← entries_flaws (id_of d ∷ seen) es
      ok (first ++ rest)
    entries_flaws seen (_ ∷ es) = do rest ← entries_flaws seen es; ok (not_entry ∷ rest)

    -- `rule in covered`
    unfoldable pub covers : Text → List Value → Bool
    covers rule [] = false
    covers rule (dict d ∷ es) = value_is rule (get (codes "expected_rule") d) || covers rule es
    covers rule (_ ∷ es) = covers rule es

    unfoldable pub uncovered : List Text → List Value → List Flaw
    uncovered [] es = []
    uncovered (rule ∷ rules) es =
        flaw_if (not (covers rule es)) (no_entries_for rule) ++ uncovered rules es

    unfoldable pub corpus_flaws : List Value → Result Raised (List Flaw)
    corpus_flaws es = do
      wrong ← entries_flaws [] es
      ok (
          flaw_if (ltb (length es) o.minimum) (few_entries (length es))
          ++ (wrong ++ uncovered o.rules es))

    -- The findings and the entries.
    unfoldable pub validate_corpus : Value → Result Raised (List Flaw × List Value)
    validate_corpus (dict d) =
        let provenance = show py (get_or (codes "_provenance") (str []) d) in
        let flaws = corpus_flaws (entries_of (dict d)) in
        if not (is_true (get (codes "_frozen") d))
        then ok (not_frozen ∷ [], [])
        else if not (has_part o.stage provenance)
        then ok (no_provenance ∷ [], [])
        else do fs ← flaws; ok (fs, entries_of (dict d))
    validate_corpus (array vs) = do
      fs ← corpus_flaws (entries_of (array vs))
      ok (fs, entries_of (array vs))
    validate_corpus _ = ok (no_corpus ∷ [], [])
