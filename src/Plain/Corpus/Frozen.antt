-- ===== src/Plain/Corpus/Frozen.antt =====
-- What a corpus without findings satisfies.
use agent_engineering_standa.Base.{
  ◌≤◌, ◌≡◌, ap, subst, has_part, ◌∙◌, true, false, not, List, [], ◌∷◌, Text, codes, contains, ok,
  bind-eq-ok, All, length, ltb, arith,
}
use agent_engineering_standa.Plain.{
  Value, null, flag, number, array, str, dict, Fields, bare, Python, get, get_or, show,
}
use agent_engineering_standa.Plain.Findings.{is_one_of}
use agent_engineering_standa.Plain.Corpus.{
  Oracle, not_frozen, no_provenance, unknown_rule, unknown_verdict, is_true, entries_of, id_fits,
  id_of, shape_flaws, judged, entry_flaws, entries_flaws, covers, uncovered, corpus_flaws,
  validate_corpus,
}
use agent_engineering_standa.Plain.Corpus.Clear.{
  append-nil, flaw_unless-nil, flaw_if-nil, ok-nil, added-not_nil, checked-nil, returned-nil,
  frozen-nil, value_is-str,
}

module _ (py : Python) (o : Oracle) where
  -- The tool decides what the entry records.
  pub record IsJudged (d : Fields) : Type 0 where
    pub rule : Text
    pub verdict : Text
    pub run : o.run (get_or o.key (dict bare) d) ≡ ok (rule, verdict)
    pub expected_rule : get (codes "expected_rule") d ≡ str rule
    pub expected_verdict : get (codes "expected_verdict") d ≡ str verdict

  -- Every entry is a mapping whose id has the shape and is new, and which the tool decides so.
  abbrev pub IsFrozen : List Text → List Value → Type 0
  IsFrozen seen [] = Unit
  IsFrozen seen (dict d ∷ es) =
      (id_fits py o.stem (id_of py d) ≡ true)
      × (contains (id_of py d) seen ≡ false)
      × IsJudged d
      × IsFrozen (id_of py d ∷ seen) es
  IsFrozen seen (_ ∷ es) = ⊥

  judged-IsJudged : (d : Fields) → judged py o d ≡ ok [] → IsJudged d
  unfolding judged
  judged-IsJudged d h =
      let (found, ran, made) = bind-eq-ok (o.run (get_or o.key (dict bare) d)) _ h in
      let (rules, verdicts) = ok-nil _ _ made in
      record {
        rule = found.0;
        verdict = found.1;
        run = ran;
        expected_rule = value_is-str found.0 _ (flaw_unless-nil _ _ rules);
        expected_verdict = value_is-str found.1 _ (flaw_unless-nil _ _ verdicts);
      }

  shape-nil :
      (seen : List Text) (d : Fields)
      → shape_flaws py o seen d ≡ []
      → (id_fits py o.stem (id_of py d) ≡ true) × (contains (id_of py d) seen ≡ false)
  unfolding shape_flaws
  shape-nil seen d h =
      let (fits, rest) = append-nil _ _ h in
      let (new, others) = append-nil _ _ rest in (flaw_unless-nil _ _ fits, flaw_if-nil _ _ new)

  entry-nil :
      (seen : List Text) (d : Fields)
      → entry_flaws py o seen d ≡ ok []
      → (shape_flaws py o seen d ≡ []) × (judged py o d ≡ ok [])
  unfolding entry_flaws
  entry-nil seen d h =
      checked-nil (not (is_one_of o.rules (get (codes "expected_rule") d)))
        (not (is_one_of o.verdicts (get (codes "expected_verdict") d))) _
        (unknown_rule (id_of py d) _) (unknown_verdict (id_of py d) _) _ h

  entries-IsFrozen :
      (seen : List Text) (es : List Value) → entries_flaws py o seen es ≡ ok [] → IsFrozen seen es
  unfolding entries_flaws
  entries-IsFrozen seen [] h = tt
  entries-IsFrozen seen (dict d ∷ es) h =
      let (first, e, more) = bind-eq-ok (entry_flaws py o seen d) _ h in
      let (rest, e', made) = bind-eq-ok (entries_flaws py o (id_of py d ∷ seen) es) _ more in
      let (nothing, none_left) = ok-nil first rest made in
      let (shape, decided) = entry-nil seen d (e ∙ ap ok nothing) in
      let (fits, new) = shape-nil seen d shape in
      (
        fits,
        new,
        judged-IsJudged d decided,
        entries-IsFrozen (id_of py d ∷ seen) es (e' ∙ ap ok none_left),
      )
  entries-IsFrozen seen (null ∷ es) h = absurd (added-not_nil _ _ h)
  entries-IsFrozen seen (flag _ ∷ es) h = absurd (added-not_nil _ _ h)
  entries-IsFrozen seen (number _ ∷ es) h = absurd (added-not_nil _ _ h)
  entries-IsFrozen seen (str _ ∷ es) h = absurd (added-not_nil _ _ h)
  entries-IsFrozen seen (array _ ∷ es) h = absurd (added-not_nil _ _ h)

  uncovered-nil :
      (rules : List Text) (es : List Value)
      → uncovered py o rules es ≡ []
      → All (λ rule. covers py o rule es ≡ true) rules
  unfolding uncovered
  uncovered-nil [] es h = tt
  uncovered-nil (rule ∷ rules) es h =
      let (first, rest) = append-nil _ _ h in
      (flaw_unless-nil _ _ first, uncovered-nil rules es rest)

  -- What no finding says of the entries.
  abbrev pub IsCorpus : List Value → Type 0
  IsCorpus es =
      (o.minimum ≤ length es) × IsFrozen [] es × All (λ rule. covers py o rule es ≡ true) o.rules

  corpus_flaws-IsCorpus : (es : List Value) → corpus_flaws py o es ≡ ok [] → IsCorpus es
  unfolding corpus_flaws
  corpus_flaws-IsCorpus es h =
      let (wrong, e, made) = bind-eq-ok (entries_flaws py o [] es) _ h in
      let (many, rest) = ok-nil _ _ made in
      let (nothing, covered) = append-nil wrong _ rest in
      let enough : ltb (length es) o.minimum ≡ false = flaw_if-nil _ _ many in
      (ground arith, entries-IsFrozen [] es (e ∙ ap ok nothing), uncovered-nil o.rules es covered)

  -- A corpus that is validated without a finding has enough entries; each is a mapping with a new,
  -- well-formed id, for which the tool decides the rule and the verdict that it records; and every
  -- rule has an entry.
  pub validate_corpus-IsCorpus :
      (corpus : Value) (es : List Value) → validate_corpus py o corpus ≡ ok ([], es) → IsCorpus es
  unfolding validate_corpus
  validate_corpus-IsCorpus (dict d) es h =
      let (r, same) =
        frozen-nil (not (is_true (get (codes "_frozen") d)))
          (not (has_part o.stage (show py (get_or (codes "_provenance") (str []) d)))) not_frozen
          no_provenance (corpus_flaws py o (entries_of (dict d))) (entries_of (dict d)) es h in
      subst IsCorpus same (corpus_flaws-IsCorpus _ r)
  validate_corpus-IsCorpus (array vs) es h =
      let (r, same) = returned-nil (corpus_flaws py o (entries_of (array vs))) _ es h in
      subst IsCorpus same (corpus_flaws-IsCorpus _ r)
  validate_corpus-IsCorpus null es h = cc
  validate_corpus-IsCorpus (flag _) es h = cc
  validate_corpus-IsCorpus (number _) es h = cc
  validate_corpus-IsCorpus (str _) es h = cc
