-- ===== src/Ruled/Recorded.antt =====
-- What a corpus without findings satisfies.
use agent_engineering_standa.Base.{
  ◌≤◌, ◌≡◌, ap, subst, has_part, ◌∙◌, true, false, not, List, [], ◌∷◌, Text, codes, contains, ok,
  bind-eq-ok, All, length, ltb, arith,
}
use agent_engineering_standa.Plain.{
  Value, null, flag, number, array, str, dict, Fields, bare, Python, get, get_or, show,
}
use agent_engineering_standa.Plain.Findings.{is_one_of}
use agent_engineering_standa.Plain.Corpus.{is_true, entries_of, id_fits, id_of}
use agent_engineering_standa.Plain.Corpus.Clear.{
  append-nil, flaw_unless-nil, flaw_if-nil, ok-nil, added-not_nil, checked-nil, value_is-str,
  ok-parts, passed,
}
use agent_engineering_standa.Ruled.Corpus.{
  Oracle, rules_of, not_frozen, no_provenance, has_verdict, unknown_rule, other_verdict,
  shape_flaws, judged, entry_flaws, entries_flaws, covers, uncovered, flaws, validate_corpus,
}

module _ (py : Python) (o : Oracle) where
  -- The rule and the verdict of the decision are what the entry records.
  pub record IsJudged (d : Fields) : Type 0 where
    pub decided : Text × Text
    pub run : o.run (get_or o.key (dict bare) d) ≡ ok decided
    pub expected_rule : get (codes "expected_rule") d ≡ str decided.0
    pub expected_verdict : get (codes "expected_verdict") d ≡ str decided.1

  -- Every entry is a mapping whose id has the shape and is new, and which is decided so.
  abbrev pub IsRecord : List Text → List Value → Type 0
  IsRecord seen [] = Unit
  IsRecord seen (dict d ∷ es) =
      (id_fits py o.stem (id_of py d) ≡ true)
      × (contains (id_of py d) seen ≡ false)
      × IsJudged d
      × IsRecord (id_of py d ∷ seen) es
  IsRecord seen (_ ∷ es) = ⊥

  judged-IsJudged : (d : Fields) → judged py o d ≡ ok [] → IsJudged d
  unfolding judged
  judged-IsJudged d h =
      let (t, ran, made) = bind-eq-ok (o.run (get_or o.key (dict bare) d)) _ h in
      let (same_rule, same_verdict) = ok-nil _ _ made in
      record {
        decided = t;
        run = ran;
        expected_rule = value_is-str t.0 _ (flaw_unless-nil _ _ same_rule);
        expected_verdict = value_is-str t.1 _ (flaw_unless-nil _ _ same_verdict);
      }

  shape_flaws-nil :
      (seen : List Text) (d : Fields)
      → shape_flaws py o seen d ≡ []
      → (id_fits py o.stem (id_of py d) ≡ true) × (contains (id_of py d) seen ≡ false)
  unfolding shape_flaws
  shape_flaws-nil seen d h =
      let (fits, rest) = append-nil _ _ h in
      let (new, others) = append-nil _ _ rest in (flaw_unless-nil _ _ fits, flaw_if-nil _ _ new)

  entry_flaws-nil :
      (seen : List Text) (d : Fields)
      → entry_flaws py o seen d ≡ ok []
      → (shape_flaws py o seen d ≡ []) × (judged py o d ≡ ok [])
  unfolding entry_flaws
  entry_flaws-nil seen d h =
      checked-nil (not (is_one_of (rules_of o) (get (codes "expected_rule") d)))
        (not (
          has_verdict o.rule_verdicts (get (codes "expected_rule") d)
            (get (codes "expected_verdict") d)))
        _ (unknown_rule (id_of py d) _) (other_verdict (id_of py d) _) _ h

  entries_flaws-IsRecord :
      (seen : List Text) (es : List Value) → entries_flaws py o seen es ≡ ok [] → IsRecord seen es
  unfolding entries_flaws
  entries_flaws-IsRecord seen [] h = tt
  entries_flaws-IsRecord seen (dict d ∷ es) h =
      let (first, e, more) = bind-eq-ok (entry_flaws py o seen d) _ h in
      let (rest, e', made) = bind-eq-ok (entries_flaws py o (id_of py d ∷ seen) es) _ more in
      let (nothing, none_left) = ok-nil first rest made in
      let (shape, decided) = entry_flaws-nil seen d (e ∙ ap ok nothing) in
      let (fits, new) = shape_flaws-nil seen d shape in
      (
        fits,
        new,
        judged-IsJudged d decided,
        entries_flaws-IsRecord (id_of py d ∷ seen) es (e' ∙ ap ok none_left),
      )
  entries_flaws-IsRecord seen (null ∷ es) h = absurd (added-not_nil _ _ h)
  entries_flaws-IsRecord seen (flag _ ∷ es) h = absurd (added-not_nil _ _ h)
  entries_flaws-IsRecord seen (number _ ∷ es) h = absurd (added-not_nil _ _ h)
  entries_flaws-IsRecord seen (str _ ∷ es) h = absurd (added-not_nil _ _ h)
  entries_flaws-IsRecord seen (array _ ∷ es) h = absurd (added-not_nil _ _ h)

  uncovered-nil :
      (names : List Text) (es : List Value)
      → uncovered py o names es ≡ []
      → All (λ rule. covers py o rule es ≡ true) names
  unfolding uncovered
  uncovered-nil [] es h = tt
  uncovered-nil (rule ∷ names) es h =
      let (first, rest) = append-nil _ _ h in
      (flaw_unless-nil _ _ first, uncovered-nil names es rest)

  abbrev pub IsRuledCorpus : List Value → Type 0
  IsRuledCorpus es =
      (o.minimum ≤ length es)
      × IsRecord [] es
      × All (λ rule. covers py o rule es ≡ true) (rules_of o)

  flaws-IsRuledCorpus : (all es : List Value) → flaws py o all ≡ ok ([], es) → IsRuledCorpus es
  unfolding flaws
  flaws-IsRuledCorpus all es h =
      let (wrong, e, made) = bind-eq-ok (entries_flaws py o [] all) _ h in
      let (many, rest) = append-nil _ _ (ok-parts made).0 in
      let (nothing, covered) = append-nil wrong _ rest in
      let enough : ltb (length all) o.minimum ≡ false = flaw_if-nil _ _ many in
      subst IsRuledCorpus (ok-parts made).1 (
        ground arith,
        entries_flaws-IsRecord [] all (e ∙ ap ok nothing),
        uncovered-nil (rules_of o) all covered,
      )

  -- A corpus that is validated without a finding has enough entries; each is a mapping with a new,
  -- well-formed id, for which the tool decides the rule and the verdict that it records; and every
  -- rule has an entry.
  pub validate_corpus-IsRuledCorpus :
      (corpus : Value) (es : List Value)
      → validate_corpus py o corpus ≡ ok ([], es)
      → IsRuledCorpus es
  unfolding validate_corpus
  validate_corpus-IsRuledCorpus (dict d) es h = flaws-IsRuledCorpus (entries_of (dict d)) es (
      passed (not (is_true (get (codes "_frozen") d)))
        (not (has_part (o.stage) (show py (get_or (codes "_provenance") (str []) d)))) not_frozen
        no_provenance _ es h)
  validate_corpus-IsRuledCorpus (array vs) es h = flaws-IsRuledCorpus (entries_of (array vs)) es h
  validate_corpus-IsRuledCorpus null es h = cc
  validate_corpus-IsRuledCorpus (flag _) es h = cc
  validate_corpus-IsRuledCorpus (number _) es h = cc
  validate_corpus-IsRuledCorpus (str _) es h = cc
