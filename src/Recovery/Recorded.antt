-- ===== src/Recovery/Recorded.antt =====
-- tools/recovery_loop.py: what a failure corpus without findings satisfies.
use agent_engineering_standa.Base.{
  ◌≤◌, ◌≡◌, ap, subst, has_part, ◌∙◌, true, false, not, List, [], ◌∷◌, Text, codes, contains, ok,
  bind-eq-ok, All, length, ltb, arith,
}
use agent_engineering_standa.Plain.{
  Value, null, flag, number, array, str, dict, Fields, bare, Python, get, get_or, show,
}
use agent_engineering_standa.Plain.Findings.{is_one_of}
use agent_engineering_standa.Plain.Corpus.{is_true, entries_of, id_fits, id_of}
use agent_engineering_standa.Plain.Corpus.Clear.{
  append-nil, flaw_unless-nil, flaw_if-nil, ok-nil, added-not_nil, checked-nil, value_is-str,
  ok-parts, passed,
}
use agent_engineering_standa.Recovery.Types.{rules, rule_name, route_name, Decision}
use agent_engineering_standa.Recovery.Triage.{triage}
use agent_engineering_standa.Recovery.Corpus.{
  not_frozen, no_provenance, stem, has_route, unknown_rule, other_route, shape_failing,
  triage_failing, failure_failing, failures_failing, rule_covered, rules_failing, failures,
  validate_failure_corpus,
}

module _ (py : Python) where
  -- The triage is what the entry records.
  pub record IsTriaged (d : Fields) : Type 0 where
    pub decision : Decision
    pub run : triage py (get_or (codes "report") (dict bare) d) ≡ ok decision
    pub expected_rule : get (codes "expected_rule") d ≡ str (rule_name decision.rule)
    pub expected_class : get (codes "expected_class") d ≡ str decision.failure_class
    pub expected_route : get (codes "expected_route") d ≡ str (route_name decision.route)

  -- Every entry is a mapping whose id has the shape and is new, and which is triaged so.
  abbrev pub IsRecord : List Text → List Value → Type 0
  IsRecord seen [] = Unit
  IsRecord seen (dict d ∷ es) =
      (id_fits py stem (id_of py d) ≡ true)
      × (contains (id_of py d) seen ≡ false)
      × IsTriaged d
      × IsRecord (id_of py d ∷ seen) es
  IsRecord seen (_ ∷ es) = ⊥

  triage_failing-IsTriaged : (d : Fields) → triage_failing py d ≡ ok [] → IsTriaged d
  unfolding triage_failing
  triage_failing-IsTriaged d h =
      let (t, ran, made) = bind-eq-ok (triage py (get_or (codes "report") (dict bare) d)) _ h in
      let (same_rule, others) = ok-nil _ _ made in
      let (same_class, same_route) = append-nil _ _ others in
      record {
        decision = t;
        run = ran;
        expected_rule = value_is-str (rule_name t.rule) _ (flaw_unless-nil _ _ same_rule);
        expected_class = value_is-str t.failure_class _ (flaw_unless-nil _ _ same_class);
        expected_route = value_is-str (route_name t.route) _ (flaw_unless-nil _ _ same_route);
      }

  shape_failing-nil :
      (seen : List Text) (d : Fields)
      → shape_failing py seen d ≡ []
      → (id_fits py stem (id_of py d) ≡ true) × (contains (id_of py d) seen ≡ false)
  unfolding shape_failing
  shape_failing-nil seen d h =
      let (fits, rest) = append-nil _ _ h in
      let (new, others) = append-nil _ _ rest in (flaw_unless-nil _ _ fits, flaw_if-nil _ _ new)

  failure_failing-nil :
      (seen : List Text) (d : Fields)
      → failure_failing py seen d ≡ ok []
      → (shape_failing py seen d ≡ []) × (triage_failing py d ≡ ok [])
  unfolding failure_failing
  failure_failing-nil seen d h =
      checked-nil (not (is_one_of rules (get (codes "expected_rule") d)))
        (not (has_route (get (codes "expected_rule") d) (get (codes "expected_route") d))) _
        (unknown_rule (id_of py d) _) (other_route (id_of py d) _) _ h

  failures_failing-IsRecord :
      (seen : List Text) (es : List Value) → failures_failing py seen es ≡ ok [] → IsRecord seen es
  unfolding failures_failing
  failures_failing-IsRecord seen [] h = tt
  failures_failing-IsRecord seen (dict d ∷ es) h =
      let (first, e, more) = bind-eq-ok (failure_failing py seen d) _ h in
      let (rest, e', made) = bind-eq-ok (failures_failing py (id_of py d ∷ seen) es) _ more in
      let (nothing, none_left) = ok-nil first rest made in
      let (shape, triaged) = failure_failing-nil seen d (e ∙ ap ok nothing) in
      let (fits, new) = shape_failing-nil seen d shape in
      (
        fits,
        new,
        triage_failing-IsTriaged d triaged,
        failures_failing-IsRecord (id_of py d ∷ seen) es (e' ∙ ap ok none_left),
      )
  failures_failing-IsRecord seen (null ∷ es) h = absurd (added-not_nil _ _ h)
  failures_failing-IsRecord seen (flag _ ∷ es) h = absurd (added-not_nil _ _ h)
  failures_failing-IsRecord seen (number _ ∷ es) h = absurd (added-not_nil _ _ h)
  failures_failing-IsRecord seen (str _ ∷ es) h = absurd (added-not_nil _ _ h)
  failures_failing-IsRecord seen (array _ ∷ es) h = absurd (added-not_nil _ _ h)

  rules_failing-nil :
      (names : List Text) (es : List Value)
      → rules_failing py names es ≡ []
      → All (λ rule. rule_covered py rule es ≡ true) names
  unfolding rules_failing
  rules_failing-nil [] es h = tt
  rules_failing-nil (rule ∷ names) es h =
      let (first, rest) = append-nil _ _ h in
      (flaw_unless-nil _ _ first, rules_failing-nil names es rest)

  abbrev pub IsFailureCorpus : List Value → Type 0
  IsFailureCorpus es =
      (10 ≤ length es) × IsRecord [] es × All (λ rule. rule_covered py rule es ≡ true) rules

  failures-IsFailureCorpus :
      (all es : List Value) → failures py all ≡ ok ([], es) → IsFailureCorpus es
  unfolding failures
  failures-IsFailureCorpus all es h =
      let (wrong, e, made) = bind-eq-ok (failures_failing py [] all) _ h in
      let (many, rest) = append-nil _ _ (ok-parts made).0 in
      let (nothing, covered) = append-nil wrong _ rest in
      let enough : ltb (length all) 10 ≡ false = flaw_if-nil _ _ many in
      subst IsFailureCorpus (ok-parts made).1 (
        ground arith,
        failures_failing-IsRecord [] all (e ∙ ap ok nothing),
        rules_failing-nil rules all covered,
      )

  -- A failure corpus that is validated without a finding has at least ten entries; each is a mapping
  -- with a new, well-formed id, which is triaged with the rule, the class and the route that it
  -- records; and every rule has an entry.
  pub validate_failure_corpus-IsFailureCorpus :
      (corpus : Value) (es : List Value)
      → validate_failure_corpus py corpus ≡ ok ([], es)
      → IsFailureCorpus es
  unfolding validate_failure_corpus
  validate_failure_corpus-IsFailureCorpus (dict d) es h =
      failures-IsFailureCorpus (entries_of (dict d)) es (
        passed (not (is_true (get (codes "_frozen") d)))
          (not
            (has_part (codes "Stage 58 #149") (show py (get_or (codes "_provenance") (str []) d))))
          not_frozen no_provenance _ es h)
  validate_failure_corpus-IsFailureCorpus (array vs) es h =
      failures-IsFailureCorpus (entries_of (array vs)) es h
  validate_failure_corpus-IsFailureCorpus null es h = cc
  validate_failure_corpus-IsFailureCorpus (flag _) es h = cc
  validate_failure_corpus-IsFailureCorpus (number _) es h = cc
  validate_failure_corpus-IsFailureCorpus (str _) es h = cc
