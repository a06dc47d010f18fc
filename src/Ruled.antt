-- ===== src/Ruled.antt =====
-- What several deciding tools share but for their names: a verdict for each rule, the decision that
-- carries one finding, and the corpus that records a rule and its verdict.
pub mod Corpus
pub mod Recorded
use agent_engineering_standa.Base.{List, [], ◌∷◌, ◌++◌, map, Text, codes, take}
use agent_engineering_standa.Plain.Findings.{Finding}

-- RULES and RULE_VERDICTS
pub record Table (R V : Type 0) : Type 0 where
  pub rule_name : R → Text
  pub verdict_name : V → Text
  pub all_rules : List R
  pub verdict_of : R → V

-- The class of decisions of a tool.
pub record Decision (R V : Type 0) : Type 0 where
  pub verdict : V
  pub rule : R
  pub findings : List Finding

module _ {R V : Type 0} (t : Table R V) where
  abbrev pub rules : List Text
  rules = map t.rule_name t.all_rules

  -- RULE_VERDICTS, by name
  abbrev pub rule_verdicts : List (Text × Text)
  rule_verdicts = map (λ r. (t.rule_name r, t.verdict_name (t.verdict_of r))) t.all_rules

  abbrev pub names_of : Decision R V → Text × Text
  names_of d = (t.rule_name d.rule, t.verdict_name d.verdict)

  -- `_make_finding`: a rule, a message, an excerpt and a severity.
  unfoldable pub make_finding : R → Text → Text → Text → Finding
  make_finding rule message excerpt severity = record {
    id = t.rule_name rule ++ codes "-1";
    rule = t.rule_name rule;
    finding = message;
    severity = severity;
    excerpt = take 200 excerpt;
  }

  -- `_decide`
  unfoldable pub decide_by : R → Text → Text → Text → Decision R V
  decide_by rule message tag severity = record {
    verdict = t.verdict_of rule;
    rule = rule;
    findings = make_finding rule message tag severity ∷ [];
  }
