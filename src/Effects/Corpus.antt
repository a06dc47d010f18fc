-- ===== src/Effects/Corpus.antt =====
-- tools/idempotent_effects.py: `validate_effect_corpus`.
use agent_engineering_standa.Base.{List, [], ◌∷◌, Text, codes, Result, ok, ◌>>=◌}
use agent_engineering_standa.Plain.{Value, Python, Raised}
use agent_engineering_standa.Plain.Corpus.{Oracle, Flaw, validate_corpus}
use agent_engineering_standa.Effects.Types.{verdict_name, rule_name, rules, Decision}
use agent_engineering_standa.Effects.Decide.{decide}

abbrev pub names_of : Decision → Text × Text
names_of d = (rule_name d.rule, verdict_name d.verdict)

module _ (py : Python) where
  run : Value → Result Raised (Text × Text)
  run v = do d ← decide py v; ok (names_of d)

  unfoldable pub effect_oracle : Oracle
  unfolding run
  effect_oracle = record {
    stem = codes "idempotent-effect";
    stage = codes "Stage 47 #138";
    minimum = 9;
    rules = rules;
    verdicts = codes "EXECUTE" ∷ codes "REPLAY" ∷ codes "REFUSE" ∷ [];
    key = codes "attempt";
    run = run;
  }

  unfoldable pub validate_effect_corpus : Value → Result Raised (List Flaw × List Value)
  unfolding effect_oracle
  validate_effect_corpus v = validate_corpus py effect_oracle v
