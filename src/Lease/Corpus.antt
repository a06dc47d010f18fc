-- ===== src/Lease/Corpus.antt =====
-- tools/writer_lease.py: `validate_lease_corpus`.
use agent_engineering_standa.Base.{List, [], ◌∷◌, Text, codes, Result, ok, ◌>>=◌}
use agent_engineering_standa.Plain.{Value, Python, Raised}
use agent_engineering_standa.Plain.Corpus.{Oracle, Flaw, validate_corpus}
use agent_engineering_standa.Lease.Types.{
  Verdict, granted, refused, recovering, released, rule_name, rules, Decision,
}
use agent_engineering_standa.Lease.Decide.{decide}

abbrev pub verdict_name : Verdict → Text
verdict_name granted = codes "GRANT"
verdict_name refused = codes "REFUSE"
verdict_name recovering = codes "RECOVER"
verdict_name released = codes "RELEASED"

abbrev pub names_of : Decision → Text × Text
names_of d = (rule_name d.rule, verdict_name d.verdict)

module _ (py : Python) where
  run : Value → Result Raised (Text × Text)
  run v = do d ← decide py v; ok (names_of d)

  unfoldable pub lease_oracle : Oracle
  unfolding run
  lease_oracle = record {
    stem = codes "writer-lease";
    stage = codes "Stage 46 #137";
    minimum = 11;
    rules = rules;
    verdicts = codes "GRANT" ∷ codes "REFUSE" ∷ codes "RECOVER" ∷ codes "RELEASED" ∷ [];
    key = codes "operation";
    run = run;
  }

  unfoldable pub validate_lease_corpus : Value → Result Raised (List Flaw × List Value)
  unfolding lease_oracle
  validate_lease_corpus v = validate_corpus py lease_oracle v
