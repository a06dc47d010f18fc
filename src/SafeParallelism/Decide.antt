-- ===== src/SafeParallelism/Decide.antt =====
-- tools/safe_parallelism.py: `_normalize_proposal`, `_excerpt`, `decide` and
-- `validate_parallel_corpus`.
use agent_engineering_standa.Base.{
  Bool, true, false, ◌&&◌, not, List, [], ◌∷◌, ◌++◌, Text, codes, ◌=ᵗ◌, contains, any, select, take,
  ltb, ◌==◌, ok, Result, if◌then◌else◌,
}
use agent_engineering_standa.Plain.{
  Value, Values, empty, more, number, flag, str, array, Python, Raised, get, get_or, truthy,
  fields_of, show, show_or_empty,
}
use agent_engineering_standa.Plain.Findings.{Finding}
use agent_engineering_standa.Ruled
use agent_engineering_standa.Ruled.Corpus.{Oracle, Flaw, validate_corpus}
use agent_engineering_standa.SafeParallelism.Types.{
  Rule, same_files, shared_schema, dependent_output, orphan_process, unpushed_work, closed_unmerged,
  squash_recognized, cloud_workspace, missing_report, classifier_failed, clean_parallel, table,
  Proposal, Decision,
}

-- `_make_finding`
unfoldable pub make_finding : Rule → Text → Text → Text → Finding
make_finding rule message excerpt severity = Ruled.make_finding table rule message excerpt severity

-- `_decide`
unfoldable pub decide_by : Rule → Text → Text → Text → Decision
decide_by rule message tag severity = Ruled.decide_by table rule message tag severity

-- `_excerpt`, of a normalized proposal, which has no key `slices`, `pair` or `worktree`.
unfoldable pub excerpt : Proposal → Text
excerpt item = elim item.files_a [ [] ↦ codes "(parallel)" | f ∷ fs ↦ take 200 f ]

-- `isinstance(v, (str, int, float))`
abbrev pub is_scalar : Value → Bool
is_scalar (str s) = true
is_scalar (number n) = true
is_scalar (flag b) = true
is_scalar _ = false

module _ (py : Python) where
  -- The loop of `_strs`.
  unfoldable pub scalars : Values → List Text
  unfolding show
  scalars empty = []
  scalars (more v vs) = let rest = scalars vs in if is_scalar v then show py v ∷ rest else rest

  -- `_strs`
  unfoldable pub strs : Value → List Text
  strs (array vs) = scalars vs
  strs _ = []

  unfoldable pub normalize : Value → Proposal
  unfolding strs
  normalize proposal =
      let d = fields_of proposal in
      record {
        files_a = strs (get (codes "files_a") d);
        files_b = strs (get (codes "files_b") d);
        schema_shared = truthy (get_or (codes "shared_schema") (flag false) d);
        output_needed = truthy (get_or (codes "dependent_output") (flag false) d);
        orphaned = truthy (get_or (codes "orphan_process") (flag false) d);
        unpushed = truthy (get_or (codes "unpushed") (flag false) d);
        closed = truthy (get_or (codes "closed_unmerged") (flag false) d);
        squash_merged = truthy (get_or (codes "squash_merged") (flag false) d);
        workspace = show_or_empty py (get_or (codes "cloud_workspace") (str []) d);
        report_present = truthy (get_or (codes "report_present") (flag true) d);
        classifier_ok = truthy (get_or (codes "classifier_ok") (flag true) d);
        leases_distinct = truthy (get_or (codes "leases_distinct") (flag true) d);
        open_pr = truthy (get_or (codes "open_pr") (flag false) d);
        active_writer = truthy (get_or (codes "active_writer") (flag false) d);
      }

-- `s < t`, by code points.
unfoldable pub precedes : Text → Text → Bool
precedes s [] = false
precedes [] (d ∷ t) = true
precedes (c ∷ s) (d ∷ t) = let later = precedes s t in if c == d then later else ltb c d

-- Into a sorted list, once.
unfoldable pub insert_once : Text → List Text → List Text
unfolding precedes
insert_once s [] = s ∷ []
insert_once s (t ∷ ts) =
    let rest = insert_once s ts in
    if s =ᵗ t then t ∷ ts else if precedes s t then s ∷ t ∷ ts else t ∷ rest

unfoldable pub sorted : List Text → List Text
unfolding insert_once
sorted [] = []
sorted (s ∷ ss) = insert_once s (sorted ss)

-- `bool(set(a) & set(b))`
unfoldable pub overlap : List Text → List Text → Bool
overlap a b = any (λ s. contains s b) a

abbrev pub text_values : List Text → Values
text_values [] = empty
text_values (s ∷ ss) = more (str s) (text_values ss)

-- From the test of a closed branch on.
unfoldable pub cleaned : Proposal → Decision
cleaned item =
    if item.closed && not item.squash_merged
    then decide_by closed_unmerged
        (codes "closed-but-unmerged branch: refuse until the branch reconciles") (excerpt item)
        (codes "major")
    else if item.closed && item.squash_merged
    then decide_by squash_recognized
        (codes "squash-merged content recognized as merged: cleanup may proceed") (excerpt item)
        (codes "minor")
    else if item.workspace =ᵗ codes "missing"
    then decide_by cloud_workspace (codes "cloud workspace missing: classify before parallelizing")
        (excerpt item) (codes "major")
    else if not item.report_present
    then decide_by missing_report
        (codes "required subagent report absent: refuse until the report lands") (excerpt item)
        (codes "major")
    else if not item.classifier_ok
    then decide_by classifier_failed
        (codes "concurrency classifier threw or is missing: UNKNOWN is never SAFE") (excerpt item)
        (codes "blocker")
    else if not item.leases_distinct
    then decide_by shared_schema (codes "slices share one lease: serialize under a single writer")
        (excerpt item) (codes "major")
    else decide_by clean_parallel
        (codes "disjoint files, independent outputs, distinct leases: SAFE to parallelize")
        (excerpt item) (codes "minor")

module _ (py : Python) where
  -- `decide`, of a normalized proposal.
  unfoldable pub decided : Proposal → Decision
  decided item =
      if overlap item.files_a item.files_b
      then decide_by same_files
          (codes "writers touch the same files "
            ++ (py.repr (
                  array (text_values (sorted (select (λ f. contains f item.files_b) item.files_a))))
                ++ codes ": serialize"))
          (excerpt item) (codes "major")
      else if item.schema_shared
      then decide_by shared_schema
          (codes "shared mutable schema/state: serialize until the schema boundary splits")
          (excerpt item) (codes "major")
      else if item.output_needed
      then decide_by dependent_output
          (codes "one slice needs the other's output: serialize in dependency order") (excerpt item)
          (codes "major")
      else if item.orphaned
      then decide_by orphan_process
          (codes "orphan writer process: reap and reconcile before any parallelism") (excerpt item)
          (codes "blocker")
      else if item.unpushed
      then decide_by unpushed_work
          (codes
            "unpushed commits present: refuse cleanup-affecting parallelism until pushed or reconciled")
          (excerpt item) (codes "major")
      else cleaned item

  unfoldable pub decide : Value → Decision
  decide proposal = decided (normalize py proposal)

  run : Value → Result Raised (Text × Text)
  run proposal = ok (Ruled.names_of table (decide proposal))

  unfoldable pub parallel_oracle : Oracle
  unfolding run
  parallel_oracle = record {
    stem = codes "safe-parallelism";
    stage = codes "Stage 49 #140";
    minimum = 11;
    rule_verdicts = Ruled.rule_verdicts table;
    key = codes "proposal";
    run = run;
  }

  unfoldable pub validate_parallel_corpus : Value → Result Raised (List Flaw × List Value)
  unfolding parallel_oracle
  validate_parallel_corpus corpus = validate_corpus py parallel_oracle corpus
