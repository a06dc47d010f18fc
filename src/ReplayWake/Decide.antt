-- ===== src/ReplayWake/Decide.antt =====
-- tools/replay_wake.py: `_normalize_observation`, `_excerpt`, `wake` and `validate_wake_corpus`.
use agent_engineering_standa.Base.{
  Bool, true, false, ◌&&◌, not, List, [], ◌∷◌, ◌++◌, Text, codes, ◌=ᵗ◌, strip, take, ok, Result,
  if◌then◌else◌,
}
use agent_engineering_standa.Plain.{
  Value, Values, empty, flag, str, array, Python, Raised, get, get_or, truthy, fields_of, show,
  show_or_empty,
}
use agent_engineering_standa.Plain.Findings.{Finding}
use agent_engineering_standa.Ruled
use agent_engineering_standa.Ruled.Corpus.{Oracle, Flaw, validate_corpus}
use agent_engineering_standa.ReplayWake.Types.{
  Rule, github_down, merged_done, moved_head, missing_commit, interrupted_phase, incomplete_check,
  stale_capsule, corrupt_snapshot, provider_change, duplicate_event, clean, table, verdict_of,
  next_action_of, Observation, WakeDecision,
}

-- `_make_finding`
unfoldable pub make_finding : Rule → Text → Text → Text → Finding
make_finding rule message excerpt severity = Ruled.make_finding table rule message excerpt severity

-- `WakeDecision(verdict=RULE_VERDICTS[rule], ..)`, with one finding.
unfoldable pub decide_by : Rule → Text → Text → Text → WakeDecision
decide_by rule message tag severity = record {
  outcome = Ruled.decide_by table rule message tag severity;
  next_action = next_action_of (verdict_of rule);
}

abbrev pub nonempty : Text → Bool
nonempty [] = false
nonempty (c ∷ s) = true

-- `a and b and a != b`
abbrev pub differ : Text → Text → Bool
differ a b = nonempty a && nonempty b && not (a =ᵗ b)

-- `_excerpt`, of a normalized observation, which has no key `head`.
unfoldable pub excerpt : Observation → Text
excerpt item =
    if nonempty (strip item.issue)
    then take 200 item.issue
    else if nonempty (strip item.branch)
    then take 200 item.branch
    else codes "(wake)"

-- `list(v) if isinstance(v, list) else []`
abbrev pub list_or_none : Value → Values
list_or_none (array vs) = vs
list_or_none _ = empty

module _ (py : Python) where
  abbrev pub quoted : Text → Text
  quoted t = py.repr (str t)

  unfoldable pub normalize : Value → Observation
  normalize observation =
      let d = fields_of observation in
      record {
        issue = show py (get_or (codes "issue") (str []) d);
        branch = show py (get_or (codes "branch") (str []) d);
        journal = list_or_none (get (codes "journal") d);
        recorded_head = show py (get_or (codes "recorded_head") (str []) d);
        live_head = show py (get_or (codes "live_head") (str []) d);
        commit_present = truthy (get_or (codes "commit_present") (flag false) d);
        phase_complete = truthy (get_or (codes "phase_complete") (flag false) d);
        checkpoint_state = show_or_empty py (get_or (codes "checkpoint_state") (str []) d);
        capsule_head = show py (get_or (codes "capsule_head") (str []) d);
        journal_head = show py (get_or (codes "journal_head") (str []) d);
        snapshot_ok = truthy (get_or (codes "snapshot_ok") (flag true) d);
        builder_family = show_or_empty py (get_or (codes "builder_family") (str []) d);
        recorded_family = show_or_empty py (get_or (codes "recorded_family") (str []) d);
        github_reachable = truthy (get_or (codes "github_reachable") (flag true) d);
        pr_merged = truthy (get_or (codes "pr_merged") (flag false) d);
        duplicate_conflict = truthy (get_or (codes "duplicate_conflict") (flag false) d);
      }

  -- From the test of the checkpoint on.
  unfoldable pub replayed : Observation → WakeDecision
  replayed item =
      if nonempty item.checkpoint_state && not (item.checkpoint_state =ᵗ codes "FINALIZE")
      then decide_by incomplete_check
          (codes "checkpoint at "
            ++ (item.checkpoint_state ++ codes ", not FINALIZE: re-checkpoint before resuming"))
          (excerpt item) (codes "major")
      else if differ item.capsule_head item.journal_head
      then decide_by stale_capsule
          (codes "capsule head != journal head: reconcile state before any mutation") (excerpt item)
          (codes "major")
      else if not item.snapshot_ok
      then decide_by corrupt_snapshot
          (codes "snapshot bytes fail validation: reconcile state before any mutation")
          (excerpt item) (codes "blocker")
      else if differ item.builder_family item.recorded_family
      then decide_by provider_change
          (codes "builder family "
            ++ (quoted item.builder_family
                ++ (codes " != recorded "
                    ++ (quoted item.recorded_family
                        ++ codes ": reconcile state before any mutation"))))
          (excerpt item) (codes "major")
      else if item.duplicate_conflict
      then decide_by duplicate_event
          (codes "conflicting duplicate in journal: reconcile state before any mutation")
          (excerpt item) (codes "major")
      else decide_by clean
          (codes "replay clean, head matches, receipts hold: resume the recorded next action")
          (excerpt item) (codes "minor")

  -- `wake`, of a normalized observation.
  unfoldable pub woken : Observation → WakeDecision
  woken item =
      if not item.github_reachable
      then decide_by github_down
          (codes "live GitHub unreachable: local read-only work only, no mutation") (excerpt item)
          (codes "blocker")
      else if item.pr_merged
      then decide_by merged_done (codes "PR merged: reconcile and close out, never resume")
          (excerpt item) (codes "major")
      else if differ item.recorded_head item.live_head
      then decide_by moved_head
          (codes "recorded head "
            ++ (quoted (take 12 item.recorded_head)
                ++ (codes " != live head "
                    ++ (quoted (take 12 item.live_head)
                        ++ codes ": reconcile the head before any mutation"))))
          (excerpt item) (codes "blocker")
      else if nonempty item.recorded_head && not item.commit_present
      then decide_by missing_commit
          (codes "recorded commit absent from history: reconcile the head before any mutation")
          (excerpt item) (codes "blocker")
      else if not item.phase_complete
      then decide_by interrupted_phase
          (codes "journal ends mid-phase: re-checkpoint before resuming") (excerpt item)
          (codes "major")
      else replayed item

  unfoldable pub wake : Value → WakeDecision
  wake observation = woken (normalize observation)

  run : Value → Result Raised (Text × Text)
  run observation = ok (Ruled.names_of table (wake observation).outcome)

  unfoldable pub wake_oracle : Oracle
  unfolding run
  wake_oracle = record {
    stem = codes "replay-wake";
    stage = codes "Stage 44 #135";
    minimum = 11;
    rule_verdicts = Ruled.rule_verdicts table;
    key = codes "observation";
    run = run;
  }

  unfoldable pub validate_wake_corpus : Value → Result Raised (List Flaw × List Value)
  unfolding wake_oracle
  validate_wake_corpus corpus = validate_corpus py wake_oracle corpus
