-- ===== src/ContextRotation/Decide.antt =====
-- tools/context_rotation.py: `_normalize_signal`, `_excerpt`, `decide` and
-- `validate_rotation_corpus`.
use agent_engineering_standa.Base.{
  Bool, true, false, ◌&&◌, not, List, [], ◌∷◌, ◌++◌, Text, codes, ◌=ᵗ◌, strip, take, ok, Result,
  if◌then◌else◌,
}
use agent_engineering_standa.Plain.{
  Value, Values, empty, flag, str, array, Python, Raised, get, get_or, truthy, fields_of, show,
  show_or_empty,
}
use agent_engineering_standa.Plain.Findings.{Finding}
use agent_engineering_standa.Ruled
use agent_engineering_standa.Ruled.Corpus.{Oracle, Flaw, validate_corpus}
use agent_engineering_standa.ContextRotation.Types.{
  Rule, compacted, polluted_history, read_only_bound, boundary_due, imminent_compact,
  overflow_output, missing_checkpoint, provider_switch, canary_missing, clean_rotate, table, Signal,
  Decision,
}

-- `_make_finding`
unfoldable pub make_finding : Rule → Text → Text → Text → Finding
make_finding rule message excerpt severity = Ruled.make_finding table rule message excerpt severity

-- `_decide`
unfoldable pub decide_by : Rule → Text → Text → Text → Decision
decide_by rule message tag severity = Ruled.decide_by table rule message tag severity

abbrev pub nonempty : Text → Bool
nonempty [] = false
nonempty (c ∷ s) = true

-- `_excerpt`, of a normalized signal, which has no key `phase` or `slice`.
unfoldable pub excerpt : Signal → Text
excerpt item =
    if nonempty (strip item.transition) then take 200 item.transition else codes "(rotation)"

-- `list(v) if isinstance(v, list) else []`
abbrev pub list_or_none : Value → Values
list_or_none (array vs) = vs
list_or_none _ = empty

-- From the test of the checkpoint on.
unfoldable pub planned : Signal → Decision
planned item =
    if not item.checkpointed
    then decide_by missing_checkpoint
        (codes "rotation without checkpoint: checkpoint first, then rotate") (excerpt item)
        (codes "major")
    else if item.provider_switched
    then decide_by provider_switch
        (codes "provider switch mid-flight: rotate with cross-provider acceptance") (excerpt item)
        (codes "major")
    else if item.automatic && not item.canaries_passed
    then decide_by canary_missing
        (codes "automatic mode without passed provider canaries: HOLD in advisory/controlled mode")
        (excerpt item) (codes "major")
    else decide_by clean_rotate
        (codes "planned rotation: checkpoint, lease, capsule, fresh session, acceptance, resume")
        (excerpt item) (codes "minor")

module _ (py : Python) where
  unfoldable pub normalize : Value → Signal
  normalize signal =
      let d = fields_of signal in
      record {
        transition = show py (get_or (codes "transition") (str []) d);
        footprint_status = show_or_empty py (get_or (codes "footprint_status") (str []) d);
        boundary = truthy (get_or (codes "boundary") (flag false) d);
        compaction_imminent = truthy (get_or (codes "compaction_imminent") (flag false) d);
        compaction_done = truthy (get_or (codes "compaction_done") (flag false) d);
        polluted = truthy (get_or (codes "polluted") (flag false) d);
        tool_overflow = truthy (get_or (codes "tool_overflow") (flag false) d);
        checkpointed = truthy (get_or (codes "checkpointed") (flag false) d);
        provider_switched = truthy (get_or (codes "provider_switch") (flag false) d);
        canaries_passed = truthy (get_or (codes "canaries_passed") (flag false) d);
        automatic = truthy (get_or (codes "automatic") (flag false) d);
        steps_done = list_or_none (get (codes "steps_done") d);
      }

  -- `decide`, of a normalized signal.
  unfoldable pub decided : Signal → Decision
  decided item =
      if item.compaction_done
      then decide_by compacted
          (codes
            "compaction already occurred: FREEZE mutation until wake/reconciliation proves state")
          (excerpt item) (codes "blocker")
      else if item.polluted
      then decide_by polluted_history
          (codes "polluted history: RECOVER from the capsule, never summarize") (excerpt item)
          (codes "major")
      else if item.footprint_status =ᵗ codes "ROTATE_NOW_READ_ONLY"
      then decide_by read_only_bound
          (codes "footprint at the read-only bound: rotate now, read-only until rotated")
          (excerpt item) (codes "major")
      else if item.boundary
      then decide_by boundary_due
          (codes "role/phase boundary "
            ++ (py.repr (str item.transition)
                ++ codes ": rotate at the boundary with checkpoint, lease, capsule, acceptance"))
          (excerpt item) (codes "major")
      else if item.compaction_imminent
      then decide_by imminent_compact
          (codes "provider compaction imminent: rotate now before the tripwire fires")
          (excerpt item) (codes "major")
      else if item.tool_overflow
      then decide_by overflow_output (codes "tool-output overflow: rotate with a bounded capsule")
          (excerpt item) (codes "major")
      else planned item

  unfoldable pub decide : Value → Decision
  decide signal = decided (normalize signal)

  run : Value → Result Raised (Text × Text)
  run signal = ok (Ruled.names_of table (decide signal))

  unfoldable pub rotation_oracle : Oracle
  unfolding run
  rotation_oracle = record {
    stem = codes "context-rotation";
    stage = codes "Stage 48 #139";
    minimum = 10;
    rule_verdicts = Ruled.rule_verdicts table;
    key = codes "signal";
    run = run;
  }

  unfoldable pub validate_rotation_corpus : Value → Result Raised (List Flaw × List Value)
  unfolding rotation_oracle
  validate_rotation_corpus corpus = validate_corpus py rotation_oracle corpus
