-- ===== src/Orchestrator/Decide.antt =====
-- tools/autonomous_orchestrator.py: `_normalize_tick`, `_excerpt`, `next`, `advance` and
-- `validate_orchestrator_corpus`.
use agent_engineering_standa.Base.{
  Bool, true, false, not, List, [], ◌∷◌, ◌++◌, Text, codes, strip, take, ok, ◌>>=◌, Result, ℤ, pos,
  ltℤ, if◌then◌else◌,
}
use agent_engineering_standa.Plain.{
  Value, number, flag, str, Python, Raised, get_or, truthy, fields_of, show, show_or_empty, int_of,
}
use agent_engineering_standa.Plain.Findings.{Finding}
use agent_engineering_standa.Ruled
use agent_engineering_standa.Ruled.Corpus.{Oracle, Flaw, validate_corpus}
use agent_engineering_standa.Orchestrator.Types.{
  Rule, duplicate_event, crash_around, double_worker, stale_head, no_ready_work, owner_hold,
  provider_down, budget_exhausted, deadlock_found, review_finding, merge_cleanup, milestone_done,
  clean_next, wait, table, Tick, OrchestratorDecision,
}

-- `_make_finding`
unfoldable pub make_finding : Rule → Text → Text → Text → Finding
make_finding rule message excerpt severity = Ruled.make_finding table rule message excerpt severity

-- `_decide`
unfoldable pub decide_by : Rule → Text → Text → Text → Text → OrchestratorDecision
decide_by rule message tag action severity = record {
  outcome = Ruled.decide_by table rule message tag severity;
  action = action;
}

abbrev pub nonempty : Text → Bool
nonempty [] = false
nonempty (c ∷ s) = true

-- `n <= 0`
abbrev pub none_left : ℤ → Bool
none_left n = ltℤ n (pos 1)

-- `" (%s)" % cycle if cycle else ""`
abbrev pub named_cycle : Text → Text
named_cycle cycle = if nonempty cycle then codes " (" ++ (cycle ++ codes ")") else []

-- `_excerpt`, of a normalized tick, which has no key `issue`.
unfoldable pub excerpt : Tick → Text
excerpt item =
    if nonempty (strip item.slice)
    then take 200 item.slice
    else if nonempty (strip item.milestone)
    then take 200 item.milestone
    else codes "(orchestrator)"

-- `action or "bounded-next"`
abbrev pub action_or : Text → Text
action_or action = if nonempty action then action else codes "bounded-next"

-- From the test of a deadlock on.
unfoldable pub dispatched : Tick → OrchestratorDecision
dispatched item =
    if item.deadlocked
    then decide_by deadlock_found
        (codes "slices wait on each other"
          ++ (named_cycle item.deadlock_cycle ++ codes ": ESCALATE with the cycle named"))
        (excerpt item) ([]) (codes "blocker")
    else if item.review_repair
    then decide_by review_finding
        (codes "validated review finding needs repair: NEXT is the one bounded repair action")
        (excerpt item) (codes "bounded-repair") (codes "major")
    else if item.merged_pending_cleanup
    then decide_by merge_cleanup (codes "merged work pending cleanup: NEXT is merge cleanup")
        (excerpt item) (codes "merge-cleanup") (codes "minor")
    else if item.milestone_complete
    then decide_by milestone_done (codes "milestone complete: COMPLETE, hand to the Release Mold")
        (excerpt item) (codes "release-handoff") (codes "minor")
    else if not item.ready_work
    then decide_by no_ready_work (codes "nothing authorized and ready: WAIT") (excerpt item) ([])
        (codes "minor")
    else decide_by clean_next
        (codes "authorized ready work: NEXT is one bounded action inside existing authorization")
        (excerpt item) (action_or item.action) (codes "minor")

-- `next`, of a normalized tick.
unfoldable pub ticked : Tick → OrchestratorDecision
ticked item =
    if item.duplicate_dispatch
    then decide_by duplicate_event
        (codes "duplicate dispatch event: already dispatched, never double-dispatch") (excerpt item)
        ([]) (codes "minor")
    else if item.crashed
    then decide_by crash_around
        (codes "crash around dispatch: RECOVER via replay and reconcile before dispatching")
        (excerpt item) ([]) (codes "major")
    else if item.second_worker
    then decide_by double_worker (codes "second worker on the slice: RECOVER via lease fencing")
        (excerpt item) ([]) (codes "blocker")
    else if item.head_moved
    then decide_by stale_head (codes "head moved: RECOVER via reconcile before dispatching")
        (excerpt item) ([]) (codes "major")
    else if item.held
    then decide_by owner_hold (codes "owner hold set: ESCALATE, never bypass") (excerpt item) ([])
        (codes "blocker")
    else if not item.provider_healthy
    then decide_by provider_down (codes "provider/extension unhealthy: WAIT for health")
        (excerpt item) ([]) (codes "major")
    else if none_left item.budget_left
    then decide_by budget_exhausted (codes "budget exhausted: ESCALATE for owner scope")
        (excerpt item) ([]) (codes "major")
    else dispatched item

-- `advance` after the call of `next`, with the excerpt of the tick.
unfoldable pub applied : Bool → Text → OrchestratorDecision → OrchestratorDecision
applied true tag d = d
applied false tag d = record {
  outcome = record {
    verdict = wait;
    rule = clean_next;
    findings =
        d.outcome.findings
        ++ (make_finding clean_next
              (codes
                "advance --apply refused: canaries have not passed; dry-run only in this stage")
              tag (codes "blocker")
            ∷ []);
  };
  action = [];
}

module _ (py : Python) where
  unfoldable pub normalize : Value → Result Raised Tick
  normalize tick =
      let d = fields_of tick in
      do
        budget ← int_of py (get_or (codes "budget_left") (number (pos 1)) d)
        ok (record {
          slice = show py (get_or (codes "slice") (str []) d);
          milestone = show_or_empty py (get_or (codes "milestone") (str []) d);
          duplicate_dispatch = truthy (get_or (codes "duplicate_dispatch") (flag false) d);
          crashed = truthy (get_or (codes "crashed") (flag false) d);
          second_worker = truthy (get_or (codes "second_worker") (flag false) d);
          head_moved = truthy (get_or (codes "head_moved") (flag false) d);
          ready_work = truthy (get_or (codes "ready_work") (flag false) d);
          held = truthy (get_or (codes "owner_hold") (flag false) d);
          provider_healthy = truthy (get_or (codes "provider_healthy") (flag true) d);
          budget_left = budget;
          deadlocked = truthy (get_or (codes "deadlocked") (flag false) d);
          deadlock_cycle = show_or_empty py (get_or (codes "deadlock_cycle") (str []) d);
          review_repair = truthy (get_or (codes "review_repair") (flag false) d);
          merged_pending_cleanup = truthy (get_or (codes "merged_pending_cleanup") (flag false) d);
          milestone_complete = truthy (get_or (codes "milestone_complete") (flag false) d);
          action = show_or_empty py (get_or (codes "action") (str []) d);
        })

  unfoldable pub next : Value → Result Raised OrchestratorDecision
  next tick = do item ← normalize tick; ok (ticked item)

  unfoldable pub advance : Value → Bool → Result Raised OrchestratorDecision
  advance tick dry_run = do item ← normalize tick; ok (applied dry_run (excerpt item) (ticked item))

  run : Value → Result Raised (Text × Text)
  run tick = do d ← next tick; ok (Ruled.names_of table d.outcome)

  unfoldable pub orchestrator_oracle : Oracle
  unfolding run
  orchestrator_oracle = record {
    stem = codes "autonomous-orchestrator";
    stage = codes "Stage 50 #141";
    minimum = 13;
    rule_verdicts = Ruled.rule_verdicts table;
    key = codes "tick";
    run = run;
  }

  unfoldable pub validate_orchestrator_corpus : Value → Result Raised (List Flaw × List Value)
  unfolding orchestrator_oracle
  validate_orchestrator_corpus corpus = validate_corpus py orchestrator_oracle corpus
