-- ===== src/ControlPlane/Decide.antt =====
-- tools/control_plane.py: `_normalize_observation`, `_excerpt`, `evaluate` and
-- `validate_control_corpus`.
use agent_engineering_standa.Base.{
  Bool, true, false, ◌&&◌, ◌||◌, not, Option, none, some, List, [], ◌∷◌, ◌++◌, Text, codes, ◌=ᵗ◌,
  contains, strip, take, ok, Result, if◌then◌else◌,
}
use agent_engineering_standa.Plain.{
  Value, Values, empty, more, number, flag, str, array, dict, Fields, bare, Python, Raised, get,
  get_or, truthy, fields_of, show, show_or_empty,
}
use agent_engineering_standa.Plain.Findings.{Finding}
use agent_engineering_standa.Ruled
use agent_engineering_standa.Ruled.Corpus.{Oracle, Flaw, validate_corpus}
use agent_engineering_standa.ControlPlane.Types.{
  Rule, missing_lane, duplicate_lane, skipped_lane, neutral_lane, cancelled_lane, stale_lane,
  path_filter, unsafe_target, floating_pin, excess_permission, head_moved, missing_evidence,
  policy_fail, merge_conflict, draft_hold, rearm, clean_arm, arm, table, Observation, Decision,
}

-- `_make_finding`
unfoldable pub make_finding : Rule → Text → Text → Text → Finding
make_finding rule message excerpt severity = Ruled.make_finding table rule message excerpt severity

-- `_decide`
unfoldable pub decide_by : Rule → Text → Text → Text → Decision
decide_by rule message tag severity = Ruled.decide_by table rule message tag severity

abbrev pub nonempty : Text → Bool
nonempty [] = false
nonempty (c ∷ s) = true

-- `_excerpt`, of a normalized observation, which has no key `head`.
unfoldable pub excerpt : Observation → Text
excerpt item =
    if nonempty (strip item.pr)
    then take 200 item.pr
    else if nonempty (strip item.profile)
    then take 200 item.profile
    else codes "(control)"

-- `isinstance(v, (str, int, float))`
abbrev pub is_scalar : Value → Bool
is_scalar (str s) = true
is_scalar (number n) = true
is_scalar (flag b) = true
is_scalar _ = false

-- `dict(v) if isinstance(v, dict) else {}`
abbrev pub dict_or_none : Value → Fields
dict_or_none (dict d) = d
dict_or_none _ = bare

-- The first text that a test picks out.
unfoldable pub first_lane : (Text → Bool) → List Text → Option Text
first_lane p [] = none
first_lane p (l ∷ ls) = let rest = first_lane p ls in if p l then some l else rest

-- `len(set(lanes)) != len(lanes)`
unfoldable pub repeats : List Text → Bool
repeats [] = false
repeats (l ∷ ls) = contains l ls || repeats ls

-- A conclusion that stops the evaluation before the other tests.
abbrev pub is_stopped : Text → Bool
is_stopped c = (c =ᵗ codes "skipped") || (c =ᵗ codes "neutral") || (c =ᵗ codes "cancelled")

-- `conclusion not in ("success", "skipped", "neutral", "cancelled")`
abbrev pub is_failed : Text → Bool
is_failed c = not ((c =ᵗ codes "success") || is_stopped c)

-- A decision on the text that a loop picked out, or what follows the loop.
abbrev pub or_else : Option Text → (Text → Decision) → Decision → Decision
or_else none f d = d
or_else (some l) f d = f l

module _ (py : Python) where
  abbrev pub quoted : Text → Text
  quoted t = py.repr (str t)

  unfoldable pub scalars : Values → List Text
  scalars empty = []
  scalars (more v vs) = let rest = scalars vs in if is_scalar v then show py v ∷ rest else rest

  unfoldable pub shown : Values → List Text
  shown empty = []
  shown (more v vs) = show py v ∷ shown vs

  unfoldable pub lanes_of : Value → List Text
  unfolding scalars
  lanes_of (array vs) = scalars vs
  lanes_of _ = []

  unfoldable pub required_of : Value → List Text
  unfolding shown
  required_of (array vs) = shown vs
  required_of _ = []

  unfoldable pub normalize : Value → Observation
  normalize observation =
      let d = fields_of observation in
      record {
        pr = show py (get_or (codes "pr") (str []) d);
        profile = show_or_empty py (get_or (codes "profile") (str []) d);
        lanes = lanes_of (get (codes "lanes") d);
        required = required_of (get (codes "required") d);
        conclusions = dict_or_none (get (codes "conclusions") d);
        tested_head = show_or_empty py (get_or (codes "tested_head") (str []) d);
        live_head = show_or_empty py (get_or (codes "live_head") (str []) d);
        path_filtered = truthy (get_or (codes "path_filtered") (flag false) d);
        target_unsafe = truthy (get_or (codes "pr_target_unsafe") (flag false) d);
        pins_floating = truthy (get_or (codes "pins_floating") (flag false) d);
        permission_excess = truthy (get_or (codes "excess_permission") (flag false) d);
        evidence_complete = truthy (get_or (codes "evidence_complete") (flag true) d);
        policy_ok = truthy (get_or (codes "policy_ok") (flag true) d);
        conflicted = truthy (get_or (codes "conflicted") (flag false) d);
        draft = truthy (get_or (codes "draft") (flag false) d);
        draft_allowed = truthy (get_or (codes "draft_allowed") (flag false) d);
        owner_hold = truthy (get_or (codes "owner_hold") (flag false) d);
        needs_rearm = truthy (get_or (codes "needs_rearm") (flag false) d);
        expected_oid = show_or_empty py (get_or (codes "expected_oid") (str []) d);
        armed_oid = show_or_empty py (get_or (codes "armed_oid") (str []) d);
      }

  -- `str(item["conclusions"].get(lane, "success") or "success")`
  unfoldable pub conclusion : Observation → Text → Text
  conclusion item lane =
      let v = get_or lane (str (codes "success")) item.conclusions in
      if truthy v then show py v else codes "success"

  unfoldable pub missing : Observation → Text → Decision
  missing item lane =
      decide_by missing_lane (codes "required lane " ++ (quoted lane ++ codes " missing: REFUSE"))
        (excerpt item) (codes "blocker")

  unfoldable pub stopped : Observation → Text → Decision
  unfolding conclusion
  stopped item lane =
      if conclusion item lane =ᵗ codes "skipped"
      then decide_by skipped_lane (codes "lane " ++ (quoted lane ++ codes " skipped: REFUSE"))
          (excerpt item) (codes "blocker")
      else if conclusion item lane =ᵗ codes "neutral"
      then decide_by neutral_lane
          (codes "lane "
            ++ (quoted lane ++ codes " concluded neutral: REFUSE (lanes report success/failure)"))
          (excerpt item) (codes "blocker")
      else decide_by cancelled_lane
          (codes "lane " ++ (quoted lane ++ codes " cancelled: REFUSE and rerun")) (excerpt item)
          (codes "major")

  unfoldable pub failed : Observation → Text → Decision
  failed item lane =
      decide_by policy_fail
        (codes "lane "
          ++ (quoted lane
              ++ (codes " concluded " ++ (quoted (conclusion item lane) ++ codes ": REFUSE"))))
        (excerpt item) (codes "blocker")

abbrev pub some_lane : List Text → Bool
some_lane [] = false
some_lane (l ∷ ls) = true

-- From the test of a merge conflict on.
unfoldable pub mergeable : Observation → Decision
mergeable item =
    if item.conflicted
    then decide_by merge_conflict (codes "merge conflict present: HOLD") (excerpt item)
        (codes "major")
    else if item.draft && not item.draft_allowed || item.owner_hold
    then decide_by draft_hold (codes "unauthorized draft or owner hold: HOLD") (excerpt item)
        (codes "major")
    else if item.needs_rearm
    then decide_by rearm (codes "auto-merge needs re-arm on the exact head: HOLD with re-arm")
        (excerpt item) (codes "major")
    else if nonempty item.expected_oid
        && nonempty item.armed_oid
        && not (item.expected_oid =ᵗ item.armed_oid)
    then decide_by head_moved (codes "armed OID != expected OID: REFUSE and re-arm") (excerpt item)
        (codes "blocker")
    else if not (some_lane item.lanes)
    then decide_by missing_lane (codes "no lanes reported: REFUSE") (excerpt item) (codes "blocker")
    else record {
      verdict = arm;
      rule = clean_arm;
      findings =
          make_finding clean_arm (codes "all lanes green at the exact head with expected OIDs: ARM")
            (excerpt item) (codes "minor")
          ∷ [];
    }

-- From the test of the tested head on, with what follows the test of the policy.
unfoldable pub checked : Observation → Decision → Decision
checked item rest =
    if nonempty item.tested_head
      && nonempty item.live_head
      && not (item.tested_head =ᵗ item.live_head)
    then decide_by stale_lane (codes "tested SHA != current head: REFUSE and re-verify")
        (excerpt item) (codes "blocker")
    else if item.path_filtered
    then decide_by path_filter (codes "path filter hides a lane: REFUSE") (excerpt item)
        (codes "blocker")
    else if item.target_unsafe
    then decide_by unsafe_target (codes "unsafe pull_request_target with PR code: REFUSE")
        (excerpt item) (codes "blocker")
    else if item.pins_floating
    then decide_by floating_pin (codes "floating action pin: REFUSE and pin full-SHA")
        (excerpt item) (codes "blocker")
    else if item.permission_excess
    then decide_by excess_permission (codes "worker lane above least privilege: REFUSE")
        (excerpt item) (codes "blocker")
    else if not item.evidence_complete
    then decide_by missing_evidence (codes "screenshot/digest evidence missing: REFUSE")
        (excerpt item) (codes "major")
    else if not item.policy_ok
    then decide_by policy_fail (codes "standards-policy failure: REFUSE") (excerpt item)
        (codes "blocker")
    else rest

module _ (py : Python) where
  -- From the test of repeated lanes on.
  unfoldable pub reported : Observation → Decision
  reported item =
      if repeats item.lanes
      then decide_by duplicate_lane (codes "duplicate lane report: REFUSE") (excerpt item)
          (codes "blocker")
      else or_else (first_lane (λ l. is_stopped (conclusion py item l)) item.lanes)
          (stopped py item)
          (checked item (
            or_else (first_lane (λ l. is_failed (conclusion py item l)) item.lanes) (failed py item)
              (mergeable item)))

  -- `evaluate`, of a normalized observation.
  unfoldable pub evaluated : Observation → Decision
  unfolding reported
  evaluated item =
      or_else (first_lane (λ l. not (contains l item.lanes)) item.required) (missing py item)
        (reported item)

  unfoldable pub evaluate : Value → Decision
  evaluate observation = evaluated (normalize py observation)

  run : Value → Result Raised (Text × Text)
  run observation = ok (Ruled.names_of table (evaluate observation))

  unfoldable pub control_oracle : Oracle
  unfolding run
  control_oracle = record {
    stem = codes "control-plane";
    stage = codes "Stage 60a #151";
    minimum = 17;
    rule_verdicts = Ruled.rule_verdicts table;
    key = codes "observation";
    run = run;
  }

  unfoldable pub validate_control_corpus : Value → Result Raised (List Flaw × List Value)
  unfolding control_oracle
  validate_control_corpus corpus = validate_corpus py control_oracle corpus
