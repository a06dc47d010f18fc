-- ===== src/ControlPlane/Armed.antt =====
-- tools/control_plane.py: which observations arm auto-merge.
use agent_engineering_standa.Base.{
  ◌≡◌, ◌↔◌, refl, Bool, true, false, not, Option, none, some, List, [], ◌∷◌, Text, codes, ◌=ᵗ◌,
  =ᵗ_sound, contains, any, all, arith,
}
use agent_engineering_standa.Plain.{Python}
use agent_engineering_standa.Ruled
use agent_engineering_standa.ControlPlane.Types.{arm, Decision, Observation}
use agent_engineering_standa.ControlPlane.Decide.{
  nonempty, first_lane, repeats, is_stopped, is_failed, or_else, conclusion, missing, stopped,
  failed, some_lane, mergeable, checked, reported, evaluated, decide_by,
}

abbrev pub is_green : Text → Bool
is_green c = c =ᵗ codes "success"

-- Every required lane is reported, and at least one lane is; no lane is reported twice; every
-- conclusion is success, as is one that is missing; the tested head is the live one, and the armed
-- commit the expected one, where both are given; and no flag of the observation is against it.
pub record IsArmed (py : Python) (item : Observation) : Type 0 where
  pub complete : all (λ l. contains l item.lanes) item.required ≡ true
  pub once : repeats item.lanes ≡ false
  pub green : all (λ l. is_green (conclusion py item l)) item.lanes ≡ true
  pub some_report : some_lane item.lanes ≡ true
  pub current :
      nonempty item.tested_head ≡ true
      → nonempty item.live_head ≡ true
      → (item.tested_head =ᵗ item.live_head) ≡ true
  pub unfiltered : item.path_filtered ≡ false
  pub safe_target : item.target_unsafe ≡ false
  pub pinned : item.pins_floating ≡ false
  pub least : item.permission_excess ≡ false
  pub evidenced : item.evidence_complete ≡ true
  pub allowed : item.policy_ok ≡ true
  pub unconflicted : item.conflicted ≡ false
  pub ready : item.draft ≡ true → item.draft_allowed ≡ true
  pub unheld : item.owner_hold ≡ false
  pub already_armed : item.needs_rearm ≡ false
  pub exact :
      nonempty item.expected_oid ≡ true
      → nonempty item.armed_oid ≡ true
      → (item.expected_oid =ᵗ item.armed_oid) ≡ true

-- The loops.
first_lane-none : (p : Text → Bool) (ls : List Text) → first_lane p ls ≡ none → any p ls ≡ false
unfolding first_lane
first_lane-none p [] h = refl
first_lane-none p (l ∷ ls) h = ground (arith, first_lane-none p ls)

none-first_lane : (p : Text → Bool) (ls : List Text) → any p ls ≡ false → first_lane p ls ≡ none
unfolding first_lane
none-first_lane p [] h = refl
none-first_lane p (l ∷ ls) h = ground (arith, none-first_lane p ls)

any-all : (p : Text → Bool) (ls : List Text) → any (λ l. not (p l)) ls ≡ not (all p ls)
any-all p [] = refl
any-all p (l ∷ ls) = ground (arith, any-all p ls)

green_once : (c : Text) → is_green c ≡ true → is_stopped c ≡ false
unfolding ◌=ᵗ◌
green_once c h = let same = =ᵗ_sound c (codes "success") h in rw same refl

-- Lanes of which none is stopped and none failed are green, and conversely.
all_green :
    (f : Text → Text) (ls : List Text)
    → any (λ l. is_stopped (f l)) ls ≡ false
    → any (λ l. is_failed (f l)) ls ≡ false
    → all (λ l. is_green (f l)) ls ≡ true
all_green f [] s n = refl
all_green f (l ∷ ls) s n = ground (arith, all_green f ls)

green_all :
    (f : Text → Text) (ls : List Text)
    → all (λ l. is_green (f l)) ls ≡ true
    → (any (λ l. is_stopped (f l)) ls ≡ false) × (any (λ l. is_failed (f l)) ls ≡ false)
green_all f [] g = (refl, refl)
green_all f (l ∷ ls) g =
    let (s, n) = green_all f ls (ground arith) in (ground (arith, green_once (f l)), ground arith)

-- A decision on a lane that a loop picked out never arms.
or_else-arm :
    (o : Option Text) (f : Text → Decision) (d : Decision)
    → ((l : Text) → (f l).verdict ≡ arm → ⊥)
    → (or_else o f d).verdict ≡ arm
    → (o ≡ none) × (d.verdict ≡ arm)
or_else-arm none f d never h = (refl, h)
or_else-arm (some l) f d never h = absurd (never l h)

module _ (py : Python) (item : Observation) where
  missing_unarmed : (l : Text) → (missing py item l).verdict ≡ arm → ⊥
  unfolding missing decide_by Ruled.decide_by
  missing_unarmed l h = cc

  stopped_unarmed : (l : Text) → (stopped py item l).verdict ≡ arm → ⊥
  unfolding stopped decide_by Ruled.decide_by
  stopped_unarmed l h = ground arith

  failed_unarmed : (l : Text) → (failed py item l).verdict ≡ arm → ⊥
  unfolding failed decide_by Ruled.decide_by
  failed_unarmed l h = cc

  -- The decision that the lanes lead to.
  after_failed : Decision
  after_failed =
      or_else (first_lane (λ l. is_failed (conclusion py item l)) item.lanes) (failed py item)
        (mergeable item)

  after_stopped : Decision
  unfolding after_failed
  after_stopped =
      or_else (first_lane (λ l. is_stopped (conclusion py item l)) item.lanes) (stopped py item)
        (checked item after_failed)

  reported-arm :
      (reported py item).verdict ≡ arm
      → (repeats item.lanes ≡ false) × (after_stopped.verdict ≡ arm)
  unfolding reported decide_by Ruled.decide_by after_stopped after_failed
  reported-arm h = (ground arith, ground arith)

  arm-reported :
      repeats item.lanes ≡ false → after_stopped.verdict ≡ arm → (reported py item).verdict ≡ arm
  unfolding reported after_stopped after_failed
  arm-reported r h = rw r h

  -- The tests between the two loops, and those after them.
  record IsChecked : Type 0 where
    current :
        nonempty item.tested_head ≡ true
        → nonempty item.live_head ≡ true
        → (item.tested_head =ᵗ item.live_head) ≡ true
    unfiltered : item.path_filtered ≡ false
    safe_target : item.target_unsafe ≡ false
    pinned : item.pins_floating ≡ false
    least : item.permission_excess ≡ false
    evidenced : item.evidence_complete ≡ true
    allowed : item.policy_ok ≡ true

  checked-IsChecked :
      (rest : Decision) → (checked item rest).verdict ≡ arm → IsChecked × (rest.verdict ≡ arm)
  unfolding checked decide_by Ruled.decide_by
  checked-IsChecked rest h = (
    record {
      current = λ t l. ground arith;
      unfiltered = ground arith;
      safe_target = ground arith;
      pinned = ground arith;
      least = ground arith;
      evidenced = ground arith;
      allowed = ground arith;
    },
    ground arith,
  )

  IsChecked-checked :
      (rest : Decision) → IsChecked → rest.verdict ≡ arm → (checked item rest).verdict ≡ arm
  unfolding checked decide_by Ruled.decide_by
  IsChecked-checked rest c h = ground (arith, c.current)

  evaluated-IsArmed : (evaluated py item).verdict ≡ arm → IsArmed py item
  unfolding evaluated after_stopped after_failed mergeable decide_by Ruled.decide_by
  evaluated-IsArmed h =
      let (all_there, h1) = or_else-arm _ (missing py item) (reported py item) missing_unarmed h in
      let (once, h2) = reported-arm h1 in
      let (running, h3) =
        or_else-arm _ (stopped py item) (checked item after_failed) stopped_unarmed h2 in
      let (c, h4) = checked-IsChecked after_failed h3 in
      let (succeeding, h5) = or_else-arm _ (failed py item) (mergeable item) failed_unarmed h4 in
      let none_missing = first_lane-none _ item.required all_there in
      record {
        complete = ground (arith, any-all (λ l. contains l item.lanes) item.required);
        once = once;
        green =
            all_green (conclusion py item) item.lanes (first_lane-none _ item.lanes running)
              (first_lane-none _ item.lanes succeeding);
        some_report = ground arith;
        current = c.current;
        unfiltered = c.unfiltered;
        safe_target = c.safe_target;
        pinned = c.pinned;
        least = c.least;
        evidenced = c.evidenced;
        allowed = c.allowed;
        unconflicted = ground arith;
        ready = λ d. ground arith;
        unheld = ground arith;
        already_armed = ground arith;
        exact = λ e a. ground arith;
      }

  IsArmed-mergeable : IsArmed py item → (mergeable item).verdict ≡ arm
  unfolding mergeable decide_by Ruled.decide_by
  IsArmed-mergeable a =
      ground (arith, a.some_report, a.unconflicted, a.ready, a.unheld, a.already_armed, a.exact)

  IsArmed-evaluated : IsArmed py item → (evaluated py item).verdict ≡ arm
  unfolding evaluated after_stopped after_failed
  IsArmed-evaluated a =
      let (running, succeeding) = green_all (conclusion py item) item.lanes a.green in
      let complete = a.complete in
      let all_there : any (λ l. not (contains l item.lanes)) item.required ≡ false =
        ground (arith, any-all (λ l. contains l item.lanes) item.required) in
      let merged : after_failed.verdict ≡ arm =
        rw (none-first_lane _ item.lanes succeeding) (IsArmed-mergeable a) in
      let c : IsChecked = record {
        current = a.current;
        unfiltered = a.unfiltered;
        safe_target = a.safe_target;
        pinned = a.pinned;
        least = a.least;
        evidenced = a.evidenced;
        allowed = a.allowed;
      } in
      let unstopped : after_stopped.verdict ≡ arm =
        rw (none-first_lane _ item.lanes running) (IsChecked-checked after_failed c merged) in
      rw (none-first_lane _ item.required all_there) (arm-reported a.once unstopped)

  -- Auto-merge is armed exactly when every required lane is reported, some lane is, none is twice,
  -- and every reported lane has the conclusion success or no conclusion; the tested and the live head are the
  -- same if both are given, and the expected and the armed commit likewise; no path is filtered, no
  -- target unsafe, no pin floating, no permission in excess, the evidence is complete, the policy
  -- holds, nothing conflicts, a draft is allowed, the owner does not hold it and no re-arming is due.
  pub arms_iff : ((evaluated py item).verdict ≡ arm) ↔ IsArmed py item
  arms_iff = (evaluated-IsArmed, IsArmed-evaluated)
