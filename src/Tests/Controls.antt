-- ===== src/Tests/Controls.antt =====
-- Runs of the control plane, and witnesses for the theorems on it.
use agent_engineering_standa.Base.{◌≡◌, ◌↔◌, refl, true, false, [], ◌∷◌, codes, ◌=ᵗ◌, contains}
use agent_engineering_standa.Plain.{bare, get_or, truthy, show}
use agent_engineering_standa.Ruled
use agent_engineering_standa.ControlPlane.Types.{Observation, arm}
use agent_engineering_standa.ControlPlane.Decide.{
  evaluated, reported, checked, mergeable, first_lane, repeats, conclusion, decide_by,
}
use agent_engineering_standa.ControlPlane.Armed.{IsArmed, arms_iff}
use agent_engineering_standa.Tests.Leases.{python}

-- One required lane, which reports without a conclusion.
abbrev silent : Observation
silent = record {
  pr = codes "151";
  profile = codes "simple";
  lanes = codes "tests" ∷ [];
  required = codes "tests" ∷ [];
  conclusions = bare;
  tested_head = codes "abc";
  live_head = codes "abc";
  path_filtered = false;
  target_unsafe = false;
  pins_floating = false;
  permission_excess = false;
  evidence_complete = true;
  policy_ok = true;
  conflicted = false;
  draft = false;
  draft_allowed = false;
  owner_hold = false;
  needs_rearm = false;
  expected_oid = codes "abc";
  armed_oid = codes "abc";
}

arms_iff_example : ((evaluated python silent).verdict ≡ arm) ↔ IsArmed python silent
arms_iff_example = arms_iff python silent

-- It arms.
silent_arms : (evaluated python silent).verdict ≡ arm
unfolding evaluated reported checked mergeable first_lane repeats conclusion contains ◌=ᵗ◌ get_or
    truthy show decide_by Ruled.decide_by
silent_arms = refl
