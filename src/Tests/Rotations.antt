-- ===== src/Tests/Rotations.antt =====
-- Runs of the rotation decisions, and witnesses for the theorems on them.
use agent_engineering_standa.Base.{◌≡◌, ◌↔◌, refl, true, false, [], codes, ◌=ᵗ◌}
use agent_engineering_standa.Plain.{empty}
use agent_engineering_standa.Ruled
use agent_engineering_standa.ContextRotation.Types.{Signal, rotate}
use agent_engineering_standa.ContextRotation.Decide.{decided, decide_by}
use agent_engineering_standa.ContextRotation.Rotates.{IsRotation, rotates_iff}
use agent_engineering_standa.Tests.Leases.{python}

-- A boundary without a checkpoint.
abbrev boundary_signal : Signal
boundary_signal = record {
  transition = codes "Mold->Builder";
  footprint_status = [];
  boundary = true;
  compaction_imminent = false;
  compaction_done = false;
  polluted = false;
  tool_overflow = false;
  checkpointed = false;
  provider_switched = false;
  canaries_passed = false;
  automatic = true;
  steps_done = empty;
}

rotates_iff_example :
    ((decided python boundary_signal).verdict ≡ rotate) ↔ IsRotation boundary_signal
rotates_iff_example = rotates_iff python boundary_signal

-- It rotates.
boundary_rotates : (decided python boundary_signal).verdict ≡ rotate
unfolding decided ◌=ᵗ◌ decide_by Ruled.decide_by
boundary_rotates = refl
