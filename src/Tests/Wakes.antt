-- ===== src/Tests/Wakes.antt =====
-- Runs of the wake decisions, and witnesses for the theorems on them.
use agent_engineering_standa.Base.{◌≡◌, ◌↔◌, refl, true, false, []}
use agent_engineering_standa.Plain.{empty}
use agent_engineering_standa.Ruled
use agent_engineering_standa.ReplayWake.Types.{Observation, clean_resume}
use agent_engineering_standa.ReplayWake.Decide.{woken, replayed, decide_by}
use agent_engineering_standa.ReplayWake.Resumes.{IsResumable, resumes_iff}
use agent_engineering_standa.Tests.Leases.{python}

-- Nothing is recorded but that the phase is complete.
abbrev unrecorded : Observation
unrecorded = record {
  issue = [];
  branch = [];
  journal = empty;
  recorded_head = [];
  live_head = [];
  commit_present = false;
  phase_complete = true;
  checkpoint_state = [];
  capsule_head = [];
  journal_head = [];
  snapshot_ok = true;
  builder_family = [];
  recorded_family = [];
  github_reachable = true;
  pr_merged = false;
  duplicate_conflict = false;
}

resumes_iff_example :
    ((woken python unrecorded).outcome.verdict ≡ clean_resume) ↔ IsResumable unrecorded
resumes_iff_example = resumes_iff python unrecorded

-- It resumes.
unrecorded_resumes : (woken python unrecorded).outcome.verdict ≡ clean_resume
unfolding woken replayed decide_by Ruled.decide_by
unrecorded_resumes = refl
