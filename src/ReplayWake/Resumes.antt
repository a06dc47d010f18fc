-- ===== src/ReplayWake/Resumes.antt =====
-- tools/replay_wake.py: which observations resume.
use agent_engineering_standa.Base.{◌≡◌, ◌↔◌, true, false, codes, ◌=ᵗ◌, arith}
use agent_engineering_standa.Plain.{Python}
use agent_engineering_standa.Ruled
use agent_engineering_standa.ReplayWake.Types.{clean_resume, Observation}
use agent_engineering_standa.ReplayWake.Decide.{nonempty, differ, decide_by, replayed, woken}

pub record IsResumable (item : Observation) : Type 0 where
  pub reachable : item.github_reachable ≡ true
  pub unmerged : item.pr_merged ≡ false
  pub head : differ item.recorded_head item.live_head ≡ false
  pub present : nonempty item.recorded_head ≡ true → item.commit_present ≡ true
  pub phase : item.phase_complete ≡ true
  pub checkpoint :
      nonempty item.checkpoint_state ≡ true → (item.checkpoint_state =ᵗ codes "FINALIZE") ≡ true
  pub capsule : differ item.capsule_head item.journal_head ≡ false
  pub snapshot : item.snapshot_ok ≡ true
  pub family : differ item.builder_family item.recorded_family ≡ false
  pub unrepeated : item.duplicate_conflict ≡ false

module _ (py : Python) (item : Observation) where
  woken-IsResumable : (woken py item).outcome.verdict ≡ clean_resume → IsResumable item
  unfolding woken replayed decide_by Ruled.decide_by
  woken-IsResumable h = record {
    reachable = ground arith;
    unmerged = ground arith;
    head = ground arith;
    present = λ n. ground arith;
    phase = ground arith;
    checkpoint = λ n. ground arith;
    capsule = ground arith;
    snapshot = ground arith;
    family = ground arith;
    unrepeated = ground arith;
  }

  IsResumable-woken : IsResumable item → (woken py item).outcome.verdict ≡ clean_resume
  unfolding woken replayed decide_by Ruled.decide_by
  IsResumable-woken r = ground (arith, r.head, r.present, r.checkpoint, r.capsule, r.family)

  -- A session resumes exactly when GitHub is reachable, the pull request is not merged, the phase is
  -- complete, the snapshot is whole and no duplicate conflicts; the recorded and the live head, the
  -- heads of capsule and journal, and the two families are the same where both of a pair are given; a
  -- recorded commit is present; and the checkpoint's state, if it has one, is FINALIZE.
  pub resumes_iff : ((woken py item).outcome.verdict ≡ clean_resume) ↔ IsResumable item
  resumes_iff = (woken-IsResumable, IsResumable-woken)
