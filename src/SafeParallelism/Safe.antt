-- ===== src/SafeParallelism/Safe.antt =====
-- tools/safe_parallelism.py: which proposals are SAFE, and what every decision carries.
use agent_engineering_standa.Base.{◌≡◌, ◌↔◌, true, false, codes, ◌=ᵗ◌, arith}
use agent_engineering_standa.Plain.{Python}
use agent_engineering_standa.Ruled
use agent_engineering_standa.SafeParallelism.Types.{safe, Proposal}
use agent_engineering_standa.SafeParallelism.Decide.{decide_by, overlap, cleaned, decided}

-- The slices share nothing, no process is orphaned and everything is pushed; and either the branch
-- is a closed one that was squash-merged, or it is not closed, the workspace is there, the report
-- too, the classifier works and the leases are distinct.
pub record IsSafe (item : Proposal) : Type 0 where
  pub disjoint : overlap item.files_a item.files_b ≡ false
  pub unshared : item.schema_shared ≡ false
  pub independent : item.output_needed ≡ false
  pub reaped : item.orphaned ≡ false
  pub pushed : item.unpushed ≡ false
  pub open_squash : item.closed ≡ true → item.squash_merged ≡ true
  pub placed : item.closed ≡ false → (item.workspace =ᵗ codes "missing") ≡ false
  pub reported : item.closed ≡ false → item.report_present ≡ true
  pub classified : item.closed ≡ false → item.classifier_ok ≡ true
  pub leased : item.closed ≡ false → item.leases_distinct ≡ true

module _ (py : Python) (item : Proposal) where
  decided-IsSafe : (decided py item).verdict ≡ safe → IsSafe item
  unfolding decided cleaned decide_by Ruled.decide_by
  decided-IsSafe h = record {
    disjoint = ground arith;
    unshared = ground arith;
    independent = ground arith;
    reaped = ground arith;
    pushed = ground arith;
    open_squash = λ c. ground arith;
    placed = λ c. ground arith;
    reported = λ c. ground arith;
    classified = λ c. ground arith;
    leased = λ c. ground arith;
  }

  IsSafe-decided : IsSafe item → (decided py item).verdict ≡ safe
  unfolding decided cleaned decide_by Ruled.decide_by
  IsSafe-decided s = ground (arith, s.open_squash, s.placed, s.reported, s.classified, s.leased)

  -- A proposal is SAFE exactly when the slices share no file, schema or output, nothing is orphaned
  -- or unpushed, and either the branch is closed and squash-merged, or it is open, its workspace is
  -- not missing, its report is there, the classifier works and the leases are distinct.
  pub safe_iff : ((decided py item).verdict ≡ safe) ↔ IsSafe item
  safe_iff = (decided-IsSafe, IsSafe-decided)
