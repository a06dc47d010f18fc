-- ===== src/ContextRotation/Rotates.antt =====
-- tools/context_rotation.py: which signals rotate.
use agent_engineering_standa.Base.{◌≡◌, ◌↔◌, Bool, true, false, ◌||◌, codes, ◌=ᵗ◌, arith}
use agent_engineering_standa.Plain.{Python}
use agent_engineering_standa.Ruled
use agent_engineering_standa.ContextRotation.Types.{rotate, Signal}
use agent_engineering_standa.ContextRotation.Decide.{decide_by, planned, decided}

-- A rotation is due whether or not there is a checkpoint.
abbrev pub is_due : Signal → Bool
is_due item =
    (item.footprint_status =ᵗ codes "ROTATE_NOW_READ_ONLY")
    || item.boundary
    || item.compaction_imminent
    || item.tool_overflow

pub record IsRotation (item : Signal) : Type 0 where
  pub uncompacted : item.compaction_done ≡ false
  pub unpolluted : item.polluted ≡ false
  pub saved : is_due item ≡ false → item.checkpointed ≡ true
  pub tried :
      is_due item ≡ false
      → item.provider_switched ≡ false
      → item.automatic ≡ true
      → item.canaries_passed ≡ true

module _ (py : Python) (item : Signal) where
  decided-IsRotation : (decided py item).verdict ≡ rotate → IsRotation item
  unfolding decided planned decide_by Ruled.decide_by
  decided-IsRotation h = record {
    uncompacted = ground arith;
    unpolluted = ground arith;
    saved = λ d. ground arith;
    tried = λ d p a. ground arith;
  }

  IsRotation-decided : IsRotation item → (decided py item).verdict ≡ rotate
  unfolding decided planned decide_by Ruled.decide_by
  IsRotation-decided r = ground (arith, r.saved, r.tried)

  -- A signal rotates exactly when no compaction is done, the history is not polluted, and either a
  -- rotation is due, or there is a checkpoint and the provider is switched, the mode is not automatic
  -- or the canaries have passed.
  pub rotates_iff : ((decided py item).verdict ≡ rotate) ↔ IsRotation item
  rotates_iff = (decided-IsRotation, IsRotation-decided)
