-- ===== src/Effects/Executed.antt =====
-- tools/idempotent_effects.py: which attempts run, and the findings of the others.
use agent_engineering_standa.Base.{◌≡◌, ◌↔◌, true, false, contains, arith, =ᵗ_sound, =ᵗ_iff}
use agent_engineering_standa.Plain.{Python}
use agent_engineering_standa.Effects.Types.{execute, destructive_ops, dedupe_ops, Attempt}
use agent_engineering_standa.Effects.Decide.{
  refuse_for, nonempty, is_given, payload_changed, confirmed_and_keyed, unchanged, decision,
}

-- The attempt is not flagged as recorded, delivered before or crashed after its remote success; the
-- payload recorded under its fingerprint, if both payloads are given, is its own; its arguments, its
-- head and its result have not changed since the guard; a destructive operation is confirmed, and one
-- that needs a key has it. A recorded result, or a recorded fingerprint with the same payload, that
-- comes without the flag is no obstacle.
pub record IsFirst (py : Python) (item : Attempt) : Type 0 where
  pub unrecorded : item.has_recorded_result ≡ false
  pub undelivered : item.duplicate_delivery ≡ false
  pub unfinished : item.crashed_after_remote ≡ false
  pub same_payload : payload_changed py item ≡ false
  pub same_args : is_given item.guard_args ≡ true → py.dumps item.guard_args ≡ py.dumps item.args
  pub unmutated : item.result_mutated ≡ false
  pub same_head :
      nonempty item.guard_head ≡ true → nonempty item.head ≡ true → item.guard_head ≡ item.head
  pub confirmed : contains item.operation destructive_ops ≡ true → item.confirmed ≡ true
  pub keyed : contains item.operation dedupe_ops ≡ true → nonempty item.dedupe_key ≡ true

module _ (py : Python) (item : Attempt) where
  executed-IsFirst : (decision py item).verdict ≡ execute → IsFirst py item
  unfolding decision unchanged confirmed_and_keyed refuse_for
  executed-IsFirst h = record {
    unrecorded = ground arith;
    undelivered = ground arith;
    unfinished = ground arith;
    same_payload = ground arith;
    same_args = λ g. =ᵗ_sound _ _ (ground arith);
    unmutated = ground arith;
    same_head = λ g k. =ᵗ_sound _ _ (ground arith);
    confirmed = λ g. ground arith;
    keyed = λ g. ground arith;
  }

  IsFirst-executed : IsFirst py item → (decision py item).verdict ≡ execute
  unfolding decision unchanged confirmed_and_keyed refuse_for
  IsFirst-executed f = ground (
    arith,
    f.same_args,
    f.same_head,
    f.confirmed,
    f.keyed,
    =ᵗ_iff (py.dumps item.guard_args) (py.dumps item.args),
    =ᵗ_iff item.guard_head item.head,
  )

  -- An attempt is executed exactly when it is not flagged as recorded, as a duplicate delivery or as
  -- crashed after the remote success, its payload does not differ from the one recorded under its
  -- fingerprint, if both are given, its arguments are those of its guard, if that has any, its head
  -- is that of its guard, if both are given, its result is not mutated, a destructive operation is
  -- confirmed and a keyed one has its key.
  pub execute_iff : ((decision py item).verdict ≡ execute) ↔ IsFirst py item
  execute_iff = (executed-IsFirst, IsFirst-executed)
