-- ===== src/Queue/Valid/Transitions.antt =====
-- `op_transition`, `op_limit` and `op_handoff` of tools/queue_core.py keep a queue valid.
use agent_engineering_standa.Base.{
  ℕ, zero, suc, ◌≤◌, ◌≡◌, refl, ◌⊎◌, inl, inr, false, [], ◌∷◌, Text, ok, arith, length, take, ltb,
}
use agent_engineering_standa.Queue.Types.{State, Item, Status, active, pending}
use agent_engineering_standa.Queue.Fields.{note_limit}
use agent_engineering_standa.Queue.Validate.{validate_item, validate}
use agent_engineering_standa.Queue.Edit.{Change}
use agent_engineering_standa.Queue.Transition.{
  with_status, blocked_for, start, block, unblock, done, transition,
}
use agent_engineering_standa.Queue.Inversion.{block-eq-ok, unblock-eq-ok, done-eq-ok}
use agent_engineering_standa.Queue.Start.{start-eq-ok}
use agent_engineering_standa.Queue.Valid.{IsItem, IsValid, validate-IsValid, IsValid-validate}
use agent_engineering_standa.Queue.Valid.Changes.{change_item-IsValid, archive-IsValid}

with_status-IsItem : (t : Status) (n : ℕ) (i : Item) → IsItem n i → IsItem n (with_status t i)
unfolding validate_item
with_status-IsItem t n i h = h

length-take_le : (n : ℕ) (s : Text) → length (take n s) ≤ n
length-take_le zero s = omega arith
length-take_le (suc n) [] = omega arith
length-take_le (suc n) (c ∷ s) = omega (arith, length-take_le n s)

short_note : (r : Text) → ltb note_limit (length (take note_limit r)) ≡ false
short_note r = ground (arith, length-take_le note_limit r)

blocked_for-IsItem : (r : Text) (n : ℕ) (i : Item) → IsItem n i → IsItem n (blocked_for r i)
unfolding validate_item
blocked_for-IsItem r n i h = ground (arith, short_note r)

module _ (s : State) (id reason : Text) (c : Change) (v : IsValid s) where
  start-IsValid : start s id ≡ ok c → IsValid c.0
  start-IsValid h =
      let (i, found, passed, here, room, new) = start-eq-ok s id c h in
      rw new (
        change_item-IsValid id (with_status active) (λ j. refl) (λ j. refl)
          (with_status-IsItem active) s v)

  block-IsValid : block s id reason ≡ ok c → IsValid c.0
  block-IsValid h =
      let (i, r, ei, er, eb, new) = block-eq-ok s id reason c h in
      rw new
        (change_item-IsValid id (blocked_for r) (λ j. refl) (λ j. refl) (blocked_for-IsItem r) s v)

  unblock-IsValid : unblock s id ≡ ok c → IsValid c.0
  unblock-IsValid h =
      let (i, ei, eb, new) = unblock-eq-ok s id c h in
      rw new (
        change_item-IsValid id (with_status pending) (λ j. refl) (λ j. refl)
          (with_status-IsItem pending) s v)

  done-IsValid : done s id reason ≡ ok c → IsValid c.0
  done-IsValid h =
      let (i, ei, eb, new) = done-eq-ok s id reason c h in rw new (archive-IsValid s id i ei v)

transition-cases :
    (s : State) (id action reason : Text) (c : Change)
    → transition s id action reason ≡ ok c
    → (start s id ≡ ok c)
      ⊎ ((block s id reason ≡ ok c) ⊎ ((unblock s id ≡ ok c) ⊎ (done s id reason ≡ ok c)))
unfolding transition
transition-cases s id action reason c h = ground arith

-- A transition that is accepted on a queue that `validate` accepts leaves one that it accepts.
pub transition-validate :
    (s : State) (id action reason : Text) (c : Change)
    → validate s ≡ ok tt
    → transition s id action reason ≡ ok c
    → validate c.0 ≡ ok tt
transition-validate s id action reason c valid h =
    let v = validate-IsValid s valid in
    IsValid-validate c.0 (elim (transition-cases s id action reason c h) [
      | inl a ↦ start-IsValid s id reason c v a
      | inr (inl b) ↦ block-IsValid s id reason c v b
      | inr (inr (inl u)) ↦ unblock-IsValid s id reason c v u
      | inr (inr (inr d)) ↦ done-IsValid s id reason c v d
    ])
