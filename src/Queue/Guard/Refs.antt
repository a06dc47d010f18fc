-- ===== src/Queue/Guard/Refs.antt =====
-- tools/queue_core.py, `guard_claim` and `guard_pr`: what they let through.
use agent_engineering_standa.Base.{
  ◌≡◌, ◌≢◌, refl, ◌↔◌, ◌⊎◌, inl, inr, Bool, true, false, none, some, List, [], ◌∷◌, Text, contains,
  ok, All, Any, arith, bind-eq-ok, guard, Option-cases, Bool-cases,
}
use agent_engineering_standa.Queue.Types.{Item, State, off_queue}
use agent_engineering_standa.Queue.Query.{active_items}
use agent_engineering_standa.Queue.Guard.{
  item_refs, is_owned, off_refs, guard_pr, normalize_ref, guard_claim, first_with, claimable,
  is_nothing, claimed,
}

nothing_left : (xs : List Text) → guard (is_nothing xs) (off_queue xs) ≡ ok tt → xs ≡ []
nothing_left [] h = refl
nothing_left (x ∷ xs) h = absurd (cc)

module _ (lower : Text → Text) where
  -- The reference is among those of the item.
  abbrev pub IsOn : Text → Item → Type 0
  IsOn ref i = contains ref (item_refs lower i) ≡ true

  owned-Any :
      (items : List Item) (ref : Text) → is_owned lower items ref ≡ true → Any (IsOn ref) items
  unfolding is_owned
  owned-Any [] ref h = absurd (cc)
  owned-Any (i ∷ is) ref h = ground (arith, owned-Any is ref)

  Any-owned :
      (items : List Item) (ref : Text) → Any (IsOn ref) items → is_owned lower items ref ≡ true
  unfolding is_owned
  Any-owned [] ref h = absurd h
  Any-owned (i ∷ is) ref h = ground (arith, Any-owned is ref)

  none_off :
      (state : State) (refs : List Text)
      → off_refs lower state refs ≡ []
      → All (λ ref. Any (IsOn ref) (active_items state.items)) refs
  none_off state [] h = tt
  none_off state (r ∷ rs) h = elim (Bool-cases (is_owned lower (active_items state.items) r)) [
    | inl e ↦ (owned-Any (active_items state.items) r e, none_off state rs (ground arith))
    | inr e ↦ absurd (ground arith)
  ]

  on_none_off :
      (state : State) (refs : List Text)
      → All (λ ref. Any (IsOn ref) (active_items state.items)) refs
      → off_refs lower state refs ≡ []
  on_none_off state [] h = refl
  on_none_off state (r ∷ rs) (on, rest) =
      rw (Any-owned (active_items state.items) r on) (on_none_off state rs rest)

  -- A pull request passes exactly when it is exempt, or it closes an Issue and every Issue that it
  -- closes is on an active item.
  pub guard_pr_iff :
      (state : State) (refs : List Text) (exempt : Bool)
      → (guard_pr lower state refs exempt ≡ ok tt) ↔ (
          (exempt ≡ true)
          ⊎ ((refs ≢ []) × All (λ ref. Any (IsOn ref) (active_items state.items)) refs))
  unfolding guard_pr
  guard_pr_iff state refs true = (λ h. inl refl, λ h. refl)
  guard_pr_iff state [] false = (λ h. absurd (cc), λ h. absurd (ground arith))
  guard_pr_iff state (r ∷ rs) false = (
    λ h. inr (λ e. cc, none_off state (r ∷ rs) (emptied h)),
    λ h. elim h [ inl e ↦ absurd (cc) | inr p ↦ passes (on_none_off state (r ∷ rs) p.1) ],
  )
    where
      emptied : guard_pr lower state (r ∷ rs) false ≡ ok tt → off_refs lower state (r ∷ rs) ≡ []
      emptied h = nothing_left (off_refs lower state (r ∷ rs)) h

      passes : off_refs lower state (r ∷ rs) ≡ [] → guard_pr lower state (r ∷ rs) false ≡ ok tt
      passes e = rw e refl

  first_with-Any :
      (ref : Text) (items : List Item) (i : Item)
      → first_with lower ref items ≡ some i
      → Any (IsOn ref) items
  unfolding first_with
  first_with-Any ref [] i h = absurd (cc)
  first_with-Any ref (j ∷ js) i h = ground (arith, first_with-Any ref js i)

  first_with-none :
      (ref : Text) (items : List Item)
      → first_with lower ref items ≡ none
      → Any (IsOn ref) items
      → ⊥
  unfolding first_with
  first_with-none ref [] h a = a
  first_with-none ref (j ∷ js) h a = ground (arith, first_with-none ref js)

  first_with-some :
      (ref : Text) (items : List Item)
      → Any (IsOn ref) items
      → (i : Item) × (first_with lower ref items ≡ some i)
  first_with-some ref items on = elim (Option-cases (first_with lower ref items)) [
    | inl e ↦ absurd (first_with-none ref items e on)
    | inr found ↦ found
  ]

  -- A claim is let through exactly when its reference can be normalized and is then on an active
  -- item or on the next one.
  pub guard_claim_iff :
      (state : State) (ref : Text)
      → ((i : Item) × (guard_claim lower state ref ≡ ok i))
        ↔ ((r : Text) × (normalize_ref lower ref none ≡ ok r) × Any (IsOn r) (claimable state))
  unfolding guard_claim
  guard_claim_iff state ref = (
    λ (i, h).
        let (r, e, rest) = bind-eq-ok (normalize_ref lower ref none) _ h in (r, e, found r i rest),
    λ (r, e, on). let (i, f) = first_with-some r (claimable state) on in (i, rw (e, f) refl),
  )
    where
      found :
          (r : Text) (i : Item)
          → claimed r (first_with lower r (claimable state)) ≡ ok i
          → Any (IsOn r) (claimable state)
      found r i h = elim (Option-cases (first_with lower r (claimable state))) [
        | inl e ↦ absurd (ground arith)
        | inr (j, e) ↦ first_with-Any r (claimable state) j e
      ]
