-- ===== src/DenyGuards/Allowed.antt =====
-- tools/deny_guards.py: which requests are allowed.
use agent_engineering_standa.Base.{◌≡◌, ◌↔◌, refl, Bool, true, false, ◌&&◌, none, some, ◌=ᵗ◌, arith}
use agent_engineering_standa.Plain.{Python}
use agent_engineering_standa.Ruled
use agent_engineering_standa.DenyGuards.Types.{allow, Request}
use agent_engineering_standa.DenyGuards.Decide.{
  nonempty, owner_login, Walked, forced, ended, walk_layers, decide_by, chain_end, guarded, settled,
  evaluated,
}
use agent_engineering_standa.DenyGuards.Layers.{
  some_denies, allows_later, is_forced, is_denied, walk_layers-none,
}

abbrev pub is_replaced : Request → Bool
is_replaced item = (item.owner =ᵗ owner_login) && item.owner_fresh

-- Of a request, where `forced` says whether a layer allows after a denial and `denied` whether one
-- denies.
pub record IsAllowed (item : Request) (forced denied : Bool) : Type 0 where
  pub monotone : forced ≡ false
  pub unhooked : denied ≡ true → item.hook_error ≡ false
  pub strong : item.weakens_policy ≡ false
  pub agreed :
      nonempty item.base_policy ≡ true
      → nonempty item.pr_policy ≡ true
      → (item.base_policy =ᵗ item.pr_policy) ≡ true
  pub undenied : is_replaced item ≡ false → denied ≡ false
  pub enforced : is_replaced item ≡ false → item.adapter_enforces ≡ true
  pub approved : is_replaced item ≡ false → item.protected ≡ true → item.owner_approved ≡ true

module _ (py : Python) (item : Request) where
  settled-IsAllowed :
      (w : Walked)
      → (settled py item w).verdict ≡ allow
      → IsAllowed item (is_forced w) (is_denied w)
  unfolding settled guarded chain_end decide_by Ruled.decide_by
  settled-IsAllowed (forced layer first) h = cc
  settled-IsAllowed (ended (some layer)) h = record {
    monotone = refl;
    unhooked = λ d. ground arith;
    strong = ground arith;
    agreed = λ b p. ground arith;
    undenied = λ r. ground arith;
    enforced = λ r. ground arith;
    approved = λ r p. ground arith;
  }
  settled-IsAllowed (ended none) h = record {
    monotone = refl;
    unhooked = λ d. cc;
    strong = ground arith;
    agreed = λ b p. ground arith;
    undenied = λ r. refl;
    enforced = λ r. ground arith;
    approved = λ r p. ground arith;
  }

  IsAllowed-settled :
      (w : Walked)
      → IsAllowed item (is_forced w) (is_denied w)
      → (settled py item w).verdict ≡ allow
  unfolding settled guarded chain_end decide_by Ruled.decide_by
  IsAllowed-settled (forced layer first) a = let m = a.monotone in cc
  IsAllowed-settled (ended (some layer)) a =
      ground (arith, a.unhooked, a.agreed, a.undenied, a.enforced, a.approved)
  IsAllowed-settled (ended none) a = ground (arith, a.agreed, a.enforced, a.approved)

  -- A request is allowed exactly when no layer allows what an earlier one denied, no hook failed
  -- after a denial, the pull request neither weakens nor contradicts the policy, and either the owner
  -- replaced it afresh, or no layer denies, the adapter enforces, and a protected path is approved.
  pub permitted_iff :
      ((evaluated py item).verdict ≡ allow)
      ↔ IsAllowed item (allows_later item.layers) (some_denies item.layers)
  unfolding evaluated
  permitted_iff =
      let (f, d) = walk_layers-none item.layers in
      (
        λ h. rw (← f, ← d) (settled-IsAllowed (walk_layers none item.layers) h),
        λ a. IsAllowed-settled (walk_layers none item.layers) (rw (f, d) a),
      )
