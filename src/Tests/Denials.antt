-- ===== src/Tests/Denials.antt =====
-- Runs of the guard chain, and witnesses for the theorems on it.
use agent_engineering_standa.Base.{◌≡◌, ◌↔◌, refl, false, [], ◌∷◌, codes, ◌=ᵗ◌}
use agent_engineering_standa.Ruled
use agent_engineering_standa.DenyGuards.Types.{Request, allow, no_op}
use agent_engineering_standa.DenyGuards.Decide.{evaluated, settled, guarded, walk_layers, decide_by}
use agent_engineering_standa.DenyGuards.Layers.{some_denies, allows_later}
use agent_engineering_standa.DenyGuards.Allowed.{IsAllowed, permitted_iff}
use agent_engineering_standa.Tests.Leases.{python}

-- The repository denies, and the adapter does not enforce.
abbrev denied_request : Request
denied_request = record {
  action = codes "edit";
  path = codes "tools/queue_core.py";
  layers = (codes "admin", codes "NO_OP") ∷ (codes "repo", codes "DENY") ∷ [];
  hook_error = false;
  weakens_policy = false;
  base_policy = [];
  pr_policy = [];
  owner = [];
  owner_fresh = false;
  adapter_enforces = false;
  protected = false;
  owner_approved = false;
  harmless = false;
}

permitted_iff_example :
    ((evaluated python denied_request).verdict ≡ allow)
    ↔ IsAllowed denied_request
        (allows_later denied_request.layers)
        (some_denies denied_request.layers)
permitted_iff_example = permitted_iff python denied_request

-- The denial does not stand.
denied_no_op : (evaluated python denied_request).verdict ≡ no_op
unfolding evaluated settled guarded walk_layers ◌=ᵗ◌ decide_by Ruled.decide_by
denied_no_op = refl
