-- ===== src/DenyGuards/Decide.antt =====
-- tools/deny_guards.py: `_normalize_request`, `_excerpt`, `evaluate` and `validate_guard_corpus`.
use agent_engineering_standa.Base.{
  Bool, true, false, ◌&&◌, not, Option, none, some, List, [], ◌∷◌, ◌++◌, map, Text, codes, ◌=ᵗ◌,
  strip, take, ok, Result, if◌then◌else◌,
}
use agent_engineering_standa.Plain.{
  Value, flag, str, dict, Python, Raised, get, get_or, truthy, fields_of, show, show_or_empty,
}
use agent_engineering_standa.Plain.Findings.{Finding}
use agent_engineering_standa.Ruled
use agent_engineering_standa.Ruled.Corpus.{Oracle, Flaw, validate_corpus}
use agent_engineering_standa.DenyGuards.Types.{
  Rule, later_allow, hook_bug, self_weaken, base_disagreement, owner_replacement, adapter_gap,
  protected_path, ordinary_allow, table, all_layers, Request, Decision,
}

-- `_make_finding`
unfoldable pub make_finding : Rule → Text → Text → Text → Finding
make_finding rule message excerpt severity = Ruled.make_finding table rule message excerpt severity

-- `_decide`
unfoldable pub decide_by : Rule → Text → Text → Text → Decision
decide_by rule message tag severity = Ruled.decide_by table rule message tag severity

abbrev pub nonempty : Text → Bool
nonempty [] = false
nonempty (c ∷ s) = true

-- `_excerpt`, of a normalized request, which has no key `layer`.
unfoldable pub excerpt : Request → Text
excerpt item =
    if nonempty (strip item.action)
    then take 200 item.action
    else if nonempty (strip item.path)
    then take 200 item.path
    else codes "(guard)"

-- OWNER_LOGIN
abbrev pub owner_login : Text
owner_login = codes "kgsmith19"

abbrev pub denying : Text → Bool
denying v = v =ᵗ codes "DENY"

abbrev pub allowing : Text → Bool
allowing v = v =ᵗ codes "ALLOW"

-- How the loop over the layers ends: with a layer that allows what an earlier one denied, or with
-- the first layer that denied, if any.
pub data Walked : Type 0 where
  forced : Text → Text → Walked
  ended : Option Text → Walked

-- `denied_at` after a layer.
abbrev pub denied_after : Option Text → Text → Text → Option Text
denied_after (some first) layer v = some first
denied_after none layer v = if denying v then some layer else none

abbrev pub forced_or : Text → Text → Option Text → Walked → Walked
forced_or layer v none rest = rest
forced_or layer v (some first) rest = if allowing v then forced layer first else rest

-- The loop over the layers.
unfoldable pub walk_layers : Option Text → List (Text × Text) → Walked
walk_layers denied [] = ended denied
walk_layers denied ((layer, v) ∷ ls) =
    let now = denied_after denied layer v in forced_or layer v now (walk_layers now ls)

module _ (py : Python) where
  abbrev quoted : Text → Text
  quoted t = py.repr (str t)

  -- `str(v or "NO_OP")`
  unfoldable pub show_or_no_op : Value → Text
  show_or_no_op v = if truthy v then show py v else codes "NO_OP"

  -- `norm_layers[layer]`
  unfoldable pub layer_verdict : Value → Text → Text
  unfolding show_or_no_op
  layer_verdict (dict d) layer = show_or_no_op (get layer d)
  layer_verdict _ layer = codes "NO_OP"

  unfoldable pub normalize : Value → Request
  normalize request =
      let d = fields_of request in
      record {
        action = show py (get_or (codes "action") (str []) d);
        path = show_or_empty py (get_or (codes "path") (str []) d);
        layers = map (λ layer. (layer, layer_verdict (get (codes "layers") d) layer)) all_layers;
        hook_error = truthy (get_or (codes "hook_error") (flag false) d);
        weakens_policy = truthy (get_or (codes "pr_weakens_policy") (flag false) d);
        base_policy = show_or_empty py (get_or (codes "base_policy") (str []) d);
        pr_policy = show_or_empty py (get_or (codes "pr_policy") (str []) d);
        owner = show_or_empty py (get_or (codes "owner") (str []) d);
        owner_fresh = truthy (get_or (codes "owner_fresh") (flag false) d);
        adapter_enforces = truthy (get_or (codes "adapter_enforces") (flag true) d);
        protected = truthy (get_or (codes "protected") (flag false) d);
        owner_approved = truthy (get_or (codes "owner_approved") (flag false) d);
        harmless = truthy (get_or (codes "harmless") (flag false) d);
      }

  -- The last test, of the layer that denied.
  unfoldable pub chain_end : Request → Option Text → Decision
  chain_end item (some layer) =
      decide_by later_allow
        (codes "layer " ++ (quoted layer ++ codes " denied: DENY holds across the chain"))
        (excerpt item) (codes "blocker")
  chain_end item none =
      decide_by ordinary_allow
        (codes "harmless allowed edit: ALLOW low-friction (no semantic-guard cost)") (excerpt item)
        (codes "minor")

  -- From the test of a pull request that weakens its policy on.
  unfoldable pub guarded : Request → Option Text → Decision
  unfolding chain_end
  guarded item denied =
      if item.weakens_policy
      then decide_by self_weaken
          (codes "PR weakens its own policy: DENY (policy never self-certifies)") (excerpt item)
          (codes "blocker")
      else if nonempty item.base_policy
          && nonempty item.pr_policy
          && not (item.base_policy =ᵗ item.pr_policy)
      then decide_by base_disagreement
          (codes "base and PR disagree on policy: DENY until reconciled") (excerpt item)
          (codes "blocker")
      else if (item.owner =ᵗ owner_login) && item.owner_fresh
      then decide_by owner_replacement
          (codes "explicit owner replacement with fresh provenance: ALLOW") (excerpt item)
          (codes "minor")
      else if not item.adapter_enforces
      then decide_by adapter_gap
          (codes "provider adapter unable to enforce: NO_OP with escalation (never silent allow)")
          (excerpt item) (codes "major")
      else if item.protected && not item.owner_approved
      then decide_by protected_path
          (codes "protected path " ++ (quoted item.path ++ codes " without owner approval: DENY"))
          (excerpt item) (codes "blocker")
      else chain_end item denied

  -- What follows the loop over the layers.
  unfoldable pub settled : Request → Walked → Decision
  unfolding guarded
  settled item (forced layer first) =
      decide_by later_allow
        (codes "layer "
          ++ (quoted layer
              ++ (codes " FORCE_ALLOWs after layer "
                  ++ (quoted first ++ codes " denied: DENY (denial is monotonic)"))))
        (excerpt item) (codes "blocker")
  settled item (ended (some layer)) =
      if item.hook_error
      then decide_by hook_bug
          (codes "lower-trust hook error after layer "
            ++ (quoted layer ++ codes " denied: DENY (bugs never restore authority)"))
          (excerpt item) (codes "blocker")
      else guarded item (some layer)
  settled item (ended none) = guarded item none

  -- `evaluate`, of a normalized request.
  unfoldable pub evaluated : Request → Decision
  unfolding settled
  evaluated item = settled item (walk_layers none item.layers)

  unfoldable pub evaluate : Value → Decision
  evaluate request = evaluated (normalize request)

  run : Value → Result Raised (Text × Text)
  run request = ok (Ruled.names_of table (evaluate request))

  unfoldable pub guard_oracle : Oracle
  unfolding run
  guard_oracle = record {
    stem = codes "deny-guards";
    stage = codes "Stage 55a #146";
    minimum = 8;
    rule_verdicts = Ruled.rule_verdicts table;
    key = codes "request";
    run = run;
  }

  unfoldable pub validate_guard_corpus : Value → Result Raised (List Flaw × List Value)
  unfolding guard_oracle
  validate_guard_corpus corpus = validate_corpus py guard_oracle corpus
