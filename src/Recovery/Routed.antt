-- ===== src/Recovery/Routed.antt =====
-- tools/recovery_loop.py: the route, the class and the findings of every triage.
use agent_engineering_standa.Base.{
  ◌≡◌, ◌≢◌, refl, inl, inr, Bool, true, ◌&&◌, not, [], ◌∷◌, Text, codes, ◌=ᵗ◌, contains, ok, All,
  length, strip, bind-eq-ok, if◌then◌else◌, Bool-cases,
}
use agent_engineering_standa.Plain.{Value, Python}
use agent_engineering_standa.Plain.Findings.{plain, severities, repairs-plain}
use agent_engineering_standa.Plain.Sound.{either_way, known_major, known_minor, known_blocker}
use agent_engineering_standa.Recovery.Types.{
  unknown, classes, repair, retry_bounded, recover_capsule, Rule, blind_rerun, non_idempotent,
  partial_green, misclassified, exhausted_budget, infra_as_product, unknown_mutation, unowned_lane,
  historical_replay, clean_triage, rule_name, rules, route_of, Report, Decision, validate_finding,
}
use agent_engineering_standa.Recovery.Triage.{
  nonempty, none_left, filed, actual, class_of, make_finding, decide, normalize, owned, classified,
  triaged, triage,
}

-- The route is that of the rule, and neither of the two that no rule has; the class is one of
-- CLASSES; and there is one finding, which is valid.
pub record IsRouted (d : Decision) : Type 0 where
  pub routed : d.route ≡ route_of d.rule
  pub unretried : d.route ≢ retry_bounded
  pub uncapsuled : d.route ≢ recover_capsule
  pub classed : contains d.failure_class classes ≡ true
  pub valid : All (λ f. validate_finding (plain f) ≡ []) d.findings
  pub single : length d.findings ≡ 1

rule-known : (r : Rule) → contains (rule_name r) rules ≡ true
unfolding contains ◌=ᵗ◌
rule-known blind_rerun = refl
rule-known non_idempotent = refl
rule-known partial_green = refl
rule-known misclassified = refl
rule-known exhausted_budget = refl
rule-known infra_as_product = refl
rule-known unknown_mutation = refl
rule-known unowned_lane = refl
rule-known historical_replay = refl
rule-known clean_triage = refl

route_of-unretried : (r : Rule) → route_of r ≢ retry_bounded
unfolding route_of
route_of-unretried blind_rerun h = cc
route_of-unretried non_idempotent h = cc
route_of-unretried partial_green h = cc
route_of-unretried misclassified h = cc
route_of-unretried exhausted_budget h = cc
route_of-unretried infra_as_product h = cc
route_of-unretried unknown_mutation h = cc
route_of-unretried unowned_lane h = cc
route_of-unretried historical_replay h = cc
route_of-unretried clean_triage h = cc

route_of-uncapsuled : (r : Rule) → route_of r ≢ recover_capsule
unfolding route_of
route_of-uncapsuled blind_rerun h = cc
route_of-uncapsuled non_idempotent h = cc
route_of-uncapsuled partial_green h = cc
route_of-uncapsuled misclassified h = cc
route_of-uncapsuled exhausted_budget h = cc
route_of-uncapsuled infra_as_product h = cc
route_of-uncapsuled unknown_mutation h = cc
route_of-uncapsuled unowned_lane h = cc
route_of-uncapsuled historical_replay h = cc
route_of-uncapsuled clean_triage h = cc

unknown-known : contains unknown classes ≡ true
unfolding contains ◌=ᵗ◌
unknown-known = refl

kept_or : (p : Text → Bool) (c d : Text) → p d ≡ true → p (if p c then c else d) ≡ true
kept_or p c d h = elim (Bool-cases (p c)) [ inl e ↦ rw e e | inr e ↦ rw e h ]

class_of-known : (a b : Text) → contains (class_of a b) classes ≡ true
unfolding class_of
class_of-known a b = kept_or (λ c. contains c classes) _ unknown unknown-known

decide-IsRouted :
    (r : Rule) (failure_class message tag severity : Text)
    → contains failure_class classes ≡ true
    → contains severity severities ≡ true
    → IsRouted (decide r failure_class message tag severity)
unfolding decide validate_finding make_finding
decide-IsRouted r c message tag severity known level = record {
  routed = refl;
  unretried = route_of-unretried r;
  uncapsuled = route_of-uncapsuled r;
  classed = known;
  valid = (repairs-plain rules (make_finding r message tag severity) (rule-known r) level, tt);
  single = refl;
}

clean-IsRouted :
    (failure_class message tag : Text)
    → contains failure_class classes ≡ true
    → IsRouted (record {
      failure_class = failure_class;
      route = repair;
      rule = clean_triage;
      findings = make_finding clean_triage message tag (codes "minor") ∷ [];
    })
unfolding decide route_of
clean-IsRouted c message tag known =
    decide-IsRouted clean_triage c message tag (codes "minor") known known_minor

filed-known : (item : Report) → contains (filed item) classes ≡ true
filed-known item = class_of-known item.filed_class item.true_class

actual-known : (item : Report) → contains (actual item) classes ≡ true
actual-known item = class_of-known item.true_class item.filed_class

infra-known : contains (codes "infra-flake") classes ≡ true
unfolding contains ◌=ᵗ◌
infra-known = refl

module _ (py : Python) (item : Report) where
  owned-IsRouted : IsRouted (owned py item)
  unfolding owned
  owned-IsRouted =
      either_way IsRouted (not (nonempty (strip item.owning_lane)))
        (decide-IsRouted _ _ _ _ _ (filed-known item) known_major)
        (either_way IsRouted item.historical_match
          (decide-IsRouted _ _ _ _ _ (filed-known item) known_minor)
          (either_way IsRouted (not item.evidence_preserved)
            (decide-IsRouted _ _ _ _ _ (filed-known item) known_blocker)
            (clean-IsRouted _ _ _ (filed-known item))))

  classified-IsRouted : IsRouted (classified py item)
  unfolding classified
  classified-IsRouted =
      either_way IsRouted
        (nonempty item.filed_class
          && nonempty item.true_class
          && not (item.filed_class =ᵗ item.true_class))
        (decide-IsRouted _ _ _ _ _ (actual-known item) known_major)
        (either_way IsRouted (item.retry_proposed && none_left item.retries_left)
          (decide-IsRouted _ _ _ _ _ (filed-known item) known_major)
          (either_way IsRouted ((filed item =ᵗ codes "product-defect") && item.infra_signal)
            (decide-IsRouted _ _ _ _ _ infra-known known_major)
            (either_way IsRouted ((actual item =ᵗ unknown) && item.mutation_proposed)
              (decide-IsRouted _ _ _ _ _ unknown-known known_blocker) owned-IsRouted)))

  triaged-IsRouted : IsRouted (triaged py item)
  unfolding triaged
  triaged-IsRouted =
      either_way IsRouted (item.retry_proposed && not (nonempty (strip item.hypothesis)))
        (decide-IsRouted _ _ _ _ _ (filed-known item) known_blocker)
        (either_way IsRouted (item.retry_proposed && not item.idempotent && not item.confirmed)
          (decide-IsRouted _ _ _ _ _ (filed-known item) known_blocker)
          (either_way IsRouted item.partially_green
            (decide-IsRouted _ _ _ _ _ (filed-known item) known_blocker) classified-IsRouted))

-- Every triage that does not raise takes the route of its rule, which is never retry-bounded and
-- never recover-capsule, names one of CLASSES, and has one finding, which `validate_finding` passes.
pub triage-IsRouted :
    (py : Python) (report : Value) (d : Decision) → triage py report ≡ ok d → IsRouted d
unfolding triage
triage-IsRouted py report d h =
    let (item, e, made) = bind-eq-ok (normalize py report) _ h in
    let same : d ≡ triaged py item = cc in rw same (triaged-IsRouted py item)
