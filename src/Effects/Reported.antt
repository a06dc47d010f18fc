-- ===== src/Effects/Reported.antt =====
-- tools/idempotent_effects.py: the findings of `decide` against `validate_finding`.
use agent_engineering_standa.Base.{
  ◌≡◌, ◌≢◌, refl, ◌↔◌, true, ◌&&◌, not, [], Text, ◌=ᵗ◌, contains, ok, All, bind-eq-ok,
}
use agent_engineering_standa.Plain.{Value, Python}
use agent_engineering_standa.Plain.Findings.{plain, severities}
use agent_engineering_standa.Plain.Sound.{
  either_way, IsSound, none-IsSound, one-IsSound, known_major, known_minor, known_blocker,
}
use agent_engineering_standa.Effects.Types.{
  Verdict, execute, replay, refused, Rule, recorded_result, conflicting_reuse, changed_argument,
  mutated_result, stale_head, destructive_action, duplicate_webhook, crash_after_remote,
  missing_dedupe, rule_name, rules, destructive_ops, dedupe_ops, Attempt, Decision,
  validate_finding,
}
use agent_engineering_standa.Effects.Decide.{
  make_finding, reported, refuse_for, nonempty, is_given, normalize, differ, payload_changed,
  confirmed_and_keyed, unchanged, decision, decide,
}

abbrev Sound : Decision → Type 0
Sound d = IsSound rules execute d.verdict d.findings

rule-known : (r : Rule) → contains (rule_name r) rules ≡ true
unfolding contains ◌=ᵗ◌
rule-known recorded_result = refl
rule-known conflicting_reuse = refl
rule-known changed_argument = refl
rule-known mutated_result = refl
rule-known stale_head = refl
rule-known destructive_action = refl
rule-known duplicate_webhook = refl
rule-known crash_after_remote = refl
rule-known missing_dedupe = refl

module _ (v : Verdict) (r : Rule) (message tag severity : Text) where
  reported-IsSound :
      v ≢ execute → contains severity severities ≡ true → Sound (reported v r message tag severity)
  unfolding make_finding
  reported-IsSound other level =
      one-IsSound rules execute v (make_finding r message tag severity) other (rule-known r) level

refused-IsSound :
    (r : Rule) (message tag severity : Text)
    → contains severity severities ≡ true
    → Sound (refuse_for r message tag severity)
unfolding refuse_for
refused-IsSound r message tag severity level =
    reported-IsSound refused r message tag severity (λ h. cc) level

module _ (py : Python) (item : Attempt) where
  confirmed_and_keyed-IsSound : Sound (confirmed_and_keyed py item)
  unfolding confirmed_and_keyed
  confirmed_and_keyed-IsSound =
      either_way Sound (contains item.operation destructive_ops && not item.confirmed)
        (refused-IsSound _ _ _ _ known_blocker)
        (either_way Sound (contains item.operation dedupe_ops && not (nonempty item.dedupe_key))
          (refused-IsSound _ _ _ _ known_major) (none-IsSound rules execute))

  unchanged-IsSound : Sound (unchanged py item)
  unfolding unchanged
  unchanged-IsSound =
      either_way Sound (payload_changed py item) (refused-IsSound _ _ _ _ known_blocker) (
        either_way Sound (is_given item.guard_args && differ py item.guard_args item.args)
          (refused-IsSound _ _ _ _ known_blocker)
          (either_way Sound item.result_mutated (refused-IsSound _ _ _ _ known_blocker) (
            either_way Sound
              (nonempty item.guard_head && nonempty item.head && not (item.guard_head =ᵗ item.head))
              (refused-IsSound _ _ _ _ known_major) confirmed_and_keyed-IsSound)))

  decision-IsSound : Sound (decision py item)
  unfolding decision
  decision-IsSound =
      either_way Sound item.has_recorded_result
        (reported-IsSound replay _ _ _ _ (λ h. cc) known_minor)
        (either_way Sound item.duplicate_delivery
          (reported-IsSound replay _ _ _ _ (λ h. cc) known_minor)
          (either_way Sound item.crashed_after_remote
            (reported-IsSound replay _ _ _ _ (λ h. cc) known_major) unchanged-IsSound))

-- Every finding of a decision passes `validate_finding`, and a decision lets the attempt run exactly
-- when it has no finding.
pub effect_findings :
    (py : Python) (attempt : Value) (d : Decision)
    → decide py attempt ≡ ok d
    → All (λ f. validate_finding (plain f) ≡ []) d.findings
      × ((d.verdict ≡ execute) ↔ (d.findings ≡ []))
unfolding decide validate_finding
effect_findings py attempt d h =
    let (item, e, made) = bind-eq-ok (normalize py attempt) _ h in
    let same : d ≡ decision py item = cc in
    let sound = decision-IsSound py item in rw same (sound.valid, sound.passes)
