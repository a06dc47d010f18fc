-- ===== src/Lease/Reported.antt =====
-- tools/writer_lease.py: the findings of `decide` against `validate_finding`.
use agent_engineering_standa.Base.{
  ◌≡◌, refl, ◌↔◌, ◌≢◌, true, ◌&&◌, not, ltℤ, sameℤ, [], Text, codes, contains, ◌=ᵗ◌, ok, ℤ, All,
  Option-cases, inl, inr, bind-eq-ok,
}
use agent_engineering_standa.Plain.{Value, Python, int_or_zero, get}
use agent_engineering_standa.Plain.Findings.{plain, severities}
use agent_engineering_standa.Plain.Sound.{
  either_way, IsSound, none-IsSound, one-IsSound, known_major, known_minor, known_blocker,
}
use agent_engineering_standa.Lease.Types.{
  Op, acquire, transfer, release, owner_recover, op_of, Verdict, granted, released, refused,
  recovering, Rule, concurrent_claim, stale_generation, expired_lease, late_heartbeat,
  provider_transfer, workspace_lost, partition_split, process_dead, owner_recovery, clean_release,
  no_lease, rule_name, rules, Operation, Decision, validate_finding,
}
use agent_engineering_standa.Lease.Decide.{
  make_finding, is_heartbeat, heartbeat_deadline, provider_moved, grant, reported, refuse_for,
  recover_for, concluded, recovered, fenced, decided, decision, decide, normalize,
}

abbrev Sound : Decision → Type 0
Sound d = IsSound rules granted d.verdict d.findings

rule-known : (r : Rule) → contains (rule_name r) rules ≡ true
unfolding contains ◌=ᵗ◌
rule-known concurrent_claim = refl
rule-known stale_generation = refl
rule-known expired_lease = refl
rule-known late_heartbeat = refl
rule-known provider_transfer = refl
rule-known workspace_lost = refl
rule-known partition_split = refl
rule-known process_dead = refl
rule-known owner_recovery = refl
rule-known clean_release = refl
rule-known no_lease = refl

module _ (verdict : Verdict) (r : Rule) (message tag severity : Text) where
  reported-IsSound :
      contains severity severities ≡ true
      → verdict ≢ granted
      → Sound (reported verdict r message tag severity)
  unfolding make_finding
  reported-IsSound level other =
      one-IsSound rules granted verdict (make_finding r message tag severity) other (rule-known r)
        level

refuse-IsSound :
    (r : Rule) (message tag severity : Text)
    → contains severity severities ≡ true
    → Sound (refuse_for r message tag severity)
unfolding refuse_for
refuse-IsSound r message tag severity level =
    reported-IsSound refused r message tag severity level (λ h. cc)

recover-IsSound : (r : Rule) (message tag : Text) → Sound (recover_for r message tag)
unfolding recover_for
recover-IsSound r message tag = reported-IsSound recovering r message tag _ known_major (λ h. cc)

grant-IsSound : (r : Rule) → Sound (grant r)
grant-IsSound r = none-IsSound rules granted

module _ (py : Python) (item : Operation) (generation : ℤ) where
  concluded-IsSound : (op : Op) → Sound (concluded py op item generation)
  unfolding concluded
  concluded-IsSound release =
      either_way Sound _ (refuse-IsSound _ _ _ _ known_blocker)
        (reported-IsSound released _ _ _ _ known_minor (λ h. cc))
  concluded-IsSound transfer =
      either_way Sound _ (grant-IsSound provider_transfer) (refuse-IsSound _ _ _ _ known_major)
  concluded-IsSound _ = grant-IsSound no_lease

  recovered-IsSound : (op : Op) → Sound (recovered py op item generation)
  unfolding recovered
  recovered-IsSound op = either_way Sound (not item.workspace_present) (recover-IsSound _ _ _) (
      either_way Sound item.partitioned (recover-IsSound _ _ _)
        (either_way Sound (not item.holder_alive) (recover-IsSound _ _ _) (concluded-IsSound op)))

  fenced-IsSound : (op : Op) → Sound (fenced py op item generation)
  unfolding fenced
  fenced-IsSound op =
      either_way Sound (is_heartbeat op && not (sameℤ item.generation generation))
        (refuse-IsSound _ _ _ _ known_major)
        (either_way Sound (ltℤ item.generation generation) (refuse-IsSound _ _ _ _ known_blocker) (
          either_way Sound (ltℤ heartbeat_deadline item.ticks_since_heartbeat)
            (refuse-IsSound _ _ _ _ known_major)
            (either_way Sound (provider_moved op item) (refuse-IsSound _ _ _ _ known_blocker)
              (recovered-IsSound op))))

  decided-IsSound : (op : Op) → Sound (decided py op item generation)
  unfolding decided
  decided-IsSound owner_recover =
      either_way Sound _ (reported-IsSound released _ _ _ _ known_major (λ h. cc))
        (refuse-IsSound _ _ _ _ known_blocker)
  decided-IsSound acquire =
      either_way Sound _ (refuse-IsSound _ _ _ _ known_blocker) (grant-IsSound no_lease)
  decided-IsSound _ = either_way Sound _ (fenced-IsSound _) (refuse-IsSound _ _ _ _ known_major)

  decision-IsSound : Sound (decision py item generation)
  unfolding decision
  decision-IsSound = elim (Option-cases (op_of item.op)) [
    | inl e ↦ rw (e, decision) (refuse-IsSound _ _ _ _ known_major)
    | inr (op, e) ↦
        rw (e, decision) (either_way Sound _ (grant-IsSound no_lease) (decided-IsSound op))
  ]

-- Every finding of a decision passes `validate_finding`, and a decision grants exactly when it has
-- no finding.
pub lease_findings :
    (py : Python) (operation : Value) (d : Decision)
    → decide py operation ≡ ok d
    → All (λ f. validate_finding (plain f) ≡ []) d.findings
      × ((d.verdict ≡ granted) ↔ (d.findings ≡ []))
unfolding decide validate_finding
lease_findings py operation d h =
    let (item, e, rest) = bind-eq-ok (normalize py operation) _ h in
    let (generation, e', last) =
      bind-eq-ok (int_or_zero py (get (codes "generation") item.lease)) _ rest in
    let sound = decision-IsSound py item generation in
    let same : d ≡ decision py item generation = cc in rw same (sound.valid, sound.passes)
