-- ===== src/Recovery/Clean.antt =====
-- tools/recovery_loop.py: which reports are triaged as clean.
use agent_engineering_standa.Base.{
  ◌≡◌, ◌↔◌, refl, sym, ◌∙◌, Bool, true, false, [], ◌∷◌, map, codes, ◌=ᵗ◌, =ᵗ_sound, =ᵗ_iff, strip,
  if◌then◌else◌, arith,
}
use agent_engineering_standa.Plain.{Python}
use agent_engineering_standa.Plain.Findings.{Finding}
use agent_engineering_standa.Recovery.Types.{unknown, clean_triage, Report}
use agent_engineering_standa.Recovery.Triage.{
  nonempty, none_left, filed, actual, make_finding, decide, owned, classified, triaged,
}

-- A retry has a hypothesis, is safe to repeat and has budget; nothing is partly green; the two
-- classes agree; no infrastructure fault is filed as a product defect; nothing mutates under an
-- unknown cause; there is an owning lane and no match in the history.
pub record IsClean (item : Report) : Type 0 where
  pub argued : item.retry_proposed ≡ true → nonempty (strip item.hypothesis) ≡ true
  pub repeatable : item.retry_proposed ≡ true → item.idempotent ≡ false → item.confirmed ≡ true
  pub whole : item.partially_green ≡ false
  pub agreed :
      nonempty item.filed_class ≡ true
      → nonempty item.true_class ≡ true
      → item.filed_class ≡ item.true_class
  pub affordable : item.retry_proposed ≡ true → none_left item.retries_left ≡ false
  pub product : item.infra_signal ≡ true → (filed item =ᵗ codes "product-defect") ≡ false
  pub known : item.mutation_proposed ≡ true → (actual item =ᵗ unknown) ≡ false
  pub laned : nonempty (strip item.owning_lane) ≡ true
  pub new : item.historical_match ≡ false

minor_only :
    (b : Bool) → codes "minor" ∷ [] ≡ (if b then codes "minor" else codes "blocker") ∷ [] → b ≡ true
minor_only true h = refl
minor_only false h = cc

module _ (py : Python) (item : Report) where
  triaged-IsClean : (triaged py item).rule ≡ clean_triage → IsClean item
  unfolding triaged classified owned decide
  triaged-IsClean h = record {
    argued = λ r. ground arith;
    repeatable = λ r i. ground arith;
    whole = ground arith;
    agreed = λ f t. =ᵗ_sound _ _ (ground arith);
    affordable = λ r. ground arith;
    product = λ i. ground arith;
    known = λ m. ground arith;
    laned = ground arith;
    new = ground arith;
  }

  IsClean-triaged : IsClean item → (triaged py item).rule ≡ clean_triage
  unfolding triaged classified owned decide
  IsClean-triaged c = ground (
    arith,
    c.argued,
    c.repeatable,
    c.agreed,
    c.affordable,
    c.product,
    c.known,
    =ᵗ_iff item.filed_class item.true_class,
  )

  -- A finding of a clean triage tells whether the evidence was preserved.
  clean-severity :
      IsClean item
      → map (λ (f : Finding). f.severity) (triaged py item).findings
        ≡ (if item.evidence_preserved then codes "minor" else codes "blocker") ∷ []
  unfolding triaged classified owned decide make_finding
  clean-severity c = ground (
    arith,
    c.argued,
    c.repeatable,
    c.agreed,
    c.affordable,
    c.product,
    c.known,
    =ᵗ_iff item.filed_class item.true_class,
  )

  -- A clean triage whose one finding is minor, not a blocker.
  abbrev IsSettled : Type 0
  IsSettled =
      ((triaged py item).rule ≡ clean_triage)
      × (map (λ (f : Finding). f.severity) (triaged py item).findings ≡ codes "minor" ∷ [])

  settled-preserved : IsSettled → IsClean item × (item.evidence_preserved ≡ true)
  settled-preserved (r, m) =
      let c = triaged-IsClean r in
      let both = sym m ∙ clean-severity c in (c, minor_only item.evidence_preserved both)

  preserved-settled : IsClean item × (item.evidence_preserved ≡ true) → IsSettled
  preserved-settled (c, e) = (IsClean-triaged c, clean-severity c ∙ rw e refl)

  -- A report is given the rule clean-triage exactly when every retry is argued, repeatable and
  -- affordable, nothing is partly green, its classes agree where both are given, no infrastructure
  -- fault is filed as a product defect, no mutation is proposed under an unknown cause, and it has an
  -- owning lane and no match in the history, whether or not its evidence is preserved; and its one
  -- finding is then minor exactly when the evidence is preserved.
  pub triaged_iff :
      (((triaged py item).rule ≡ clean_triage) ↔ IsClean item)
      × (((triaged py item).rule ≡ clean_triage)
            × (map (λ (f : Finding). f.severity) (triaged py item).findings ≡ codes "minor" ∷ [])
          ↔ IsClean item × (item.evidence_preserved ≡ true))
  triaged_iff = ((triaged-IsClean, IsClean-triaged), (settled-preserved, preserved-settled))
