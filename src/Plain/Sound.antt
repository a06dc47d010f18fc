-- ===== src/Plain/Sound.antt =====
-- Decisions whose findings are valid, and which pass exactly without findings.
use agent_engineering_standa.Base.{
  ◌≡◌, ◌≢◌, ◌↔◌, refl, Bool, true, false, List, [], ◌∷◌, Text, codes, contains, ◌=ᵗ◌, All,
  if◌then◌else◌,
}
use agent_engineering_standa.Plain.Findings.{Finding, plain, repairs, repairs-plain, severities}

pub either_way {ℓ κ} :
    {A : Type ℓ} (P : A → Type κ) (b : Bool) {x y : A} → P x → P y → P (if b then x else y)
either_way P true p q = p
either_way P false p q = q

module _ {V : Type 0} (rules : List Text) (pass : V) where
  pub record IsSound (verdict : V) (findings : List Finding) : Type 0 where
    pub valid : All (λ f. repairs rules (plain f) ≡ []) findings
    pub passes : (verdict ≡ pass) ↔ (findings ≡ [])

  pub none-IsSound : IsSound pass []
  none-IsSound = record { valid = tt; passes = (λ h. refl, λ h. refl) }

  pub one-IsSound :
      (verdict : V) (f : Finding)
      → verdict ≢ pass
      → contains f.rule rules ≡ true
      → contains f.severity severities ≡ true
      → IsSound verdict (f ∷ [])
  one-IsSound verdict f other known level = record {
    valid = (repairs-plain rules f known level, tt);
    passes = (λ h. absurd (other h), λ h. cc);
  }

pub known_major : contains (codes "major") severities ≡ true
unfolding contains ◌=ᵗ◌
known_major = refl

pub known_minor : contains (codes "minor") severities ≡ true
unfolding contains ◌=ᵗ◌
known_minor = refl

pub known_blocker : contains (codes "blocker") severities ≡ true
unfolding contains ◌=ᵗ◌
known_blocker = refl
