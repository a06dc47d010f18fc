-- ===== src/Plain/Findings.antt =====
-- The findings of the deciding tools, with the five keys of `FINDING_FIELDS`.
use agent_engineering_standa.Base.{
  Bool, true, false, List, [], ◌∷◌, ◌++◌, Text, codes, contains, ◌=ᵗ◌, ◌≡◌, refl, true,
  if◌then◌else◌,
}
use agent_engineering_standa.Plain.{Value, str, dict, Fields, bare, field, get, get_or, has_key}

pub record Finding : Type 0 where
  pub id : Text
  pub rule : Text
  pub finding : Text
  pub severity : Text
  pub excerpt : Text

-- FINDING_FIELDS
abbrev pub finding_fields : List Text
finding_fields =
    codes "id" ∷ codes "rule" ∷ codes "finding" ∷ codes "severity" ∷ codes "excerpt" ∷ []

-- SEVERITIES
abbrev pub severities : List Text
severities = codes "blocker" ∷ codes "major" ∷ codes "minor" ∷ []

-- The dictionary that a finding is.
abbrev pub plain : Finding → Value
plain f = dict (
    field (codes "id") (str f.id) (
      field (codes "rule") (str f.rule) (
        field (codes "finding") (str f.finding) (
          field (codes "severity") (str f.severity)
            (field (codes "excerpt") (str f.excerpt) bare)))))

-- `v in names`, for texts `names`.
unfoldable pub is_one_of : List Text → Value → Bool
is_one_of names (str s) = contains s names
is_one_of names _ = false

-- One repair of `validate_finding`.
pub data Repair : Type 0 where
  not_mapping : Repair
  missing_key : Text → Repair
  unknown_rule unknown_severity : Value → Repair

missing : Fields → List Text → List Repair
missing d [] = []
missing d (k ∷ ks) = let rest = missing d ks in if has_key k d then rest else missing_key k ∷ rest

-- A key that is there must be one of the names.
repair_of : List Text → Text → (Value → Repair) → Fields → List Repair
unfolding is_one_of
repair_of names key repair d =
    if has_key key d
    then if is_one_of names (get key d) then [] else repair (get key d) ∷ []
    else []

-- `validate_finding`, for the rules of a tool.
unfoldable pub repairs : List Text → Value → List Repair
unfolding missing repair_of
repairs rules (dict d) =
    missing d finding_fields
    ++ (repair_of rules (codes "rule") unknown_rule d
        ++ repair_of severities (codes "severity") unknown_severity d)
repairs rules _ = not_mapping ∷ []

pub repairs-plain :
    (names : List Text) (f : Finding)
    → contains f.rule names ≡ true
    → contains f.severity severities ≡ true
    → repairs names (plain f) ≡ []
unfolding repairs is_one_of has_key get_or ◌=ᵗ◌
repairs-plain names f known level = rw (known, level) refl
