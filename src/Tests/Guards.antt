-- ===== src/Tests/Guards.antt =====
-- Runs of the queue guards, and witnesses for the theorems on them.
use agent_engineering_standa.Base.{
  ◌≡◌, ◌≢◌, ◌↔◌, ◌⊎◌, refl, true, false, none, [], ◌∷◌, Text, codes, ok, All, Any, is_digit, ◌=ᵗ◌,
  contains, strip,
}
use agent_engineering_standa.Plain.{
  Fields, str, dict, bare, field, get_or, truthy, fields_of, value_is,
}
use agent_engineering_standa.Queue.Types.{Item}
use agent_engineering_standa.Queue.Query.{active_items}
use agent_engineering_standa.Queue.Validate.{is_alnum, is_login_char}
use agent_engineering_standa.Queue.Guard.{
  parse_ref, normalize_ref, item_refs, guard_claim, guard_pr, is_owned, claimable, after_event,
  authorized_from, owner_label_authorized,
}
use agent_engineering_standa.Queue.Guard.Refs.{IsOn, guard_pr_iff, guard_claim_iff}
use agent_engineering_standa.Queue.Guard.Labels.{OwnerSetLast, owner_label_authorized_iff}
use agent_engineering_standa.Policy.{timeline_authorized, timeline_authorized_lem}
use agent_engineering_standa.Tests.Data.{queue}

abbrev same_case : Text → Text
same_case s = s

ref_normalized : normalize_ref same_case (codes " o/r#12 ") none ≡ ok (codes "o/r#12")
unfolding normalize_ref parse_ref strip is_digit ◌=ᵗ◌ is_alnum is_login_char
ref_normalized = refl

closes_active : guard_pr same_case queue (codes "o/r#1" ∷ []) false ≡ ok tt
unfolding guard_pr is_owned active_items contains item_refs parse_ref strip ◌=ᵗ◌ is_digit is_alnum
    is_login_char
closes_active = refl

guard_pr_iff_example : (guard_pr same_case queue (codes "o/r#1" ∷ []) false ≡ ok tt) ↔ (
    (false ≡ true)
    ⊎ (((codes "o/r#1" ∷ []) ≢ [])
        × All (λ ref. Any (IsOn same_case ref) (active_items queue.items)) (codes "o/r#1" ∷ [])))
guard_pr_iff_example = guard_pr_iff same_case queue (codes "o/r#1" ∷ []) false

guard_claim_iff_example : ((i : Item) × (guard_claim same_case queue (codes "o/r#1") ≡ ok i)) ↔ (
    (r : Text) × (normalize_ref same_case (codes "o/r#1") none ≡ ok r)
    × Any (IsOn same_case r) (claimable queue))
guard_claim_iff_example = guard_claim_iff same_case queue (codes "o/r#1")

-- The owner sets a label.
abbrev labeled : Fields
labeled = field (codes "event") (str (codes "labeled")) (
    field (codes "label") (dict (field (codes "name") (str (codes "owner:queue-exempt")) bare))
      (field (codes "actor_login") (str (codes "owner")) bare))

label_set :
    owner_label_authorized (labeled ∷ []) (codes "owner:queue-exempt") (codes "owner") ≡ true
unfolding owner_label_authorized authorized_from after_event value_is truthy get_or fields_of ◌=ᵗ◌
label_set = refl

owner_label_authorized_iff_example :
    (owner_label_authorized (labeled ∷ []) (codes "owner:queue-exempt") (codes "owner") ≡ true)
    ↔ OwnerSetLast (codes "owner:queue-exempt") (codes "owner") (labeled ∷ [])
owner_label_authorized_iff_example =
    owner_label_authorized_iff (codes "owner:queue-exempt") (codes "owner") (labeled ∷ [])

timeline_authorized_lem_example :
    timeline_authorized (labeled ∷ []) (codes "owner:queue-exempt") (codes "owner")
    ≡ owner_label_authorized (labeled ∷ []) (codes "owner:queue-exempt") (codes "owner")
timeline_authorized_lem_example =
    timeline_authorized_lem (labeled ∷ []) (codes "owner:queue-exempt") (codes "owner")
