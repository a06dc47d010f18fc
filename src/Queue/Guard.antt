-- ===== src/Queue/Guard.antt =====
-- tools/queue_core.py, the guards: `normalize_ref`, `owner_label_authorized`, `guard_claim` and
-- `guard_pr`. Their messages are left out but for the item that `guard_claim` names.
pub mod Refs
pub mod Labels
use agent_engineering_standa.Base.{
  ℕ, Bool, true, false, ◌&&◌, ◌||◌, not, Option, none, some, List, [], ◌∷◌, ◌++◌, Text, ◌=ᵗ◌, codes,
  contains, strip, all, any, select, leb, ◌==◌, is_digit, Result, ok, err, refuse, guard, ◌>>=◌,
  ◌>>◌, if◌then◌else◌,
}
use agent_engineering_standa.Plain.{Value, Fields, get, truthy, fields_of, value_is}
use agent_engineering_standa.Queue.Types.{
  Item, State, Outcome, not_a_ref, claim_refused, closes_nothing, off_queue,
}
use agent_engineering_standa.Queue.Validate.{is_alnum, is_login_char}
use agent_engineering_standa.Queue.Query.{active_items, upcoming}

-- What stands before and after the first code point `c`; `none` if there is none.
split_at : ℕ → Text → Option (Text × Text)
split_at c [] = none
split_at c (d ∷ s) =
    let later = split_at c s in
    if d == c then some ([], s) else elim later [ none ↦ none | some p ↦ some (d ∷ p.0, p.1) ]

-- `[1-9][0-9]*`
is_positive : Text → Bool
is_positive [] = false
is_positive (c ∷ s) = leb b'1' c && leb c b'9' && all is_digit s

-- `[A-Za-z0-9][A-Za-z0-9._-]*`
is_account : Text → Bool
is_account [] = false
is_account (c ∷ s) = is_alnum c && all is_login_char s

-- `[A-Za-z0-9._-]+`
is_project : Text → Bool
is_project [] = false
is_project (c ∷ s) = all is_login_char (c ∷ s)

is_repo : Text → Bool
unfolding split_at is_account is_project
is_repo s = elim (split_at b'/' s) [ none ↦ false | some p ↦ is_account p.0 && is_project p.1 ]

-- `_REF`, of a text without blanks at its ends: the repository, if there is one, and the number.
unfoldable pub parse_ref : Text → Option (Option Text × Text)
unfolding split_at is_positive is_repo
parse_ref s = elim (split_at b'#' s) [
  | none ↦ none
  | some p ↦
      if not (is_positive p.1)
      then none
      else if p.0 =ᵗ []
      then some (none, p.1)
      else if is_repo p.0
      then some (some p.0, p.1)
      else none
]

or_default : Option Text → Option Text → Option Text
or_default (some repo) default = some repo
or_default none none = none
or_default none (some []) = none
or_default none (some (c ∷ s)) = some (c ∷ s)

-- `a or b`
abbrev pub or_value : Value → Value → Value
or_value a b = if truthy a then a else b

-- `x.get(key)` of `x = event.get(outer) or {}`, if that is a mapping, or `event.get(flat)`.
abbrev pub nested : Text → Text → Text → Fields → Value
nested outer key flat e = or_value (get key (fields_of (get outer e))) (get flat e)

abbrev pub label_name : Fields → Value
label_name = nested (codes "label") (codes "name") (codes "label_name")

abbrev pub actor_login : Fields → Value
actor_login = nested (codes "actor") (codes "login") (codes "actor_login")

-- The body of the loop of `owner_label_authorized`.
unfoldable pub after_event : Text → Text → Bool → Fields → Bool
after_event label owner authorized e =
    if not (value_is label (label_name e))
    then authorized
    else if value_is (codes "labeled") (get (codes "event") e)
    then value_is owner (actor_login e)
    else if value_is (codes "unlabeled") (get (codes "event") e)
    then false
    else authorized

unfoldable pub authorized_from : Text → Text → Bool → List Fields → Bool
authorized_from label owner authorized [] = authorized
authorized_from label owner authorized (e ∷ es) =
    authorized_from label owner (after_event label owner authorized e) es

unfoldable pub owner_label_authorized : List Fields → Text → Text → Bool
owner_label_authorized events label owner = authorized_from label owner false events

abbrev pub claimed : Text → Option Item → Outcome Item
claimed ref none = err (claim_refused ref)
claimed ref (some i) = ok i

abbrev pub is_nothing : List Text → Bool
is_nothing [] = true
is_nothing (r ∷ rs) = false

abbrev next_up : Option Item → List Item
next_up none = []
next_up (some i) = i ∷ []

-- The active items, then the next one.
abbrev pub claimable : State → List Item
claimable state = active_items state.items ++ next_up (upcoming state)

-- `lower` stands for `str.lower`.
module _ (lower : Text → Text) where
  unfoldable pub normalize_ref : Text → Option Text → Outcome Text
  unfolding or_default
  normalize_ref ref default = elim (parse_ref (strip ref)) [
    | none ↦ err (not_a_ref ref)
    | some p ↦ elim (or_default p.0 default) [
      | none ↦ err (not_a_ref ref)
      | some repo ↦ ok (lower repo ++ (b'#' ∷ p.1))
    ]
  ]

  -- `_item_refs`: a reference that names its repository is normalized, others are left out.
  refs_among : List Text → List Text
  unfolding normalize_ref
  refs_among [] = []
  refs_among (r ∷ rs) =
      let rest = refs_among rs in
      if any (λ c. c == b'/') r
      then elim (normalize_ref r none) [ err e ↦ rest | ok n ↦ n ∷ rest ]
      else rest

  unfoldable pub item_refs : Item → List Text
  unfolding refs_among
  item_refs i = refs_among i.refs

  unfoldable pub first_with : Text → List Item → Option Item
  first_with ref [] = none
  first_with ref (i ∷ is) =
      let later = first_with ref is in if contains ref (item_refs i) then some i else later

  unfoldable pub guard_claim : State → Text → Outcome Item
  unfolding first_with
  guard_claim state ref = do r ← normalize_ref ref none; claimed r (first_with r (claimable state))

  -- `ref in owned`
  unfoldable pub is_owned : List Item → Text → Bool
  is_owned items ref = any (λ i. contains ref (item_refs i)) items

  -- The references that are on no active item.
  abbrev pub off_refs : State → List Text → List Text
  off_refs state = select (λ ref. not (is_owned (active_items state.items) ref))

  unfoldable pub guard_pr : State → List Text → Bool → Outcome (Unit {0})
  guard_pr state refs true = ok tt
  guard_pr state refs false = do
    refuse (is_nothing refs) closes_nothing
    guard (is_nothing (off_refs state refs)) (off_queue (off_refs state refs))
