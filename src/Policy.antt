-- ===== src/Policy.antt =====
-- tools/standardctl.py, `owner_label_authorized`, which the merge policy uses.
use agent_engineering_standa.Base.{
  ◌≡◌, refl, Bool, false, not, List, [], ◌∷◌, Text, codes, if◌then◌else◌, ap, ◌∙◌,
}
use agent_engineering_standa.Plain.{
  Value, null, flag, number, str, array, dict, Fields, get, get_or, fields_of, value_is,
}
use agent_engineering_standa.Queue.Guard.{
  or_value, after_event, authorized_from, owner_label_authorized,
}

-- `x.get(key) if isinstance(x, dict) else None`, for `x = event.get(outer) or {}`.
unfoldable pub inner : Text → Text → Fields → Value
inner outer key e = elim (get outer e) [ dict d ↦ get key d | _ ↦ null ]

-- The body of the loop.
unfoldable pub after_timeline_event : Text → Text → Bool → Fields → Bool
unfolding inner
after_timeline_event label owner authorized e =
    let name = or_value (inner (codes "label") (codes "name") e) (get (codes "label_name") e) in
    let kind = get (codes "event") e in
    let login = or_value (inner (codes "actor") (codes "login") e) (get (codes "actor_login") e) in
    if not (value_is label name)
    then authorized
    else if value_is (codes "labeled") kind
    then value_is owner login
    else if value_is (codes "unlabeled") kind
    then false
    else authorized

timeline_from : Text → Text → Bool → List Fields → Bool
timeline_from label owner authorized [] = authorized
timeline_from label owner authorized (e ∷ es) =
    timeline_from label owner (after_timeline_event label owner authorized e) es

-- `owner_label_authorized` of tools/standardctl.py
unfoldable pub timeline_authorized : List Fields → Text → Text → Bool
unfolding timeline_from
timeline_authorized events label owner = timeline_from label owner false events

inner-fields :
    (outer key : Text) (e : Fields) → inner outer key e ≡ get key (fields_of (get outer e))
unfolding inner fields_of get_or
inner-fields outer key e = go (get outer e)
  where
    go :
        (v : Value)
        → elim v as (λ x. Value) [ dict d ↦ get key d | _ ↦ null ] ≡ get key (fields_of v)
    go (dict d) = refl
    go null = refl
    go (flag b) = refl
    go (number n) = refl
    go (str s) = refl
    go (array vs) = refl

module _ (label owner : Text) where
  same_step :
      (a : Bool) (e : Fields) → after_timeline_event label owner a e ≡ after_event label owner a e
  unfolding after_timeline_event after_event
  same_step a e =
      rw
        (
          inner-fields (codes "label") (codes "name") e,
          inner-fields (codes "actor") (codes "login") e,
        )
        refl

  same_loop :
      (events : List Fields) (a : Bool)
      → timeline_from label owner a events ≡ authorized_from label owner a events
  unfolding timeline_from authorized_from
  same_loop [] a = refl
  same_loop (e ∷ es) a =
      same_loop es (after_timeline_event label owner a e)
      ∙ ap (λ (b : Bool). authorized_from label owner b es) (same_step a e)

-- The merge policy and the queue guard authorize a label on the same events.
pub timeline_authorized_lem :
    (events : List Fields) (label owner : Text)
    → timeline_authorized events label owner ≡ owner_label_authorized events label owner
unfolding timeline_authorized owner_label_authorized
timeline_authorized_lem events label owner = same_loop label owner events false
