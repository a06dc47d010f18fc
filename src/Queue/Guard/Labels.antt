-- ===== src/Queue/Guard/Labels.antt =====
-- tools/queue_core.py, `owner_label_authorized`: the events that decide it.
use agent_engineering_standa.Base.{
  ◌≡◌, refl, ◌↔◌, ◌⊎◌, inl, inr, ap, sym, ◌∙◌, Bool, true, false, ◌&&◌, ◌||◌, List, [], ◌∷◌, ◌++◌,
  Text, codes, All, arith, Bool-cases,
}
use agent_engineering_standa.Plain.{Fields, get, value_is}
use agent_engineering_standa.Queue.Guard.{
  label_name, actor_login, after_event, authorized_from, owner_label_authorized,
}

-- The event sets the label, or takes it off.
abbrev pub is_setting : Text → Fields → Bool
is_setting label e =
    value_is label (label_name e) && value_is (codes "labeled") (get (codes "event") e)

abbrev pub is_change : Text → Fields → Bool
is_change label e =
    is_setting label e
    || value_is label (label_name e) && value_is (codes "unlabeled") (get (codes "event") e)

abbrev Untouched : Text → List Fields → Type 0
Untouched label = All (λ e. is_change label e ≡ false)

module _ (label owner : Text) where
  -- The last event on the label is one by which the owner sets it.
  pub record OwnerSetLast (events : List Fields) : Type 0 where
    pub before : List Fields
    pub set : Fields
    pub after : List Fields
    pub split : events ≡ before ++ (set ∷ after)
    pub sets : is_setting label set ≡ true
    pub by_owner : value_is owner (actor_login set) ≡ true
    pub untouched : Untouched label after

  later : (e : Fields) (es : List Fields) → OwnerSetLast es → OwnerSetLast (e ∷ es)
  later e es o = record {
    before = e ∷ o.before;
    set = o.set;
    after = o.after;
    split = ap (λ (x : List Fields). e ∷ x) o.split;
    sets = o.sets;
    by_owner = o.by_owner;
    untouched = o.untouched;
  }

  changed :
      (a : Bool) (e : Fields)
      → after_event label owner a e ≡ true
      → is_change label e ≡ true
      → (is_setting label e ≡ true) × (value_is owner (actor_login e) ≡ true)
  unfolding after_event
  changed a e h c = (ground arith, ground arith)

  unchanged : (a : Bool) (e : Fields) → is_change label e ≡ false → after_event label owner a e ≡ a
  unfolding after_event
  unchanged a e c = ground arith

  set_by_owner :
      (a : Bool) (e : Fields)
      → is_setting label e ≡ true
      → value_is owner (actor_login e) ≡ true
      → after_event label owner a e ≡ true
  unfolding after_event
  set_by_owner a e s o = ground arith

  authorized_from-cases :
      (events : List Fields) (a : Bool)
      → authorized_from label owner a events ≡ true
      → ((a ≡ true) × Untouched label events) ⊎ OwnerSetLast events
  unfolding authorized_from
  authorized_from-cases [] a h = inl (h, tt)
  authorized_from-cases (e ∷ es) a h =
      elim (authorized_from-cases es (after_event label owner a e) h) [
        | inr o ↦ inr (later e es o)
        | inl (on, rest) ↦ elim (Bool-cases (is_change label e)) [
          | inl c ↦
              let (s, o) = changed a e on c in
              inr (record {
                before = [];
                set = e;
                after = es;
                split = refl;
                sets = s;
                by_owner = o;
                untouched = rest;
              })
          | inr c ↦ inl (sym (unchanged a e c) ∙ on, (c, rest))
        ]
      ]

  unchanged_after :
      (es : List Fields) (a : Bool) → Untouched label es → authorized_from label owner a es ≡ a
  unfolding authorized_from
  unchanged_after [] a h = refl
  unchanged_after (e ∷ es) a (c, rest) =
      unchanged_after es (after_event label owner a e) rest ∙ unchanged a e c

  set_last-authorized :
      (before : List Fields) (a : Bool) (e : Fields) (after : List Fields)
      → is_setting label e ≡ true
      → value_is owner (actor_login e) ≡ true
      → Untouched label after
      → authorized_from label owner a (before ++ (e ∷ after)) ≡ true
  unfolding authorized_from
  set_last-authorized [] a e after s o u =
      unchanged_after after (after_event label owner a e) u ∙ set_by_owner a e s o
  set_last-authorized (b ∷ before) a e after s o u =
      set_last-authorized before (after_event label owner a b) e after s o u

  -- The label is authorized exactly when the last event that sets it or takes it off is one by which
  -- the owner sets it.
  pub owner_label_authorized_iff :
      (events : List Fields)
      → (owner_label_authorized events label owner ≡ true) ↔ OwnerSetLast events
  unfolding owner_label_authorized
  owner_label_authorized_iff events = (
    λ h. elim (authorized_from-cases events false h) [ inl (e, u) ↦ absurd (cc) | inr o ↦ o ],
    λ o.
        rw o.split (set_last-authorized o.before false o.set o.after o.sets o.by_owner o.untouched),
  )
