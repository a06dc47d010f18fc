-- ===== src/Legacy/Kept.antt =====
-- What `_validate` of tools/work_queue.py accepts stays accepted.
use mathlib.Core.List.{map-append}
use mathlib.Core.Path.{subst}
use agent_engineering_standa.Base.{
  ℕ, suc, ◌<◌, ◌≡◌, refl, false, ◌||◌, List, [], ◌∷◌, ◌++◌, map, Text, contains, ok, arith, =ᵗ_iff,
  All, All-append,
}
use agent_engineering_standa.Queue.Types.{
  pending, active, blocked, LegacyStatus, live, LegacyItem, Legacy,
}
use agent_engineering_standa.Queue.Ids.{make_id, id_number, id_number-make_id}
use agent_engineering_standa.Legacy.Items.{
  new_item, validate_items, validate, change_item, append, appended, empty_state, Given,
  with_details, with_status, noted, edit, start, complete, block, unblock, acted, transition,
}
use agent_engineering_standa.Legacy.Mutate.{Command, commanded}

abbrev pub legacy_ids : List LegacyItem → List Text
legacy_ids = map (λ (i : LegacyItem). i.id)

validate_items-change :
    (id : Text) (f : LegacyItem → LegacyItem) (seen : List Text) (items : List LegacyItem)
    → ((i : LegacyItem) → (f i).id ≡ i.id)
    → validate_items seen items ≡ ok tt
    → validate_items seen (change_item id f items) ≡ ok tt
unfolding validate_items change_item
validate_items-change id f seen [] same h = refl
validate_items-change id f seen (i ∷ is) same h =
    ground (arith, validate_items-change id f (i.id ∷ seen) is same, same i)

validate_items-snoc :
    (new : LegacyItem) (seen : List Text) (items : List LegacyItem)
    → (contains new.id seen || contains new.id (legacy_ids items)) ≡ false
    → validate_items seen items ≡ ok tt
    → validate_items seen (items ++ (new ∷ [])) ≡ ok tt
unfolding validate_items contains
validate_items-snoc new seen [] fresh h = ground arith
validate_items-snoc new seen (i ∷ is) fresh h =
    ground (arith, validate_items-snoc new (i.id ∷ seen) is)

changed-validate :
    (s : Legacy) (id : Text) (f : LegacyItem → LegacyItem)
    → ((i : LegacyItem) → (f i).id ≡ i.id)
    → validate s ≡ ok tt
    → validate (record s { items = change_item id f s.items }) ≡ ok tt
unfolding validate
changed-validate s id f same h = ground (arith, validate_items-change id f [] s.items same)

edit-validate :
    (s : Legacy) (id : Text) (g : Given) (t : Legacy)
    → edit s id g ≡ ok t
    → validate s ≡ ok tt
    → validate t ≡ ok tt
unfolding edit
edit-validate s id g t h v = ground (arith, changed-validate s id (with_details g) (λ i. refl) v)

transition-validate :
    (s : Legacy) (id action reason : Text) (t : Legacy)
    → transition s id action reason ≡ ok t
    → validate s ≡ ok tt
    → validate t ≡ ok tt
unfolding transition acted start complete block unblock
transition-validate s id action reason t h v = ground (
  arith,
  changed-validate s id (with_status (live active)) (λ i. refl) v,
  changed-validate s id (noted LegacyStatus.done reason) (λ i. refl) v,
  changed-validate s id (noted (live blocked) reason) (λ i. refl) v,
  changed-validate s id (with_status (live pending)) (λ i. refl) v,
)

-- The ids, and what `next_id` and the ids that were given out have in common.
change_item-ids :
    (id : Text) (f : LegacyItem → LegacyItem) (items : List LegacyItem)
    → ((i : LegacyItem) → (f i).id ≡ i.id)
    → legacy_ids (change_item id f items) ≡ legacy_ids items
unfolding change_item
change_item-ids id f [] same = refl
change_item-ids id f (i ∷ is) same = ground (arith, change_item-ids id f is same, same i)

abbrev SameIds : Legacy → Legacy → Type 0
SameIds t s = (legacy_ids t.items ≡ legacy_ids s.items) × (t.next_id ≡ s.next_id)

edit-SameIds : (s : Legacy) (id : Text) (g : Given) (t : Legacy) → edit s id g ≡ ok t → SameIds t s
unfolding edit
edit-SameIds s id g t h =
    let same = change_item-ids id (with_details g) s.items (λ i. refl) in
    (ground arith, ground arith)

transition-SameIds :
    (s : Legacy) (id action reason : Text) (t : Legacy)
    → transition s id action reason ≡ ok t
    → SameIds t s
unfolding transition acted start complete block unblock
transition-SameIds s id action reason t h =
    let started = change_item-ids id (with_status (live active)) s.items (λ i. refl) in
    let completed = change_item-ids id (noted LegacyStatus.done reason) s.items (λ i. refl) in
    let held = change_item-ids id (noted (live blocked) reason) s.items (λ i. refl) in
    let freed = change_item-ids id (with_status (live pending)) s.items (λ i. refl) in
    (ground arith, ground arith)

-- Every one of the ids was given out before `n`.
abbrev AllBelow : ℕ → List Text → Type 0
AllBelow n ids = All (λ (x : Text). id_number x < n) ids

AllBelow-suc : (n : ℕ) (ids : List Text) → AllBelow n ids → AllBelow (suc n) ids
AllBelow-suc n [] h = tt
AllBelow-suc n (x ∷ xs) h = (omega arith, AllBelow-suc n xs h.1)

AllBelow-fresh : (n : ℕ) (ids : List Text) → AllBelow n ids → contains (make_id n) ids ≡ false
unfolding contains
AllBelow-fresh n [] h = refl
AllBelow-fresh n (x ∷ xs) h =
    ground (arith, AllBelow-fresh n xs, id_number-make_id n, =ᵗ_iff (make_id n) x)

-- The queue validates, and every id was given out before `next_id`.
pub record IsNumbered (s : Legacy) : Type 0 where
  pub valid : validate s ≡ ok tt
  pub below : All (λ (x : Text). id_number x < s.next_id) (legacy_ids s.items)

pub empty-IsNumbered : IsNumbered empty_state
unfolding validate validate_items
empty-IsNumbered = record { valid = refl; below = tt }

SameIds-IsNumbered : {s t : Legacy} → SameIds t s → validate t ≡ ok tt → IsNumbered s → IsNumbered t
SameIds-IsNumbered same h v = record { valid = h; below = rw (same.0, same.1) v.below }

appended-IsNumbered :
    (s : Legacy) (title : Text) (refs : List Text) (note : Text)
    → IsNumbered s
    → IsNumbered (appended s title refs note)
unfolding validate contains
appended-IsNumbered s title refs note v =
    let new = new_item s title refs note in
    let unused = AllBelow-fresh s.next_id (legacy_ids s.items) v.below in
    let old = v.valid in
    record {
      valid = ground (arith, validate_items-snoc new [] s.items);
      below = rw map-append (
          All-append (λ (x : Text). id_number x < suc s.next_id) (legacy_ids s.items) (new.id ∷ [])
            (AllBelow-suc s.next_id (legacy_ids s.items) v.below)
            (omega (arith, id_number-make_id s.next_id), tt));
    }

append-eq-ok :
    (s : Legacy) (title : Text) (refs : List Text) (note : Text) (t : Legacy)
    → append s title refs note ≡ ok t
    → appended s title refs note ≡ t
unfolding append
append-eq-ok s title refs note t h = ground arith

-- Every version 1 command that is not refused keeps a queue that `_validate` accepts and whose ids
-- were all given out before `next_id`, so that no command makes an id that an item has.
pub commanded-IsNumbered :
    (c : Command) (s t : Legacy) → commanded c s ≡ ok t → IsNumbered s → IsNumbered t
unfolding commanded
commanded-IsNumbered Command.init s t h v =
    let same : s ≡ t = ground arith in subst IsNumbered same v
commanded-IsNumbered (Command.add title refs note) s t h v =
    subst IsNumbered (append-eq-ok s title refs note t h) (appended-IsNumbered s title refs note v)
commanded-IsNumbered (Command.edit id g) s t h v =
    SameIds-IsNumbered (edit-SameIds s id g t h) (edit-validate s id g t h v.valid) v
commanded-IsNumbered (Command.transition id action reason) s t h v =
    SameIds-IsNumbered (transition-SameIds s id action reason t h)
      (transition-validate s id action reason t h v.valid) v
