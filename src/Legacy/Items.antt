-- ===== src/Legacy/Items.antt =====
-- tools/work_queue.py, the pure core of the version 1 queue but for `parse` and `render`. The state
-- is a `Legacy`, which has the fields that `_validate` asks for, each of its type.
use agent_engineering_standa.Base.{
  suc, Bool, true, false, Option, none, some, List, [], ◌∷◌, ◌++◌, Text, ◌=ᵗ◌, codes, contains,
  strip, leb, ◌==◌, Result, ok, err, refuse, guard, ◌>>=◌, ◌>>◌, if◌then◌else◌,
}
use agent_engineering_standa.Queue.Types.{
  pending, active, blocked, LegacyStatus, live, LegacyItem, Legacy,
}
use agent_engineering_standa.Queue.Ids.{make_id}
use agent_engineering_standa.Queue.Fields.{is_empty}

-- One constructor for each `raise`.
pub data Refusal : Type 0 where
  -- QueueFormatError
  no_block malformed not_version_one bad_next_id : Refusal
  duplicate : Text → Refusal
  -- QueueError
  no_item : Text → Refusal
  untitled : Refusal
  earlier_item : Text → Text → LegacyStatus → Refusal
  already_done not_blocked : Text → Refusal
  no_evidence no_reason : Refusal
  unknown_transition : Text → Refusal
  already_there : Refusal
  -- ConcurrentChangeError
  changed : Refusal

abbrev pub Answer : Type 0 → Type 0
Answer A = Result Refusal A

-- The loop of `_validate` over the items, with the ids that it has seen.
unfoldable pub validate_items : List Text → List LegacyItem → Answer (Unit {0})
validate_items seen [] = ok tt
validate_items seen (i ∷ is) = do
  refuse (contains i.id seen) (duplicate i.id)
  validate_items (i.id ∷ seen) is

-- `_validate`
unfoldable pub validate : Legacy → Answer (Unit {0})
validate state = do
  guard (state.version == 1) not_version_one
  guard (leb 1 state.next_id) bad_next_id
  validate_items [] state.items

-- Neither done nor blocked.
abbrev pub is_open : LegacyItem → Bool
is_open i = elim i.status [
  | live pending ↦ true
  | live active ↦ true
  | live blocked ↦ false
  | LegacyStatus.done ↦ false
]

unfoldable pub first_open : List LegacyItem → Option LegacyItem
first_open [] = none
first_open (i ∷ is) = let rest = first_open is in if is_open i then some i else rest

unfoldable pub next_item : Legacy → Option LegacyItem
unfolding first_open
next_item state = first_open state.items

-- The loop of `_find`.
unfoldable pub find_item : Text → List LegacyItem → Option LegacyItem
find_item id [] = none
find_item id (i ∷ is) = let rest = find_item id is in if i.id =ᵗ id then some i else rest

-- `_find`
unfoldable pub find : Legacy → Text → Answer LegacyItem
find state id = elim (find_item id state.items) [ none ↦ err (no_item id) | some i ↦ ok i ]

-- A change of the item that `_find` returns.
unfoldable pub change_item : Text → (LegacyItem → LegacyItem) → List LegacyItem → List LegacyItem
change_item id f [] = []
change_item id f (i ∷ is) =
    let rest = change_item id f is in if i.id =ᵗ id then f i ∷ is else i ∷ rest

abbrev pub is_blank : Text → Bool
is_blank t = is_empty (strip t)

abbrev pub new_item : Legacy → Text → List Text → Text → LegacyItem
new_item state title refs note = record {
  id = make_id state.next_id;
  title = strip title;
  refs = refs;
  status = live pending;
  note = note;
}

abbrev pub appended : Legacy → Text → List Text → Text → Legacy
appended state title refs note = record state {
  items = state.items ++ (new_item state title refs note ∷ []);
  next_id = suc state.next_id;
}

unfoldable pub append : Legacy → Text → List Text → Text → Answer Legacy
append state title refs note = do
  refuse (is_blank title) untitled
  ok (appended state title refs note)

-- What an edit gives; `none` is a value that was not given.
pub record Given : Type 0 where
  pub title : Option Text
  pub refs : Option (List Text)
  pub note : Option Text

abbrev pub blank_title : Option Text → Bool
blank_title none = false
blank_title (some t) = is_blank t

abbrev pub given {ℓ} : {A : Type ℓ} → Option A → A → A
given none old = old
given (some new) old = new

abbrev pub stripped : Option Text → Option Text
stripped none = none
stripped (some t) = some (strip t)

abbrev pub with_details : Given → LegacyItem → LegacyItem
with_details g i = record i {
  title = given (stripped g.title) i.title;
  refs = given g.refs i.refs;
  note = given g.note i.note;
}

abbrev pub changed_items : Legacy → Text → (LegacyItem → LegacyItem) → Legacy
changed_items state id f = record state { items = change_item id f state.items }

unfoldable pub edit : Legacy → Text → Given → Answer Legacy
edit state id g = do
  item ← find state id
  refuse (blank_title g.title) untitled
  ok (changed_items state id (with_details g))

-- The loop over the earlier items.
unfoldable pub check_earlier : Text → List LegacyItem → Answer (Unit {0})
check_earlier id [] = ok tt
check_earlier id (i ∷ is) =
    let rest = check_earlier id is in
    if i.id =ᵗ id then ok tt else if is_open i then err (earlier_item id i.id i.status) else rest

abbrev pub is_done : LegacyItem → Bool
is_done i = elim i.status [ live s ↦ false | LegacyStatus.done ↦ true ]

abbrev pub is_blocked : LegacyItem → Bool
is_blocked i = elim i.status [
  | live pending ↦ false
  | live active ↦ false
  | live blocked ↦ true
  | LegacyStatus.done ↦ false
]

abbrev pub with_status : LegacyStatus → LegacyItem → LegacyItem
with_status s i = record i { status = s }

abbrev pub noted : LegacyStatus → Text → LegacyItem → LegacyItem
noted s reason i = record i { status = s; note = strip reason }

unfoldable pub start : Legacy → Text → LegacyItem → Answer Legacy
start state id item = do
  check_earlier id state.items
  refuse (is_done item) (already_done id)
  ok (changed_items state id (with_status (live active)))

unfoldable pub complete : Legacy → Text → Text → Answer Legacy
complete state id reason = do
  refuse (is_blank reason) no_evidence
  ok (changed_items state id (noted LegacyStatus.done reason))

unfoldable pub block : Legacy → Text → Text → Answer Legacy
block state id reason = do
  refuse (is_blank reason) no_reason
  ok (changed_items state id (noted (live blocked) reason))

unfoldable pub unblock : Legacy → Text → LegacyItem → Answer Legacy
unblock state id item = do
  guard (is_blocked item) (not_blocked id)
  ok (changed_items state id (with_status (live pending)))

-- The branches on the action.
unfoldable pub acted : Legacy → Text → Text → Text → LegacyItem → Answer Legacy
acted state id action reason item =
    if action =ᵗ codes "start"
    then start state id item
    else if action =ᵗ codes "done"
    then complete state id reason
    else if action =ᵗ codes "block"
    then block state id reason
    else if action =ᵗ codes "unblock"
    then unblock state id item
    else err (unknown_transition action)

unfoldable pub transition : Legacy → Text → Text → Text → Answer Legacy
unfolding acted
transition state id action reason = do item ← find state id; acted state id action reason item

abbrev pub empty_state : Legacy
empty_state = record { version = 1; next_id = 1; items = [] }
