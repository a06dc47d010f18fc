-- ===== src/Queue/Edit.antt =====
-- tools/queue_core.py: `op_init`, `op_add`, `op_edit`, `op_limit` and `op_handoff`.
use agent_engineering_standa.Base.{
  ℕ, ◌+◌, Bool, true, false, ◌&&◌, Option, none, some, List, [], ◌∷◌, ◌++◌, Text, ◌=ᵗ◌, strip,
  length, ltb, leb, ◌==◌, ok, refuse, guard, ◌>>=◌, ◌>>◌, if◌then◌else◌,
}
use agent_engineering_standa.Queue.Types.{
  pending, Item, Handoff, State, Details, Draft, Payload, Outcome, event, op_init, op_add, op_edit,
  op_limit, op_handoff, nothing, text, number, whole, details, founded, limited, digest, bad_owner,
  unchanged_edit, not_owner, bad_limit, same_limit, below_running, empty_handoff, long_handoff,
}
use agent_engineering_standa.Queue.Ids.{make_id}
use agent_engineering_standa.Queue.Fields.{
  title_limit, note_limit, reason_limit, handoff_limit, is_empty, text_of, refs_of, deps_of,
}
use agent_engineering_standa.Queue.Query.{find, max_active, active_items}
use agent_engineering_standa.Queue.Validate.{is_owner, max_parallel}

abbrev pub Change : Type 0
Change = State × List Draft

abbrev pub empty_queue : Text → State
empty_queue owner = record {
  version = 2;
  owner = owner;
  next_id = 1;
  items = [];
  archived = [];
  history = record { seq = 0; head = none };
  handoff = none;
  max_active = none;
}

unfoldable pub init : Text → Outcome Change
init owner = do
  guard (is_owner owner) bad_owner
  ok (empty_queue owner, event op_init none nothing (founded owner) [] ∷ [])

unfoldable pub add : State → Text → List Text → Text → List Text → Outcome Change
add state title refs note depends_on =
    let id = make_id state.next_id in
    do
      t ← text_of title title_limit true
      rs ← refs_of refs
      n ← text_of note note_limit false
      ds ← deps_of state id depends_on
      let item : Item = record {
        id = id;
        title = t;
        refs = rs;
        status = pending;
        note = n;
        depends_on = ds;
      }
      ok (
        record state { items = state.items ++ (item ∷ []); next_id = state.next_id + 1 },
        event op_add (some id) nothing (whole item) [] ∷ [],
      )

-- A list comparison, `==` on lists of texts.
infix 50 ◌=ᵗˢ◌
unfoldable pub ◌=ᵗˢ◌ : List Text → List Text → Bool
unfolding ◌=ᵗ◌
[] =ᵗˢ [] = true
(x ∷ xs) =ᵗˢ (y ∷ ys) = (x =ᵗ y) && (xs =ᵗˢ ys)
_ =ᵗˢ _ = false

-- An optional argument, checked if it is given.
abbrev pub optional : {A : Type 0} → (A → Outcome A) → Option A → Outcome (Option A)
optional check none = ok none
optional check (some a) = do b ← check a; ok (some b)

unfoldable pub proposal : State → Text → Details → Outcome Details
proposal state id d = do
  t ← optional (λ x. text_of x title_limit true) d.title
  rs ← optional refs_of d.refs
  n ← optional (λ x. text_of x note_limit false) d.note
  ds ← optional (deps_of state id) d.depends_on
  ok (record { title = t; refs = rs; note = n; depends_on = ds })

abbrev pub differing : {A : Type 0} → (A → A → Bool) → A → Option A → Option A
differing eq old none = none
differing eq old (some new) = if eq old new then none else some new

abbrev old_of : {A : Type 0} → A → Option A → Option A
old_of old none = none
old_of old (some new) = some old

abbrev pub updated : {A : Type 0} → A → Option A → A
updated old none = old
updated old (some new) = new

-- `{k: v for k, v in proposed.items() if item[k] != v}`
unfoldable pub changes : Item → Details → Details
changes item d = record {
  title = differing ◌=ᵗ◌ item.title d.title;
  refs = differing ◌=ᵗˢ◌ item.refs d.refs;
  note = differing ◌=ᵗ◌ item.note d.note;
  depends_on = differing ◌=ᵗˢ◌ item.depends_on d.depends_on;
}

abbrev absent : {A : Type 0} → Option A → Bool
absent none = true
absent (some a) = false

abbrev no_change : Details → Bool
no_change d = absent d.title && absent d.refs && absent d.note && absent d.depends_on

-- `item.update(changed)`
unfoldable pub apply_details : Details → Item → Item
apply_details d item = record item {
  title = updated item.title d.title;
  refs = updated item.refs d.refs;
  note = updated item.note d.note;
  depends_on = updated item.depends_on d.depends_on;
}

-- A change to the item with an id.
unfoldable pub change_item : Text → (Item → Item) → List Item → List Item
change_item id f [] = []
change_item id f (i ∷ is) =
    let rest = change_item id f is in if i.id =ᵗ id then f i ∷ is else i ∷ rest

abbrev before_details : Item → Details → Details
before_details item d = record {
  title = old_of item.title d.title;
  refs = old_of item.refs d.refs;
  note = old_of item.note d.note;
  depends_on = old_of item.depends_on d.depends_on;
}

-- `op_edit`, once the item is found and the changes are known.
unfoldable pub edited : State → Text → Item → Details → Outcome Change
edited state id item changed = do
  refuse (no_change changed) unchanged_edit
  ok (
    record state { items = change_item id (apply_details changed) state.items },
    event op_edit (some id) (details (before_details item changed)) (details changed) [] ∷ [],
  )

unfoldable pub edit : State → Text → Details → Outcome Change
edit state id d = do
  item ← find state id
  proposed ← proposal state id d
  edited state id item (changes item proposed)

unfoldable pub limit : State → ℕ → Text → Text → Outcome Change
limit state n authorized_by reason =
    let running = length (active_items state.items) in
    do
      guard (authorized_by =ᵗ state.owner) not_owner
      r ← text_of reason reason_limit true
      guard (leb 1 n && leb n max_parallel) (bad_limit n)
      refuse (n == max_active state) (same_limit n)
      refuse (ltb n running) (below_running n running)
      ok (
        record state { max_active = some n },
        event op_limit none (number (max_active state)) (limited n authorized_by) r ∷ [],
      )

abbrev previous_digest : Option Handoff → Payload
previous_digest none = nothing
previous_digest (some h) = text h.sha256

-- `text_digest` is the parameter: the sha256 of the UTF-8 bytes, in hexadecimal.
module _ (text_digest : Text → Text) where
  abbrev pub handoff_draft : State → Text → Draft
  handoff_draft state value =
      let plain =
        event op_handoff none (previous_digest state.handoff)
          (digest (text_digest value) (length value)) [] in
      record plain { text = some value }

  unfoldable pub handoff : State → Text → Outcome Change
  handoff state value = do
    refuse (is_empty (strip value)) empty_handoff
    refuse (ltb handoff_limit (length value)) long_handoff
    ok (state, handoff_draft state value ∷ [])
