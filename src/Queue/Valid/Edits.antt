-- ===== src/Queue/Valid/Edits.antt =====
-- `op_edit` of tools/queue_core.py keeps a queue valid.
use agent_engineering_standa.Base.{
  ℕ, ◌≡◌, refl, ◌∙◌, inl, inr, Bool, true, false, ◌||◌, Option, none, some, List, [], ◌∷◌, Text,
  ◌=ᵗ◌, =ᵗ_iff, all, strip, length, ltb, ok, bind-eq-ok, arith, All, Bool-cases,
}
use agent_engineering_standa.Queue.Types.{State, Item, Details, Outcome}
use agent_engineering_standa.Queue.Ids.{is_id}
use agent_engineering_standa.Queue.Fields.{
  title_limit, note_limit, refs_limit, is_empty, text_of, refs_of, deps_of, distinct, earlier_ids,
}
use agent_engineering_standa.Queue.Query.{find_item}
use agent_engineering_standa.Queue.Validate.{fits, deps_in_order}
use agent_engineering_standa.Queue.Edit.{
  Change, edit, ◌=ᵗˢ◌, optional, proposal, differing, updated, changes, apply_details, change_item,
}
use agent_engineering_standa.Queue.Inversion.{edit-eq-ok}
use agent_engineering_standa.Queue.Valid.{IsItem, IsValid}
use agent_engineering_standa.Queue.Valid.Changes.{ids-change_item, find_item-All}
use agent_engineering_standa.Queue.Valid.Supplied.{
  are_earlier, text_of-fits, refs_of-fits, deps_of-earlier,
}
use agent_engineering_standa.Queue.Valid.Additions.{
  IsFilled, IsFilled-IsItem, IsItem-IsFilled, all-earlier, earlier_ids-is_id,
}

abbrev IfGiven : {A : Type 0} → (A → Type 0) → Option A → Type 0
IfGiven P none = Unit
IfGiven P (some a) = P a

optional-IfGiven :
    {A : Type 0} (P : A → Type 0) (check : A → Outcome A) (sound : (a b : A) → check a ≡ ok b → P b)
    (o r : Option A)
    → optional check o ≡ ok r
    → IfGiven P r
optional-IfGiven P check sound none r h = let same : r ≡ none = cc in rw same tt
optional-IfGiven P check sound (some a) r h =
    let (b, e, made) = bind-eq-ok (check a) _ h in
    let same : r ≡ some b = cc in rw same (sound a b e)

updated-holds :
    {A : Type 0} (P : A → Type 0) (eq : A → A → Bool) (old : A) (o : Option A)
    → P old
    → IfGiven P o
    → P (updated old (differing eq old o))
updated-holds P eq old none h g = h
updated-holds P eq old (some new) h g = elim (Bool-cases (eq old new)) [
  | inl same ↦ rw same h
  | inr other ↦ rw other g
]

abbrev IsTitle : Text → Type 0
IsTitle t = (is_empty (strip t) || ltb title_limit (length t)) ≡ false

abbrev AreRefs : List Text → Type 0
AreRefs rs = (ltb refs_limit (length rs) ≡ false) × (all fits rs ≡ true)

abbrev IsNote : Text → Type 0
IsNote n = ltb note_limit (length n) ≡ false

abbrev AreDeps : State → Text → List Text → Type 0
AreDeps s id ds =
    (distinct ds ≡ true) × (are_earlier id (earlier_ids id s.items s.archived) ds ≡ true)

record IsProposal (s : State) (id : Text) (p : Details) : Type 0 where
  title : IfGiven IsTitle p.title
  refs : IfGiven AreRefs p.refs
  note : IfGiven IsNote p.note
  deps : IfGiven (AreDeps s id) p.depends_on

text_of-IsTitle : (a b : Text) → text_of a title_limit true ≡ ok b → IsTitle b
text_of-IsTitle a b h = let (short, shown) = text_of-fits a title_limit true b h in ground arith

proposal-IsProposal :
    (s : State) (id : Text) (d p : Details) → proposal s id d ≡ ok p → IsProposal s id p
unfolding proposal
proposal-IsProposal s id d p h =
    let (t, et, h1) = bind-eq-ok (optional (λ x. text_of x title_limit true) d.title) _ h in
    let (rs, er, h2) = bind-eq-ok (optional refs_of d.refs) _ h1 in
    let (n, en, h3) = bind-eq-ok (optional (λ x. text_of x note_limit false) d.note) _ h2 in
    let (ds, ed, h4) = bind-eq-ok (optional (deps_of s id) d.depends_on) _ h3 in
    let same : p ≡ record { title = t; refs = rs; note = n; depends_on = ds } = cc in
    rw same (record {
      title =
          optional-IfGiven IsTitle (λ x. text_of x title_limit true) text_of-IsTitle d.title t et;
      refs = optional-IfGiven AreRefs refs_of refs_of-fits d.refs rs er;
      note =
          optional-IfGiven IsNote (λ x. text_of x note_limit false)
            (λ a b e. (text_of-fits a note_limit false b e).0) d.note n en;
      deps =
          optional-IfGiven (AreDeps s id) (deps_of s id) (deps_of-earlier s id) d.depends_on ds ed;
    })

-- The dependencies of an item in a valid queue are earlier ones.
found-earlier :
    (id : Text) (items : List Item) (seen : List Text) (i : Item)
    → find_item id items ≡ some i
    → deps_in_order seen items ≡ true
    → are_earlier id (earlier_ids id items seen) i.depends_on ≡ true
unfolding find_item deps_in_order earlier_ids
found-earlier id [] seen i f h = cc
found-earlier id (j ∷ js) seen i f h = elim (Bool-cases (j.id =ᵗ id)) [
  | inl here ↦
      let same : j ≡ i = ground arith in rw (here, ← same, ← (=ᵗ_iff j.id id).0 here) (ground arith)
  | inr other ↦ rw other (found-earlier id js (j.id ∷ seen) i (ground arith) (ground arith))
]

module _ (id : Text) (f : Item → Item) (i : Item) (same_id : (f i).id ≡ id) where
  deps_in_order-change :
      (items : List Item) (seen : List Text)
      → find_item id items ≡ some i
      → are_earlier id (earlier_ids id items seen) (f i).depends_on ≡ true
      → deps_in_order seen items ≡ true
      → deps_in_order seen (change_item id f items) ≡ true
  unfolding find_item deps_in_order earlier_ids change_item
  deps_in_order-change [] seen found e h = cc
  deps_in_order-change (j ∷ js) seen found e h = elim (Bool-cases (j.id =ᵗ id)) [
    | inl here ↦
        let same : j ≡ i = ground arith in
        let key : j.id ≡ id = (=ᵗ_iff j.id id).0 here in
        let deps : are_earlier id seen (f i).depends_on ≡ true = ground arith in
        let tail : deps_in_order (id ∷ seen) js ≡ true = rw (← key) (ground arith) in
        rw here (rw same (rw same_id (rw deps tail)))
    | inr other ↦ rw other (ground (arith, deps_in_order-change js (j.id ∷ seen)))
  ]

  All-change :
      (n : ℕ) (items : List Item)
      → find_item id items ≡ some i
      → IsItem n (f i)
      → All (IsItem n) items
      → All (IsItem n) (change_item id f items)
  unfolding find_item change_item
  All-change n [] found new v = cc
  All-change n (j ∷ js) found new (first, rest) = elim (Bool-cases (j.id =ᵗ id)) [
    | inl here ↦ let same : j ≡ i = ground arith in rw here (rw same new, rest)
    | inr other ↦ rw other (first, All-change n js (ground arith) new rest)
  ]

module _ (s : State) (id : Text) (i : Item) (p : Details) (q : IsProposal s id p) where
  edited-AreDeps :
      AreDeps s id i.depends_on → AreDeps s id (apply_details (changes i p) i).depends_on
  unfolding apply_details changes
  edited-AreDeps old = updated-holds (AreDeps s id) ◌=ᵗˢ◌ i.depends_on p.depends_on old q.deps

  edited-IsFilled :
      IsValid s
      → AreDeps s id i.depends_on
      → IsFilled s.next_id i
      → IsFilled s.next_id (apply_details (changes i p) i)
  unfolding apply_details changes
  edited-IsFilled v old filled =
      let (once, before) =
        updated-holds (AreDeps s id) ◌=ᵗˢ◌ i.depends_on p.depends_on old q.deps in
      let (few, fitting) =
        updated-holds AreRefs ◌=ᵗˢ◌ i.refs p.refs (filled.few, filled.fitting) q.refs in
      record {
        shape = filled.shape;
        below = filled.below;
        titled = updated-holds IsTitle ◌=ᵗ◌ i.title p.title filled.titled q.title;
        few = few;
        fitting = fitting;
        noted = updated-holds IsNote ◌=ᵗ◌ i.note p.note filled.noted q.note;
        dep_ids =
            all-earlier is_id id (earlier_ids id s.items s.archived) _
              (earlier_ids-is_id id s.next_id s.items s.archived v.items v.archived) before;
        dep_once = once;
      }

apply_details-id : (d : Details) (i : Item) → (apply_details d i).id ≡ i.id
unfolding apply_details
apply_details-id d i = refl

pub edit-IsValid :
    (s : State) (id : Text) (d : Details) (c : Change)
    → IsValid s
    → edit s id d ≡ ok c
    → IsValid c.0
edit-IsValid s id d c v h =
    let (i, p, found, proposed, new) = edit-eq-ok s id d c h in
    let f = apply_details (changes i p) in
    let q = proposal-IsProposal s id d p proposed in
    let (item, key) = find_item-All id s.items s.next_id i found v.items in
    let filled = IsItem-IsFilled s.next_id i item in
    let old : AreDeps s id i.depends_on =
      (filled.dep_once, found-earlier id s.items s.archived i found v.ordered) in
    let same_ids = ids-change_item id f (apply_details-id (changes i p)) s.items in
    rw new (record {
      cap = v.cap;
      version = v.version;
      owner = v.owner;
      next = v.next;
      items =
          All-change id f i (apply_details-id (changes i p) i ∙ key) s.next_id s.items found
            (IsFilled-IsItem s.next_id (f i) (edited-IsFilled s id i p q v old filled)) v.items;
      archived = v.archived;
      archived_once = v.archived_once;
      once = rw same_ids v.once;
      apart = rw same_ids v.apart;
      below = v.below;
      ordered =
          deps_in_order-change id f i (apply_details-id (changes i p) i ∙ key) s.items s.archived
            found (edited-AreDeps s id i p q old).1 v.ordered;
      head = v.head;
      seq = v.seq;
      handoff = v.handoff;
    })
