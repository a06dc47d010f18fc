-- ===== src/Queue/Valid/Additions.antt =====
-- `op_add` of tools/queue_core.py keeps a queue valid.
use mathlib.Core.List.{map-append}
use agent_engineering_standa.Base.{
  ℕ, ◌+◌, ◌<◌, ◌≡◌, refl, ◌∙◌, Bool, true, false, ◌||◌, List, [], ◌∷◌, ◌++◌, Text, =ᵗ_iff, contains,
  any-append, all, any, strip, length, ltb, ok, arith, All, All-map, All-append,
}
use agent_engineering_standa.Queue.Types.{State, Item}
use agent_engineering_standa.Queue.Ids.{is_id, id_number, make_id, id_number-make_id, make_id-is_id}
use agent_engineering_standa.Queue.Fields.{
  title_limit, note_limit, refs_limit, is_empty, text_of, refs_of, deps_of, distinct, earlier_ids,
}
use agent_engineering_standa.Queue.Query.{ids}
use agent_engineering_standa.Queue.Validate.{fits, check_id_list, validate_item, deps_in_order}
use agent_engineering_standa.Queue.Edit.{Change, add}
use agent_engineering_standa.Queue.Inversion.{new_item, add-eq-ok}
use agent_engineering_standa.Queue.Valid.{IsItem, IsValid}
use agent_engineering_standa.Queue.Valid.Changes.{distinct-snoc, IsItem-id}
use agent_engineering_standa.Queue.Valid.Supplied.{
  are_earlier, text_of-fits, refs_of-fits, deps_of-earlier,
}

all-contains :
    (p : Text → Bool) (xs : List Text) (x : Text)
    → all p xs ≡ true
    → contains x xs ≡ true
    → p x ≡ true
unfolding contains
all-contains p [] x h c = cc
all-contains p (y ∷ ys) x h c = ground (arith, all-contains p ys x, =ᵗ_iff x y)

pub all-earlier :
    (p : Text → Bool) (id : Text) (earlier ds : List Text)
    → all p earlier ≡ true
    → are_earlier id earlier ds ≡ true
    → all p ds ≡ true
all-earlier p id earlier [] h e = refl
all-earlier p id earlier (d ∷ ds) h e =
    ground (arith, all-earlier p id earlier ds, all-contains p earlier d)

-- The ids that a dependency may have are ids.
pub earlier_ids-is_id :
    (id : Text) (n : ℕ) (items : List Item) (seen : List Text)
    → All (IsItem n) items
    → all is_id seen ≡ true
    → all is_id (earlier_ids id items seen) ≡ true
unfolding earlier_ids
earlier_ids-is_id id n [] seen v h = h
earlier_ids-is_id id n (i ∷ is) seen (first, rest) h =
    ground (arith, earlier_ids-is_id id n is (i.id ∷ seen) rest, (IsItem-id n i first).0)

-- The fields of an item, one by one.
pub record IsFilled (n : ℕ) (i : Item) : Type 0 where
  pub shape : is_id i.id ≡ true
  pub below : ltb (id_number i.id) n ≡ true
  pub titled : (is_empty (strip i.title) || ltb title_limit (length i.title)) ≡ false
  pub few : ltb refs_limit (length i.refs) ≡ false
  pub fitting : all fits i.refs ≡ true
  pub noted : ltb note_limit (length i.note) ≡ false
  pub dep_ids : all is_id i.depends_on ≡ true
  pub dep_once : distinct i.depends_on ≡ true

pub IsFilled-IsItem : (n : ℕ) (i : Item) → IsFilled n i → IsItem n i
unfolding validate_item check_id_list
IsFilled-IsItem n i f =
    rw (f.shape, f.below, f.titled, f.few, f.fitting, f.noted, f.dep_ids, f.dep_once) refl

pub IsItem-IsFilled : (n : ℕ) (i : Item) → IsItem n i → IsFilled n i
unfolding validate_item check_id_list
IsItem-IsFilled n i h = record {
  shape = ground arith;
  below = ground arith;
  titled = ground arith;
  few = ground arith;
  fitting = ground arith;
  noted = ground arith;
  dep_ids = ground arith;
  dep_once = ground arith;
}

IsItem-suc : (n : ℕ) (i : Item) → IsItem n i → IsItem (n + 1) i
IsItem-suc n i h =
    let f = IsItem-IsFilled n i h in
    IsFilled-IsItem (n + 1) i (record {
      shape = f.shape;
      below = ground arith;
      titled = f.titled;
      few = f.few;
      fitting = f.fitting;
      noted = f.noted;
      dep_ids = f.dep_ids;
      dep_once = f.dep_once;
    })

-- No id has the next number.
fresh-items :
    (n : ℕ) (items : List Item) → All (IsItem n) items → contains (make_id n) (ids items) ≡ false
unfolding contains
fresh-items n [] v = refl
fresh-items n (i ∷ is) (first, rest) = ground (
  arith,
  fresh-items n is rest,
  (IsItem-id n i first).1,
  id_number-make_id n,
  =ᵗ_iff (make_id n) i.id,
)

fresh-ids :
    (n : ℕ) (xs : List Text)
    → all (λ i. ltb (id_number i) n) xs ≡ true
    → contains (make_id n) xs ≡ false
unfolding contains
fresh-ids n [] h = refl
fresh-ids n (x ∷ xs) h = ground (arith, fresh-ids n xs, id_number-make_id n, =ᵗ_iff (make_id n) x)

below-suc :
    (n : ℕ) (xs : List Text)
    → all (λ i. ltb (id_number i) n) xs ≡ true
    → all (λ i. ltb (id_number i) (n + 1)) xs ≡ true
below-suc n [] h = refl
below-suc n (x ∷ xs) h = ground (arith, below-suc n xs)

deps_in_order-snoc :
    (x : Item) (items : List Item) (seen : List Text)
    → deps_in_order seen items ≡ true
    → contains x.id (ids items) ≡ false
    → are_earlier x.id (earlier_ids x.id items seen) x.depends_on ≡ true
    → deps_in_order seen (items ++ (x ∷ [])) ≡ true
unfolding deps_in_order earlier_ids contains
deps_in_order-snoc x [] seen h f e = ground arith
deps_in_order-snoc x (i ∷ is) seen h f e =
    ground (arith, deps_in_order-snoc x is (i.id ∷ seen), =ᵗ_iff x.id i.id, =ᵗ_iff i.id x.id)

any-snoc :
    (archived xs : List Text) (x : Text)
    → any (λ i. contains i archived) xs ≡ false
    → contains x archived ≡ false
    → any (λ i. contains i archived) (xs ++ (x ∷ [])) ≡ false
any-snoc archived xs x h e = any-append (λ i. contains i archived) xs (x ∷ []) ∙ ground arith

module _ (s : State) (title : Text) (refs : List Text) (note : Text) (deps : List Text) where
  new_item-IsItem :
      (t : Text) (rs : List Text) (n : Text) (ds : List Text)
      → s.next_id < 1000000
      → IsValid s
      → text_of title title_limit true ≡ ok t
      → refs_of refs ≡ ok rs
      → text_of note note_limit false ≡ ok n
      → deps_of s (make_id s.next_id) deps ≡ ok ds
      → IsItem (s.next_id + 1) (new_item s t rs n ds)
  new_item-IsItem t rs n ds small v et er en ed =
      let (short, shown) = text_of-fits title title_limit true t et in
      let (few, fitting) = refs_of-fits refs rs er in
      let (noted, blank) = text_of-fits note note_limit false n en in
      let (once, before) = deps_of-earlier s (make_id s.next_id) deps ds ed in
      IsFilled-IsItem (s.next_id + 1) (new_item s t rs n ds) (record {
        shape = make_id-is_id s.next_id small;
        below = ground (arith, id_number-make_id s.next_id);
        titled = ground arith;
        few = few;
        fitting = fitting;
        noted = noted;
        dep_ids =
            all-earlier is_id (make_id s.next_id)
              (earlier_ids (make_id s.next_id) s.items s.archived) ds
              (earlier_ids-is_id (make_id s.next_id) s.next_id s.items s.archived v.items
                v.archived)
              before;
        dep_once = once;
      })

  pub add-IsValid :
      (c : Change)
      → s.next_id < 1000000
      → IsValid s
      → add s title refs note deps ≡ ok c
      → IsValid c.0
  add-IsValid c small v h =
      let (t, rs, n, ds, et, er, en, ed, new) = add-eq-ok s title refs note deps c h in
      let x = new_item s t rs n ds in
      let (once, before) = deps_of-earlier s (make_id s.next_id) deps ds ed in
      let fresh = fresh-items s.next_id s.items v.items in
      let split : ids (s.items ++ (x ∷ [])) ≡ ids s.items ++ (x.id ∷ []) =
        map-append _ s.items (x ∷ []) in
      rw new (record {
        cap = v.cap;
        version = v.version;
        owner = v.owner;
        next = ground arith;
        items =
            All-append (IsItem (s.next_id + 1)) s.items (x ∷ [])
              (All-map (IsItem-suc s.next_id) s.items v.items)
              (new_item-IsItem t rs n ds small v et er en ed, tt);
        archived = v.archived;
        archived_once = v.archived_once;
        once = rw split (distinct-snoc (ids s.items) x.id v.once fresh);
        apart = rw split (
            any-snoc s.archived (ids s.items) x.id v.apart
              (fresh-ids s.next_id s.archived v.below));
        below = below-suc s.next_id s.archived v.below;
        ordered = deps_in_order-snoc x s.items s.archived v.ordered fresh before;
        head = v.head;
        seq = v.seq;
        handoff = v.handoff;
      })
