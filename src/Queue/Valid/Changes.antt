-- ===== src/Queue/Valid/Changes.antt =====
-- Validity when one item changes and when one leaves the queue.
use agent_engineering_standa.Base.{
  ℕ, ◌≡◌, refl, inl, inr, Bool, true, false, not, ◌&&◌, some, List, [], ◌∷◌, ◌++◌, Text, ◌=ᵗ◌,
  =ᵗ_iff, contains, contains-append, all, any, ltb, arith, All, Bool-cases,
}
use agent_engineering_standa.Queue.Types.{State, Item}
use agent_engineering_standa.Queue.Ids.{is_id, id_number}
use agent_engineering_standa.Queue.Fields.{distinct}
use agent_engineering_standa.Queue.Query.{ids, find_item}
use agent_engineering_standa.Queue.Validate.{validate_item, deps_in_order}
use agent_engineering_standa.Queue.Edit.{change_item}
use agent_engineering_standa.Queue.Transition.{remove_item}
use agent_engineering_standa.Queue.Valid.{IsItem, IsValid}

-- A change that keeps the id and the dependencies.
module _ (id : Text) (f : Item → Item) (same_id : (i : Item) → (f i).id ≡ i.id) where
  pub ids-change_item : (items : List Item) → ids (change_item id f items) ≡ ids items
  unfolding change_item
  ids-change_item [] = refl
  ids-change_item (i ∷ is) = ground (arith, ids-change_item is, same_id i)

  All-change_item :
      (n : ℕ) (items : List Item)
      → ((i : Item) → IsItem n i → IsItem n (f i))
      → All (IsItem n) items
      → All (IsItem n) (change_item id f items)
  unfolding change_item
  All-change_item n [] keeps v = tt
  All-change_item n (i ∷ is) keeps (first, rest) = elim (Bool-cases (i.id =ᵗ id)) [
    | inl here ↦ rw here (keeps i first, rest)
    | inr other ↦ rw other (first, All-change_item n is keeps rest)
  ]

  deps_in_order-change_item :
      (same_deps : (i : Item) → (f i).depends_on ≡ i.depends_on) (seen : List Text)
      (items : List Item)
      → deps_in_order seen (change_item id f items) ≡ deps_in_order seen items
  unfolding change_item deps_in_order
  deps_in_order-change_item same_deps seen [] = refl
  deps_in_order-change_item same_deps seen (i ∷ is) = elim (Bool-cases (i.id =ᵗ id)) [
    | inl here ↦ rw (here, same_id i, same_deps i)
    | inr other ↦ rw (other, deps_in_order-change_item same_deps (i.id ∷ seen) is)
  ]

  pub change_item-IsValid :
      ((i : Item) → (f i).depends_on ≡ i.depends_on)
      → ((n : ℕ) (i : Item) → IsItem n i → IsItem n (f i))
      → (s : State) → IsValid s
      → IsValid (record s { items = change_item id f s.items })
  change_item-IsValid same_deps keeps s v = record {
    cap = v.cap;
    version = v.version;
    owner = v.owner;
    next = v.next;
    items = All-change_item s.next_id s.items (keeps s.next_id) v.items;
    archived = v.archived;
    archived_once = v.archived_once;
    once = rw (ids-change_item s.items) v.once;
    apart = rw (ids-change_item s.items) v.apart;
    below = v.below;
    ordered = rw (deps_in_order-change_item same_deps s.archived s.items) v.ordered;
    head = v.head;
    seq = v.seq;
    handoff = v.handoff;
  }

-- Facts about the item that leaves.
module _ (id : Text) where
  pub All-remove_item :
      (n : ℕ) (items : List Item) → All (IsItem n) items → All (IsItem n) (remove_item id items)
  unfolding remove_item
  All-remove_item n [] v = tt
  All-remove_item n (i ∷ is) (first, rest) = elim (Bool-cases (i.id =ᵗ id)) [
    | inl here ↦ rw here rest
    | inr other ↦ rw other (first, All-remove_item n is rest)
  ]

  contains-remove_item :
      (x : Text) (items : List Item)
      → contains x (ids items) ≡ false
      → contains x (ids (remove_item id items)) ≡ false
  unfolding remove_item contains
  contains-remove_item x [] h = refl
  contains-remove_item x (i ∷ is) h = ground (arith, contains-remove_item x is)

  pub distinct-remove_item :
      (items : List Item)
      → distinct (ids items) ≡ true
      → distinct (ids (remove_item id items)) ≡ true
  unfolding remove_item distinct
  distinct-remove_item [] h = refl
  distinct-remove_item (i ∷ is) h =
      ground (arith, distinct-remove_item is, contains-remove_item i.id is)

  -- Under distinct ids the removed id is gone.
  pub removed :
      (items : List Item)
      → distinct (ids items) ≡ true
      → contains id (ids (remove_item id items)) ≡ false
  unfolding remove_item distinct contains
  removed [] h = refl
  removed (i ∷ is) h = ground (arith, removed is, =ᵗ_iff i.id id, =ᵗ_iff id i.id)

  any-archived :
      (archived : List Text) (items : List Item)
      → contains id (ids items) ≡ false
      → any (λ i. contains i archived) (ids items) ≡ false
      → any (λ i. contains i (archived ++ (id ∷ []))) (ids items) ≡ false
  unfolding contains
  any-archived archived [] gone h = refl
  any-archived archived (i ∷ is) gone h = ground (
    arith,
    any-archived archived is,
    contains-append i.id archived (id ∷ []),
    =ᵗ_iff i.id id,
    =ᵗ_iff id i.id,
  )

  pub any-remove_item :
      (p : Text → Bool) (items : List Item)
      → any p (ids items) ≡ false
      → any p (ids (remove_item id items)) ≡ false
  unfolding remove_item
  any-remove_item p [] h = refl
  any-remove_item p (i ∷ is) h = ground (arith, any-remove_item p is)

-- More ids seen leave more dependencies met.
module _ (a b : List Text) (more : (x : Text) → contains x a ≡ true → contains x b ≡ true) where
  pub deps_mono :
      (id : Text) (deps : List Text)
      → all (λ d. not (d =ᵗ id) && contains d a) deps ≡ true
      → all (λ d. not (d =ᵗ id) && contains d b) deps ≡ true
  deps_mono id [] h = refl
  deps_mono id (d ∷ ds) h = ground (arith, deps_mono id ds, more d)

cons-more :
    (a b : List Text) (i : Text)
    → ((x : Text) → contains x a ≡ true → contains x b ≡ true)
    → (x : Text) → contains x (i ∷ a) ≡ true
    → contains x (i ∷ b) ≡ true
unfolding contains
cons-more a b i more x h = ground (arith, more x)

pub deps_in_order_mono :
    (a b : List Text) (items : List Item)
    → ((x : Text) → contains x a ≡ true → contains x b ≡ true)
    → deps_in_order a items ≡ true
    → deps_in_order b items ≡ true
unfolding deps_in_order
deps_in_order_mono a b [] more h = refl
deps_in_order_mono a b (i ∷ is) more h = ground (
  arith,
  deps_mono a b more i.id i.depends_on,
  deps_in_order_mono (i.id ∷ a) (i.id ∷ b) is (cons-more a b i.id more),
)

contains-swap :
    (i j : Text) (seen : List Text) (x : Text)
    → contains x (i ∷ j ∷ seen) ≡ true
    → contains x (j ∷ i ∷ seen) ≡ true
unfolding contains
contains-swap i j seen x h = ground arith

contains-cons :
    (i : Text) (seen : List Text) (x : Text) → contains x seen ≡ true → contains x (i ∷ seen) ≡ true
unfolding contains
contains-cons i seen x h = ground arith

contains-snoc :
    (i : Text) (seen : List Text) (x : Text)
    → contains x (i ∷ seen) ≡ true
    → contains x (seen ++ (i ∷ [])) ≡ true
unfolding contains
contains-snoc i seen x h = ground (arith, contains-append x seen (i ∷ []))

deps_in_order-remove_item :
    (id : Text) (seen : List Text) (items : List Item)
    → deps_in_order seen items ≡ true
    → deps_in_order (id ∷ seen) (remove_item id items) ≡ true
unfolding deps_in_order remove_item
deps_in_order-remove_item id seen [] h = refl
deps_in_order-remove_item id seen (i ∷ is) h = elim (Bool-cases (i.id =ᵗ id)) [
  | inl here ↦ rw (here, ← (=ᵗ_iff i.id id).0 here) (ground arith)
  | inr other ↦ rw other (
      ground (
        arith,
        deps_mono seen (id ∷ seen) (contains-cons id seen) i.id i.depends_on,
        deps_in_order-remove_item id (i.id ∷ seen) is,
        deps_in_order_mono (id ∷ i.id ∷ seen) (i.id ∷ id ∷ seen) (remove_item id is)
            (contains-swap id i.id seen),
      ))
]

pub all-snoc :
    (p : Text → Bool) (xs : List Text) (x : Text)
    → all p xs ≡ true
    → p x ≡ true
    → all p (xs ++ (x ∷ [])) ≡ true
all-snoc p [] x h e = ground arith
all-snoc p (y ∷ ys) x h e = ground (arith, all-snoc p ys x)

pub distinct-snoc :
    (xs : List Text) (x : Text)
    → distinct xs ≡ true
    → contains x xs ≡ false
    → distinct (xs ++ (x ∷ [])) ≡ true
unfolding distinct contains
distinct-snoc [] x h e = refl
distinct-snoc (y ∷ ys) x h e =
    ground (arith, distinct-snoc ys x, contains-append y ys (x ∷ []), =ᵗ_iff x y, =ᵗ_iff y x)

pub find_item-All :
    (id : Text) (items : List Item) (n : ℕ) (i : Item)
    → find_item id items ≡ some i
    → All (IsItem n) items
    → (IsItem n i) × (i.id ≡ id)
unfolding find_item
find_item-All id [] n i f v = cc
find_item-All id (j ∷ js) n i f (first, rest) = elim (Bool-cases (j.id =ᵗ id)) [
  | inl here ↦
      let same : j ≡ i = ground arith in (rw (← same) first, rw (← same) ((=ᵗ_iff j.id id).0 here))
  | inr other ↦ find_item-All id js n i (ground arith) rest
]

find_item-apart :
    (id : Text) (items : List Item) (archived : List Text) (i : Item)
    → find_item id items ≡ some i
    → any (λ j. contains j archived) (ids items) ≡ false
    → contains id archived ≡ false
unfolding find_item
find_item-apart id [] archived i f h = cc
find_item-apart id (j ∷ js) archived i f h =
    ground (arith, find_item-apart id js archived i, =ᵗ_iff j.id id)

pub IsItem-id :
    (n : ℕ) (i : Item) → IsItem n i → (is_id i.id ≡ true) × (ltb (id_number i.id) n ≡ true)
unfolding validate_item
IsItem-id n i h = ground arith

-- An item that is done leaves for the archive.
pub archive-IsValid :
    (s : State) (id : Text) (i : Item)
    → find_item id s.items ≡ some i
    → IsValid s
    → IsValid (record s { items = remove_item id s.items; archived = s.archived ++ (id ∷ []) })
archive-IsValid s id i f v =
    let (valid, same) = find_item-All id s.items s.next_id i f v.items in
    let (shape, below) = IsItem-id s.next_id i valid in
    let fresh = find_item-apart id s.items s.archived i f v.apart in
    record {
      cap = v.cap;
      version = v.version;
      owner = v.owner;
      next = v.next;
      items = All-remove_item id s.next_id s.items v.items;
      archived = all-snoc is_id s.archived id v.archived (rw (← same) shape);
      archived_once = distinct-snoc s.archived id v.archived_once fresh;
      once = distinct-remove_item id s.items v.once;
      apart =
          any-archived id s.archived (remove_item id s.items) (removed id s.items v.once)
            (any-remove_item id (λ j. contains j s.archived) s.items v.apart);
      below = all-snoc (λ j. ltb (id_number j) s.next_id) s.archived id v.below (rw (← same) below);
      ordered =
          deps_in_order_mono (id ∷ s.archived) (s.archived ++ (id ∷ [])) (remove_item id s.items)
            (contains-snoc id s.archived)
            (deps_in_order-remove_item id s.archived s.items v.ordered);
      head = v.head;
      seq = v.seq;
      handoff = v.handoff;
    }
