-- ===== src/Queue/Valid.antt =====
-- `validate` of tools/queue_core.py, taken apart into what holds of the state.
pub mod Changes
pub mod Supplied
pub mod Additions
pub mod Edits
pub mod Requests
pub mod Transitions
use agent_engineering_standa.Base.{
  ℕ, ◌≡◌, refl, ◌↔◌, Bool, true, false, not, ◌&&◌, ◌||◌, Option, List, [], ◌∷◌, Text, contains, ok,
  all, any, leb, ltb, ◌==◌, arith, All,
}
use agent_engineering_standa.Queue.Types.{State, Item}
use agent_engineering_standa.Queue.Ids.{is_id, id_number}
use agent_engineering_standa.Queue.Fields.{distinct}
use agent_engineering_standa.Queue.Query.{ids}
use agent_engineering_standa.Queue.Validate.{
  is_owner, cap_fits, head_fits, is_none, same, check_id_list, validate_item, validate_items,
  deps_in_order, validate_handoff, validate,
}

abbrev pub IsItem : ℕ → Item → Type 0
IsItem next_id i = validate_item next_id i ≡ ok tt

pub record IsValid (s : State) : Type 0 where
  pub cap : cap_fits s.max_active ≡ true
  pub version : (s.version == 2) ≡ true
  pub owner : is_owner s.owner ≡ true
  pub next : leb 1 s.next_id ≡ true
  pub items : All (IsItem s.next_id) s.items
  pub archived : all is_id s.archived ≡ true
  pub archived_once : distinct s.archived ≡ true
  pub once : distinct (ids s.items) ≡ true
  pub apart : any (λ i. contains i s.archived) (ids s.items) ≡ false
  pub below : all (λ i. ltb (id_number i) s.next_id) s.archived ≡ true
  pub ordered : deps_in_order s.archived s.items ≡ true
  pub head : head_fits s.history.head ≡ true
  pub seq : same (s.history.seq == 0) (is_none s.history.head) ≡ true
  pub handoff : validate_handoff s.history.seq s.handoff ≡ ok tt

validate_items-All :
    (n : ℕ) (items : List Item) → validate_items n items ≡ ok tt → All (IsItem n) items
unfolding validate_items
validate_items-All n [] h = tt
validate_items-All n (i ∷ is) h = (ground arith, validate_items-All n is (ground arith))

All-validate_items :
    (n : ℕ) (items : List Item) → All (IsItem n) items → validate_items n items ≡ ok tt
unfolding validate_items
All-validate_items n [] h = refl
All-validate_items n (i ∷ is) (first, rest) = rw (first, All-validate_items n is rest)

pub validate-IsValid : (s : State) → validate s ≡ ok tt → IsValid s
unfolding validate check_id_list
validate-IsValid s h = record {
  cap = ground arith;
  version = ground arith;
  owner = ground arith;
  next = ground arith;
  items = validate_items-All s.next_id s.items (ground arith);
  archived = ground arith;
  archived_once = ground arith;
  once = ground arith;
  apart = ground arith;
  below = ground arith;
  ordered = ground arith;
  head = ground arith;
  seq = ground arith;
  handoff = ground arith;
}

pub IsValid-validate : (s : State) → IsValid s → validate s ≡ ok tt
unfolding validate check_id_list
IsValid-validate s v =
    rw
      (
        v.cap,
        v.version,
        v.owner,
        v.next,
        All-validate_items s.next_id s.items v.items,
        v.archived,
        v.archived_once,
        v.once,
        v.apart,
        v.below,
        v.ordered,
        v.head,
        v.seq,
        v.handoff,
      )
      refl
