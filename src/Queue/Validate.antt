-- ===== src/Queue/Validate.antt =====
-- tools/queue_core.py, `validate` and its helpers. The tests of JSON types and of key sets hold of a
-- `State` by its type; every other test stands in the order of the code.
use agent_engineering_standa.Base.{
  ℕ, Bool, true, false, ◌&&◌, ◌||◌, Option, none, some, List, [], ◌∷◌, Text, ◌=ᵗ◌, contains, strip,
  all, any, length, ltb, leb, ◌==◌, is_digit, ok, refuse, guard, ◌>>◌, if◌then◌else◌, not,
}
use agent_engineering_standa.Queue.Types.{
  Item, State, Handoff, Outcome, Error, bad_item_id, late_item_id, bad_title, bad_refs, bad_note,
  bad_deps, duplicate_deps, bad_max_active, bad_version, bad_owner, bad_next_id, bad_archived,
  duplicate_archived, duplicate_id, live_and_archived, late_archived_id, bad_dependency, bad_head,
  bad_seq, bad_handoff, late_handoff,
}
use agent_engineering_standa.Queue.Ids.{is_id, id_number}
use agent_engineering_standa.Queue.Fields.{
  title_limit, note_limit, refs_limit, ref_limit, is_empty, distinct,
}
use agent_engineering_standa.Queue.Query.{ids}

abbrev pub max_parallel : ℕ
max_parallel = 5

unfoldable pub is_alnum : ℕ → Bool
unfolding is_digit
is_alnum c = is_digit c || leb b'A' c && leb c b'Z' || leb b'a' c && leb c b'z'

unfoldable pub is_login_char : ℕ → Bool
unfolding is_alnum
is_login_char c = is_alnum c || c == b'.' || c == b'_' || c == b'-'

-- A text of class `p`, at most `n` long, up to the end or a final newline: `[..]{0,n}$`.
run_to_end : (ℕ → Bool) → Text → Bool
run_to_end p [] = true
run_to_end p (c ∷ []) = p c || c == 10
run_to_end p (c ∷ s) = p c && run_to_end p s

without_newline : Text → Text
without_newline [] = []
without_newline (c ∷ []) = if c == 10 then [] else c ∷ []
without_newline (c ∷ s) = c ∷ without_newline s

-- `_OWNER = ^[A-Za-z0-9][A-Za-z0-9._-]{0,63}$`
unfoldable pub is_owner : Text → Bool
unfolding is_login_char run_to_end without_newline
is_owner [] = false
is_owner (c ∷ s) = is_alnum c && run_to_end is_login_char s && leb (length (without_newline s)) 63

is_hex_char : ℕ → Bool
unfolding is_digit
is_hex_char c = is_digit c || leb b'a' c && leb c b'f'

-- `_HEX = ^[0-9a-f]{64}$`
unfoldable pub is_hex : Text → Bool
unfolding is_hex_char run_to_end without_newline
is_hex s = run_to_end is_hex_char s && length (without_newline s) == 64

-- `_id_list`
unfoldable pub check_id_list : List Text → Error → Error → Outcome (Unit {0})
unfolding distinct
check_id_list xs bad duplicate = do guard (all is_id xs) bad; guard (distinct xs) duplicate

abbrev pub fits : Text → Bool
fits r = ltb 0 (length r) && leb (length r) ref_limit

-- `_validate_item`
unfoldable pub validate_item : ℕ → Item → Outcome (Unit {0})
validate_item next_id item = do
  guard (is_id item.id) (bad_item_id item.id)
  guard (ltb (id_number item.id) next_id) (late_item_id item.id)
  refuse (is_empty (strip item.title) || ltb title_limit (length item.title)) (bad_title item.id)
  refuse (ltb refs_limit (length item.refs) || not (all fits item.refs)) (bad_refs item.id)
  refuse (ltb note_limit (length item.note)) (bad_note item.id)
  check_id_list item.depends_on (bad_deps item.id) (duplicate_deps item.id)

-- The loop over the items.
unfoldable pub validate_items : ℕ → List Item → Outcome (Unit {0})
validate_items next_id [] = ok tt
validate_items next_id (i ∷ is) = do validate_item next_id i; validate_items next_id is

-- `_dependency_problem`: whether there is none.
unfoldable pub deps_in_order : List Text → List Item → Bool
unfolding contains
deps_in_order seen [] = true
deps_in_order seen (i ∷ is) =
    all (λ d. not (d =ᵗ i.id) && contains d seen) i.depends_on && deps_in_order (i.id ∷ seen) is

abbrev pub head_fits : Option Text → Bool
head_fits none = true
head_fits (some h) = is_hex h

abbrev pub is_none : Option Text → Bool
is_none none = true
is_none (some h) = false

abbrev pub cap_fits : Option ℕ → Bool
cap_fits none = true
cap_fits (some n) = leb 1 n && leb n max_parallel

abbrev pub same : Bool → Bool → Bool
same true b = b
same false b = not b

unfoldable pub validate_handoff : ℕ → Option Handoff → Outcome (Unit {0})
unfolding is_hex
validate_handoff seq none = ok tt
validate_handoff seq (some h) = do
  guard (leb 1 h.seq && is_hex h.sha256) bad_handoff
  refuse (ltb seq h.seq) late_handoff

unfoldable pub validate : State → Outcome (Unit {0})
validate state = do
  guard (cap_fits state.max_active) bad_max_active
  guard (state.version == 2) bad_version
  guard (is_owner state.owner) bad_owner
  guard (leb 1 state.next_id) bad_next_id
  validate_items state.next_id state.items
  check_id_list state.archived bad_archived duplicate_archived
  guard (distinct (ids state.items)) duplicate_id
  refuse (any (λ i. contains i state.archived) (ids state.items)) live_and_archived
  guard (all (λ i. ltb (id_number i) state.next_id) state.archived) late_archived_id
  guard (deps_in_order state.archived state.items) bad_dependency
  guard (head_fits state.history.head) bad_head
  guard (same (state.history.seq == 0) (is_none state.history.head)) bad_seq
  validate_handoff state.history.seq state.handoff
