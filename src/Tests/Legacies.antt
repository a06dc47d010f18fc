-- ===== src/Tests/Legacies.antt =====
-- Runs of the version 1 queue, and witnesses for the theorems on it.
use agent_engineering_standa.Base.{
  ◌≡◌, ◌↔◌, refl, false, some, List, [], ◌∷◌, ◌++◌, Text, codes, ◌=ᵗ◌, contains, strip, has_part,
  starts_with, ok, if◌then◌else◌,
}
use agent_engineering_standa.Queue.Types.{live, pending, LegacyItem, Legacy}
use agent_engineering_standa.Queue.Ids.{make_id, padded, decimal}
use agent_engineering_standa.Legacy.Items.{
  next_item, find, find_item, transition, validate, validate_items, append, empty_state,
}
use agent_engineering_standa.Legacy.Body.{
  Json, newline, find_block, marker, render, parse, checklist, join,
}
use agent_engineering_standa.Legacy.Mutate.{Issue, Command, source, commanded, run, mutate}
use agent_engineering_standa.Legacy.Kept.{IsNumbered, empty-IsNumbered, commanded-IsNumbered}
use agent_engineering_standa.Legacy.Order.{transition-next_item}
use agent_engineering_standa.Legacy.Read.{IsJson, parse-render}
use agent_engineering_standa.Legacy.Runs.{replayed, IsPlain, Runs, Runs-parse}

abbrev first_legacy : LegacyItem
first_legacy = record {
  id = codes "Q01";
  title = codes "First";
  refs = codes "o/r#1" ∷ [];
  status = live pending;
  note = [];
}

abbrev one_legacy : Legacy
one_legacy = record { version = 1; next_id = 2; items = first_legacy ∷ [] }

abbrev add_first : Command
add_first = Command.add (codes " First ") (codes "o/r#1" ∷ []) []

-- A `json` that tells the two states apart.
abbrev dump : List LegacyItem → Text
dump [] = codes "{}"
dump (i ∷ is) = codes "{1}"

abbrev json : Json
json = record {
  dumps = λ s. dump s.items;
  loads = λ t. if t =ᵗ codes "{}" then some empty_state else some one_legacy;
}

one-IsJson : IsJson json one_legacy
unfolding ◌=ᵗ◌ starts_with has_part
one-IsJson = record { read = refl; object = refl; unfenced = refl }

one_unmarked : has_part marker (join (newline ∷ []) (checklist one_legacy)) ≡ false
unfolding has_part join checklist next_item ◌=ᵗ◌
one_unmarked = refl

abbrev empty_issue : Issue
empty_issue = record { body = render json empty_state; stamp = codes "2026-11-25T10:00:00Z" }

added : run json add_first empty_issue empty_issue ≡ ok (one_legacy, render json one_legacy)
unfolding run mutate source parse find_block render ◌=ᵗ◌ validate validate_items commanded append
    strip contains make_id padded decimal
added = refl

empty-IsPlain : IsPlain json empty_state
unfolding ◌=ᵗ◌ starts_with has_part join checklist next_item
empty-IsPlain = record {
  dumped = record { read = refl; object = refl; unfenced = refl };
  unmarked = refl;
}

one-IsPlain : IsPlain json one_legacy
one-IsPlain = record { dumped = one-IsJson; unmarked = one_unmarked }

-- The Issue before `init`.
abbrev blank_issue : Issue
blank_issue = record { body = []; stamp = codes "2026-11-25T09:00:00Z" }

begun : run json Command.init blank_issue blank_issue ≡ ok (empty_state, render json empty_state)
unfolding run mutate source ◌=ᵗ◌ validate validate_items commanded has_part
begun = refl

-- `init`, and then an `add`.
begun_and_added :
    Runs json (add_first ∷ []) (one_legacy ∷ empty_state ∷ []) one_legacy (render json one_legacy)
begun_and_added =
    Runs.wrote add_first empty_issue.stamp empty_issue (Runs.created blank_issue blank_issue begun)
      refl added

Runs-parse_example :
    (replayed (add_first ∷ []) ≡ ok one_legacy)
    × (parse json (render json one_legacy) ≡ ok one_legacy)
Runs-parse_example = Runs-parse begun_and_added (one-IsPlain, (empty-IsPlain, tt))

one_valid : validate one_legacy ≡ ok tt
unfolding validate validate_items contains
one_valid = refl

first_added : commanded add_first empty_state ≡ ok one_legacy
unfolding commanded append strip make_id padded decimal
first_added = refl

first_found : find one_legacy (codes "Q01") ≡ ok first_legacy
unfolding find find_item ◌=ᵗ◌
first_found = refl

parse-render_example : parse json (render json one_legacy) ≡ ok one_legacy
parse-render_example = parse-render json one_legacy one-IsJson one_unmarked one_valid

commanded-IsNumbered_example : IsNumbered one_legacy
commanded-IsNumbered_example =
    commanded-IsNumbered add_first empty_state one_legacy first_added empty-IsNumbered

transition-next_item_example :
    ((t : Legacy) × (transition one_legacy (codes "Q01") (codes "start") [] ≡ ok t))
    ↔ (next_item one_legacy ≡ some first_legacy)
transition-next_item_example =
    transition-next_item one_legacy (codes "Q01") [] first_legacy first_found refl

-- A title may hold a block of its own, which `parse` then reads in place of the state.
abbrev hijacked : Legacy
hijacked = record one_legacy {
  items =
      record first_legacy {
        title =
            marker
            ++ (newline ∷ codes "```json" ++ (newline ∷ codes "{}" ++ (newline ∷ codes "```")));
      }
      ∷ [];
}

hijacked_read : parse json (render json hijacked) ≡ ok empty_state
unfolding parse find_block render ◌=ᵗ◌ validate validate_items
hijacked_read = refl
