-- ===== src/Tests/Queues.antt =====
-- Runs of the queue operations, and witnesses for the theorems on them.
use agent_engineering_standa.Base.{
  ◌<◌, ◌≡◌, ◌↔◌, refl, true, false, none, some, List, [], ◌∷◌, ◌++◌, map, codes, ◌=ᵗ◌, contains,
  strip, ok, arith, All, length,
}
use agent_engineering_standa.Queue.Types.{State, Item, Event, shaped, Draft, Outcome}
use agent_engineering_standa.Queue.Ids.{is_id, id_number, make_id}
use agent_engineering_standa.Queue.Ids.Bounds.{make_id_iff}
use agent_engineering_standa.Queue.Fields.{distinct}
use agent_engineering_standa.Queue.Query.{
  find, find_item, is_ready, next_startable, max_active, active_items,
}
use agent_engineering_standa.Queue.Validate.{
  is_owner, is_hex, check_id_list, validate_item, validate_items, deps_in_order, validate_handoff,
  validate,
}
use agent_engineering_standa.Queue.Edit.{Change, change_item, handoff_draft, handoff}
use agent_engineering_standa.Queue.Transition.{check_earlier, start, transition}
use agent_engineering_standa.Queue.Request.{Request, perform}
use agent_engineering_standa.Queue.Secrets.{scan_secrets, state_strings, events_strings}
use agent_engineering_standa.Queue.History.{
  check_context, stamp, stamp_all, sealed_state, seal, walk, chain, handoff_text,
}
use agent_engineering_standa.Queue.History.Links.{In, Links, NoCollision, chain_iff}
use agent_engineering_standa.Queue.History.Sealed.{In-self, chain-seal, handoff_text-seal}
use agent_engineering_standa.Queue.Start.{started, start_iff}
use agent_engineering_standa.Queue.Cap.{WithinCap, perform-WithinCap}
use agent_engineering_standa.Queue.Valid.Requests.{perform-validate}
use agent_engineering_standa.Queue.Sealable.{seal-perform}
use agent_engineering_standa.Store.Memory.{Memory, load, saved, save, append, check, same_token}
use agent_engineering_standa.Store.Commit.{
  Write, check_loaded, prepared, prepare, swap, written, commit, on_state,
}
use agent_engineering_standa.Store.Atomic.{Evolves-refl, commit_isolated}
use agent_engineering_standa.Store.Refines.{View, Shows, Follows, commit-Follows}
use agent_engineering_standa.Tests.Data.{
  codec, digest_of, digest_of-hex, ctx, queue, second_item, NoCollision-one,
}

abbrev start_second : Request
start_second = Request.transition (codes "Q02") (codes "start") []

run : State → Request → Outcome Change
unfolding perform transition start find find_item check_earlier is_ready max_active active_items
    change_item ◌=ᵗ◌ contains
run = perform digest_of

second_started : perform digest_of queue start_second ≡ ok (started queue second_item)
unfolding run
second_started = refl

start_iff_example : ((c : Change) × (start queue (codes "Q02") ≡ ok c)) ↔ (
    (i : Item) × (next_startable queue ≡ some i)
    × (i.id ≡ codes "Q02")
    × (length (active_items queue.items) < max_active queue))
unfolding distinct ◌=ᵗ◌
start_iff_example = start_iff queue (codes "Q02") refl

queue-WithinCap : WithinCap queue
unfolding active_items max_active
queue-WithinCap = omega arith

perform-WithinCap_example : WithinCap (started queue second_item).0
perform-WithinCap_example =
    perform-WithinCap digest_of queue start_second (started queue second_item) second_started
      queue-WithinCap

-- What sealing the start of Q02 makes.
abbrev sealed_start : List Event
sealed_start = stamp_all codec ctx 0 none (started queue second_item).1

abbrev queue_after : State
queue_after = sealed_state (started queue second_item).0 sealed_start

sealing :
    seal codec (started queue second_item).0 (started queue second_item).1 ctx
    ≡ ok (queue_after, sealed_start)
unfolding seal check_context scan_secrets state_strings events_strings validate validate_items
    validate_item validate_handoff is_owner is_hex check_id_list is_id id_number deps_in_order
    distinct contains ◌=ᵗ◌ stamp_all stamp sealed_state strip change_item
sealing = refl

chain_before : chain codec (map shaped sealed_start) (started queue second_item).0 ≡ ok []
unfolding chain walk
chain_before = refl

one_event : NoCollision codec (map shaped sealed_start)
unfolding stamp_all
one_event = NoCollision-one _

chain-seal_example : chain codec (map shaped sealed_start) queue_after ≡ ok ([] ++ sealed_start)
chain-seal_example =
    chain-seal codec digest_of-hex (map shaped sealed_start) (started queue second_item).0
      (started queue second_item).1 ctx one_event (In-self sealed_start) chain_before sealing

chain_iff_example : (chain codec (map shaped sealed_start) queue_after ≡ ok sealed_start) ↔ (
    Links codec 0 none sealed_start queue_after.history.seq queue_after.history.head
    × All (λ e. In e (map shaped sealed_start)) sealed_start)
chain_iff_example = chain_iff codec (map shaped sealed_start) queue_after sealed_start one_event

transition_made : transition queue (codes "Q02") (codes "start") [] ≡ ok (started queue second_item)
unfolding run
transition_made = refl

queue-validate : validate queue ≡ ok tt
unfolding sealing
queue-validate = refl

perform-validate_example : validate (started queue second_item).0 ≡ ok tt
perform-validate_example =
    perform-validate digest_of queue start_second (started queue second_item) (omega arith)
      queue-validate second_started

context_checked : check_context ctx ≡ ok tt
unfolding sealing
context_checked = refl

state_scanned : scan_secrets (state_strings queue_after) ≡ ok tt
unfolding sealing
state_scanned = refl

events_scanned : scan_secrets (events_strings sealed_start) ≡ ok tt
unfolding sealing
events_scanned = refl

seal-perform_example :
    seal codec (started queue second_item).0 (started queue second_item).1 ctx
    ≡ ok (queue_after, sealed_start)
seal-perform_example =
    seal-perform codec digest_of-hex ctx queue start_second (started queue second_item)
      (omega arith) queue-validate second_started context_checked state_scanned events_scanned
      (omega arith)

abbrev note_drafts : List Draft
note_drafts = handoff_draft digest_of queue (codes "Resume at Q02") ∷ []

abbrev sealed_note : List Event
sealed_note = stamp_all codec ctx 0 none note_drafts

note_made : handoff digest_of queue (codes "Resume at Q02") ≡ ok (queue, note_drafts)
unfolding handoff strip
note_made = refl

sealing_note : seal codec queue note_drafts ctx ≡ ok (sealed_state queue sealed_note, sealed_note)
unfolding sealing
sealing_note = refl

handoff_text-seal_example :
    handoff_text codec (sealed_state queue sealed_note) ([] ++ sealed_note)
    ≡ ok (some (codes "Resume at Q02"))
unfolding chain walk
handoff_text-seal_example =
    handoff_text-seal codec [] queue (codes "Resume at Q02") ctx
      (record { same = λ d e i j v w h. absurd i }) refl note_made sealing_note

abbrev store : Memory
store = record { limit = 24576; state = some queue; version = 4; log = [] }

abbrev write : Write
write = record { new = queue_after; sealed = sealed_start; token = some 4 }

prepare_start : prepare codec false (on_state (perform digest_of) start_second) ctx store ≡ ok write
unfolding prepare prepared load check_loaded on_state check sealing run
prepare_start = refl

swap_start :
    swap (append store sealed_start) write
    ≡ (saved (append store sealed_start) queue_after, ok queue_after)
unfolding swap save same_token append
swap_start = refl

commit_isolated_example :
    ((append store sealed_start).state ≡ some queue)
    × ((saved (append store sealed_start) queue_after).state ≡ some queue_after)
    × (chain codec (saved (append store sealed_start) queue_after).log queue_after
        ≡ ok ([] ++ sealed_start))
unfolding append chain walk
commit_isolated_example =
    commit_isolated codec start_second ctx store store (append store sealed_start) queue write []
      digest_of-hex refl refl prepare_start (Evolves-refl store)
      (Evolves-refl (append store sealed_start)) one_event swap_start

abbrev seen : View
seen = record { state = queue; events = [] }

seen-Shows : Shows codec store seen
unfolding chain walk
seen-Shows = record { stored = refl; chained = refl }

once_after : NoCollision codec (saved (append store sealed_start) queue_after).log
unfolding append
once_after = one_event

commit_start :
    commit codec false (on_state (perform digest_of) start_second) ctx store
    ≡ (saved (append store sealed_start) queue_after, ok queue_after)
unfolding commit written prepare_start swap_start
commit_start = refl

commit-Follows_example :
    (u : View) × Shows codec (saved (append store sealed_start) queue_after) u
    × Follows codec start_second ctx seen (ok queue_after) u
commit-Follows_example =
    commit-Follows codec digest_of-hex start_second ctx store seen
      (saved (append store sealed_start) queue_after) (ok queue_after) seen-Shows once_after
      commit_start

make_id_iff_example :
    ((is_id (make_id 1000000) ≡ true) ↔ (1000000 < 1000000))
    × (id_number (make_id 1000000) ≡ 1000000)
make_id_iff_example = make_id_iff 1000000
