-- ===== src/Tests/Reached.antt =====
-- A queue that is reached, and a swap that is refused.
use mathlib.Core.List.{append-nil}
use agent_engineering_standa.Base.{
  ◌≤◌, ◌≡◌, refl, sym, none, some, List, [], ◌∷◌, map, codes, ok, err, arith, length, strip,
}
use agent_engineering_standa.Queue.Types.{
  State, Event, shaped, Error, conflict, op_init, nothing, founded, event,
}
use agent_engineering_standa.Queue.Query.{active_items}
use agent_engineering_standa.Queue.Validate.{
  validate, is_owner, validate_items, check_id_list, deps_in_order, is_hex, validate_handoff,
}
use agent_engineering_standa.Queue.Edit.{Change, empty_queue, init}
use agent_engineering_standa.Queue.History.{
  check_context, stamp, stamp_all, sealed_state, seal, chain, walk,
}
use agent_engineering_standa.Queue.Secrets.{scan_secrets, state_strings, events_strings}
use agent_engineering_standa.Queue.History.Links.{NoCollision}
use agent_engineering_standa.Queue.Reach.{Reach, Reach-sound}
use agent_engineering_standa.Store.Memory.{Memory, saved, save, append, same_token}
use agent_engineering_standa.Store.Commit.{Write, swap}
use agent_engineering_standa.Store.Atomic.{Evolves, swap_refused}
use agent_engineering_standa.Tests.Data.{codec, digest_of-hex, ctx, queue, NoCollision-one}

abbrev new_queue : Change
new_queue = (
  empty_queue (codes "owner"),
  event op_init none nothing (agent_engineering_standa.Queue.Types.Payload.founded (codes "owner"))
        []
      ∷ [],
)

abbrev init_events : List Event
init_events = stamp_all codec ctx 0 none new_queue.1

abbrev new_state : State
new_state = sealed_state new_queue.0 init_events

init_made : init (codes "owner") ≡ ok new_queue
unfolding init is_owner
init_made = refl

init_sealed : seal codec new_queue.0 new_queue.1 ctx ≡ ok (new_state, init_events)
unfolding seal check_context strip scan_secrets state_strings sealed_state stamp_all stamp
    events_strings validate is_owner validate_items check_id_list deps_in_order is_hex
    validate_handoff
init_sealed = refl

new-Reach : Reach codec new_state init_events
new-Reach = Reach.founded (codes "owner") new_queue ctx new_state init_events init_made init_sealed

init_once : NoCollision codec (map shaped init_events)
unfolding stamp_all
init_once = NoCollision-one _

Reach-sound_example :
    (length (active_items new_state.items) ≤ 5)
    × (validate new_state ≡ ok tt)
    × (chain codec (map shaped init_events) new_state ≡ ok init_events)
Reach-sound_example = Reach-sound codec digest_of-hex new_state init_events new-Reach init_once

-- Another writer saved since version 4 was read.
abbrev read_store : Memory
read_store = record { limit = 24576; state = some queue; version = 4; log = [] }

abbrev moved_store : Memory
moved_store = saved (append read_store init_events) queue

abbrev late_write : Write
late_write = record { new = queue; sealed = init_events; token = some 4 }

moved-Evolves : Evolves (append read_store late_write.sealed) moved_store
moved-Evolves = record {
  grew = ([], sym (append-nil _));
  rises = unfold append in omega arith;
  kept = λ e. unfold append in refl;
}

moved_once : NoCollision codec moved_store.log
unfolding append stamp_all
moved_once = NoCollision-one _

read_before : chain codec read_store.log queue ≡ ok []
unfolding chain walk
read_before = refl

swap_lost : swap moved_store late_write ≡ (moved_store, err conflict)
unfolding swap save same_token append
swap_lost = refl

swap_refused_example :
    (conflict ≡ conflict)
    × (moved_store ≡ moved_store)
    × (chain codec moved_store.log queue ≡ ok [])
swap_refused_example =
    swap_refused codec read_store moved_store moved_store late_write queue [] conflict moved-Evolves
      moved_once read_before swap_lost
