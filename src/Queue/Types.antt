-- ===== src/Queue/Types.antt =====
-- The data of tools/queue_core.py: items, the state, events and refusals. What the code keeps in
-- dictionaries with a fixed key set is a record with those keys.
use agent_engineering_standa.Base.{ℕ, Bool, true, false, Option, none, List, Text, Result}

-- STATUSES
pub data Status : Type 0 where
  pending active blocked : Status

pub record Item : Type 0 where
  pub id : Text
  pub title : Text
  pub refs : List Text
  pub status : Status
  pub note : Text
  pub depends_on : List Text

-- `{"seq": .., "sha256": ..}`
pub record Handoff : Type 0 where
  pub seq : ℕ
  pub sha256 : Text

-- `{"seq": .., "head": ..}`
pub record History : Type 0 where
  pub seq : ℕ
  pub head : Option Text

pub record State : Type 0 where
  pub version : ℕ
  pub owner : Text
  pub next_id : ℕ
  pub items : List Item
  pub archived : List Text
  pub history : History
  pub handoff : Option Handoff
  pub max_active : Option ℕ

-- The fields that an edit proposes or changes; `none` is a key that is absent.
pub record Details : Type 0 where
  pub title : Option Text
  pub refs : Option (List Text)
  pub note : Option Text
  pub depends_on : Option (List Text)

-- A version 1 item and queue, which the migration reads.
pub data LegacyStatus : Type 0 where
  live : Status → LegacyStatus
  done : LegacyStatus

pub record LegacyItem : Type 0 where
  pub id : Text
  pub title : Text
  pub refs : List Text
  pub status : LegacyStatus
  pub note : Text

pub record Legacy : Type 0 where
  pub version : ℕ
  pub next_id : ℕ
  pub items : List LegacyItem

-- The `op` of an event.
pub data Op : Type 0 where
  op_init op_add op_edit op_start op_block op_unblock op_done op_archive : Op
  op_move op_limit op_handoff op_migrate : Op

-- The `from` and the `to` of an event.
pub data Payload : Type 0 where
  nothing : Payload
  text : Text → Payload
  number : ℕ → Payload
  status : Status → Payload
  whole : Item → Payload
  details : Details → Payload
  -- {"owner": ..}
  founded : Text → Payload
  -- {"after": ..}, and with "authorized_by"
  place : Option Text → Payload
  placed : Option Text → Text → Payload
  -- {"max_active": .., "authorized_by": ..}
  limited : ℕ → Text → Payload
  -- {"sha256": .., "chars": ..}
  digest : Text → ℕ → Payload
  -- a version 1 queue, and {"version": .., "owner": ..}
  legacy : Legacy → Payload
  legacy_item : LegacyItem → Payload
  migrated : ℕ → Text → Payload

-- What an operation returns, before it is sealed; a handoff event has a `text`.
pub record Draft : Type 0 where
  pub op : Op
  pub item : Option Text
  pub before : Payload
  pub after : Payload
  pub reason : Text
  pub text : Option Text

-- The context of a write.
pub record Context : Type 0 where
  pub actor : Text
  pub harness : Text
  pub provider : Text
  pub at : Text

-- The keys of a sealed event but for its hash.
pub record Body : Type 0 where
  pub draft : Draft
  pub seq : ℕ
  pub prev : Option Text
  pub context : Context

pub record Event : Type 0 where
  pub body : Body
  pub hash : Text

-- One entry of an event log: `shaped` has the key set of an event, an integer `seq` and a text
-- `hash`; anything else that a log may hold is `junk`.
pub data Entry : Type 0 where
  shaped : Event → Entry
  junk : Entry

-- One constructor for each `raise`.
pub data Error : Type 0 where
  -- QueueError
  archived_item no_item : Text → Error
  not_text empty_text long_text many_lines many_refs : Error
  duplicate_dep : Error
  self_dep : Text → Error
  late_dep : Text → Text → Error
  bad_owner unchanged_edit : Error
  unknown_transition : Text → Error
  not_pending : Text → Status → Error
  earlier_item : Text → Text → Status → Error
  at_cap : ℕ → ℕ → Error
  unmet : Text → List Text → Error
  already_blocked not_blocked never_started : Text → Error
  not_owner one_anchor : Error
  self_anchor : Text → Error
  no_effect move_breaks_deps : Text → Error
  bad_limit same_limit : ℕ → Error
  below_running : ℕ → ℕ → Error
  empty_handoff long_handoff padded_text : Error
  bad_legacy_id many_legacy_refs : Text → Error
  bad_context bad_time : Error
  not_a_ref : Text → Error
  claim_refused : Text → Error
  closes_nothing : Error
  off_queue : List Text → Error
  -- FormatError
  bad_item_id late_item_id bad_title bad_refs bad_note bad_deps duplicate_deps : Text → Error
  bad_max_active bad_version bad_next_id bad_archived duplicate_archived : Error
  duplicate_id live_and_archived late_archived_id : Error
  bad_dependency bad_head bad_seq : Error
  bad_handoff late_handoff not_version_one : Error
  lossy_migration unmirrored_migration : Error
  -- HistoryError
  missing_event wrong_seq : ℕ → Error
  short_history : ℕ → Error
  handoff_mismatch handoff_missing many_migrations : Error
  -- BudgetError and SecretError
  over_budget : ℕ → Error
  secret : ℕ → Error
  -- queue_store.py
  conflict queue_exists no_queue bad_bundle unchained_bundle : Error

abbrev pub Outcome : Type 0 → Type 0
Outcome A = Result Error A

infix 50 ◌=ˢ◌
unfoldable pub ◌=ˢ◌ : Status → Status → Bool
pending =ˢ pending = true
active =ˢ active = true
blocked =ˢ blocked = true
_ =ˢ _ = false

-- `_event`
abbrev pub event : Op → Option Text → Payload → Payload → Text → Draft
event op item before after reason = record {
  op = op;
  item = item;
  before = before;
  after = after;
  reason = reason;
  text = none;
}
