-- ===== src/Queue/History.antt =====
-- tools/queue_core.py, sealing and history: `event_hash`, `_check_context`, `seal`,
-- `_well_formed_event`, `chain` and `handoff_text`.
pub mod Links
pub mod Sealed
use agent_engineering_standa.Base.{
  ℕ, zero, suc, ◌+◌, Bool, true, false, ◌&&◌, ◌||◌, Option, none, some, List, [], ◌∷◌, Text, ◌=ᵗ◌,
  codes, strip, any, length, ltb, leb, ◌==◌, is_digit, ok, err, refuse, guard, ◌>>=◌, ◌>>◌,
  if◌then◌else◌,
}
use agent_engineering_standa.Queue.Types.{
  State, Handoff, Op, op_handoff, Payload, digest, Draft, Context, Body, Event, Entry, shaped, junk,
  Outcome, bad_context, bad_time, over_budget, missing_event, wrong_seq, short_history,
  handoff_mismatch, handoff_missing,
}
use agent_engineering_standa.Queue.Fields.{is_empty, is_control}
use agent_engineering_standa.Queue.Validate.{is_hex, validate}
use agent_engineering_standa.Queue.Secrets.{scan_secrets, state_strings, events_strings}

abbrev pub state_budget : ℕ
state_budget = 24576

-- What the code takes from `json` and `hashlib`.
pub record Codec : Type 0 where
  -- the canonical JSON of an event without its hash
  pub canonical : Body → Text
  -- `hashlib.sha256` of the UTF-8 bytes of a text, in hexadecimal
  pub sha256 : Text → Text
  -- the UTF-8 bytes of the compact JSON of a state
  pub size : State → ℕ

line_fits : Text → Bool
unfolding is_control
line_fits s = if is_empty (strip s) then false else if ltb 120 (length s) then false else not_any s
  where
    not_any : Text → Bool
    not_any t = if any is_control t then false else true

-- A pattern of single digits and literal characters, up to the end or a final newline; `none` in
-- the pattern is a digit.
matches : List (Option ℕ) → Text → Bool
unfolding is_digit
matches [] [] = true
matches [] (c ∷ []) = c == 10
matches [] _ = false
matches (p ∷ ps) [] = false
matches (none ∷ ps) (c ∷ s) = is_digit c && matches ps s
matches (some d ∷ ps) (c ∷ s) = (c == d) && matches ps s

-- `_AT`
time_pattern : List (Option ℕ)
time_pattern =
    none
    ∷ none
    ∷ none
    ∷ none
    ∷ some b'-'
    ∷ none
    ∷ none
    ∷ some b'-'
    ∷ none
    ∷ none
    ∷ some b'T'
    ∷ none
    ∷ none
    ∷ some b':'
    ∷ none
    ∷ none
    ∷ some b':'
    ∷ none
    ∷ none
    ∷ some b'Z'
    ∷ []

-- `_check_context`
unfoldable pub check_context : Context → Outcome (Unit {0})
unfolding line_fits matches time_pattern
check_context ctx = do
  guard (line_fits ctx.actor && line_fits ctx.harness) bad_context
  guard (line_fits ctx.provider && line_fits ctx.at) bad_context
  guard (matches time_pattern ctx.at) bad_time

abbrev pub is_handoff : Op → Bool
is_handoff op_handoff = true
is_handoff _ = false

-- `payload["sha256"]`, for a payload that has one.
abbrev pub sha256_of : Payload → Option Text
sha256_of (digest d n) = some d
sha256_of _ = none

abbrev pub pointer : ℕ → Option Text → Option Handoff → Option Handoff
pointer seq none old = old
pointer seq (some d) old = some (record { seq = seq; sha256 = d })

abbrev pub or_entry : Option Event → Bool → Event → Option Event
or_entry (some later) b e = some later
or_entry none true e = some e
or_entry none false e = none

unfoldable pub last_hash : Option Text → List Event → Option Text
last_hash head [] = head
last_hash head (e ∷ es) = last_hash (some e.hash) es

unfoldable pub last_handoff : Option Handoff → List Event → Option Handoff
last_handoff old [] = old
last_handoff old (e ∷ es) =
    last_handoff
      (if is_handoff e.body.draft.op
        then pointer e.body.seq (sha256_of e.body.draft.after) old
        else old)
      es

-- The state that `seal` commits, before it is checked.
unfoldable pub sealed_state : State → List Event → State
unfolding last_hash last_handoff
sealed_state state sealed = record state {
  history = record {
    seq = state.history.seq + length sealed;
    head = last_hash state.history.head sealed;
  };
  handoff = last_handoff state.handoff sealed;
}

abbrev pub map_some : Outcome Text → Outcome (Option Text)
map_some r = do t ← r; ok (some t)

module _ (codec : Codec) where
  -- `event_hash`
  unfoldable pub event_hash : Body → Text
  event_hash body = codec.sha256 (codec.canonical body)

  -- An event that follows the event number `seq`, whose hash is `head`.
  unfoldable pub stamp : Context → ℕ → Option Text → Draft → Event
  unfolding event_hash
  stamp ctx seq head draft =
      let body : Body = record { draft = draft; seq = suc seq; prev = head; context = ctx } in
      record { body = body; hash = event_hash body }

  -- The loop of `seal`: the stamped events, the last number and hash, and the handoff pointer.
  unfoldable pub stamp_all : Context → ℕ → Option Text → List Draft → List Event
  stamp_all ctx seq head [] = []
  stamp_all ctx seq head (d ∷ ds) =
      let e = stamp ctx seq head d in e ∷ stamp_all ctx (suc seq) (some e.hash) ds

  unfoldable pub seal : State → List Draft → Context → Outcome (State × List Event)
  seal state drafts ctx =
      let sealed = stamp_all ctx state.history.seq state.history.head drafts in
      let new = sealed_state state sealed in
      do
        check_context ctx
        scan_secrets (state_strings new)
        scan_secrets (events_strings sealed)
        validate new
        refuse (ltb state_budget (codec.size new)) (over_budget (codec.size new))
        ok (new, sealed)

  -- `_well_formed_event`, of an entry that has the shape of an event.
  unfoldable pub well_formed : Event → Bool
  unfolding event_hash
  well_formed e = leb 1 e.body.seq && is_hex e.hash && (event_hash e.body =ᵗ e.hash)

  -- `by_hash.get(hash)`: a later entry overrides an earlier one.
  unfoldable pub by_hash : Text → List Entry → Option Event
  by_hash hash [] = none
  by_hash hash (junk ∷ entries) = by_hash hash entries
  by_hash hash (shaped e ∷ entries) =
      or_entry (by_hash hash entries) (well_formed e && (e.hash =ᵗ hash)) e

  -- The loop of `chain`, with the events walked so far, oldest first. A well-formed event has a
  -- number of at least 1, so at 0 an event that is found has another number.
  unfoldable pub walk : List Entry → ℕ → Option Text → List Event → Outcome (List Event)
  walk log zero none walked = ok walked
  walk log (suc n) none walked = err (short_history (suc (suc n)))
  walk log zero (some h) walked = elim (by_hash h log) [
    | none ↦ err (missing_event 0)
    | some e ↦ err (wrong_seq 0)
  ]
  walk log (suc n) (some h) walked = elim (by_hash h log) [
    | none ↦ err (missing_event (suc n))
    | some e ↦
        if e.body.seq == suc n then walk log n e.body.prev (e ∷ walked) else err (wrong_seq (suc n))
  ]

  unfoldable pub chain : List Entry → State → Outcome (List Event)
  chain log state = walk log state.history.seq state.history.head []

  -- The tests on the event that the pointer names.
  unfoldable pub verified_text : Text → Event → Outcome Text
  verified_text expected e = elim e.body.draft.text [
    | none ↦ err handoff_mismatch
    | some t ↦ elim (sha256_of e.body.draft.after) [
      | none ↦ err handoff_mismatch
      | some d ↦
          if (codec.sha256 t =ᵗ expected) && (d =ᵗ expected) then ok t else err handoff_mismatch
    ]
  ]

  unfoldable pub read_handoff : Handoff → List Event → Outcome Text
  unfolding verified_text
  read_handoff p [] = err handoff_missing
  read_handoff p (e ∷ es) =
      let rest = read_handoff p es in
      if (e.body.seq == p.seq) && is_handoff e.body.draft.op then verified_text p.sha256 e else rest

  unfoldable pub handoff_text : State → List Event → Outcome (Option Text)
  unfolding read_handoff
  handoff_text state events = elim state.handoff [
    | none ↦ ok none
    | some p ↦ map_some (read_handoff p events)
  ]
