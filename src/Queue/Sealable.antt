-- ===== src/Queue/Sealable.antt =====
-- When `seal` of tools/queue_core.py accepts what an operation returns.
use agent_engineering_standa.Base.{
  ℕ, suc, ◌+◌, ◌≤◌, ◌<◌, ◌≡◌, refl, inl, inr, Bool, true, false, Option, none, some, List, [], ◌∷◌,
  Text, length, ltb, ◌==◌, ok, arith, all, not, bind-eq-ok, guard, refuse, ◌=ᵗ◌, if◌then◌else◌,
  Bool-cases,
}
use agent_engineering_standa.Queue.Types.{
  Event, not_owner, self_anchor, State, Item, Details, Handoff, Draft, Context,
}
use agent_engineering_standa.Queue.Validate.{
  is_hex, head_fits, is_none, same, validate, validate_handoff,
}
use agent_engineering_standa.Queue.Query.{find}
use agent_engineering_standa.Queue.Edit.{
  Change, add, edit, edited, changes, proposal, limit, handoff,
}
use agent_engineering_standa.Queue.Transition.{start, block, unblock, done, transition}
use agent_engineering_standa.Queue.Transition.{remove_item}
use agent_engineering_standa.Queue.Fields.{reason_limit, text_of}
use agent_engineering_standa.Queue.Move.{anchor_of, anchor_id, insert_at, move, moved}
use agent_engineering_standa.Queue.Request.{Request, perform}
use agent_engineering_standa.Queue.Secrets.{scan_secrets, state_strings, events_strings}
use agent_engineering_standa.Queue.History.{
  Codec, state_budget, check_context, is_handoff, sha256_of, pointer, event_hash, stamp, stamp_all,
  last_hash, last_handoff, sealed_state, seal,
}
use agent_engineering_standa.Queue.Valid.{IsValid, validate-IsValid, IsValid-validate}
use agent_engineering_standa.Queue.Valid.Requests.{perform-validate}

abbrev are_plain : List Draft → Bool
are_plain = all (λ d. not (is_handoff d.op))

module _ (s : State) (c : Change) where
  add-plain :
      (title : Text) (refs : List Text) (note : Text) (deps : List Text)
      → add s title refs note deps ≡ ok c
      → are_plain c.1 ≡ true
  unfolding add
  add-plain title refs note deps h = ground arith

  edited-plain :
      (id : Text) (i : Item) (d : Details) → edited s id i d ≡ ok c → are_plain c.1 ≡ true
  unfolding edited
  edited-plain id i d h = ground arith

  edit-plain : (id : Text) (d : Details) → edit s id d ≡ ok c → are_plain c.1 ≡ true
  unfolding edit
  edit-plain id d h =
      let (i, ei, h1) = bind-eq-ok (find s id) _ h in
      let (p, ep, h2) = bind-eq-ok (proposal s id d) _ h1 in edited-plain id i (changes i p) h2

  limit-plain :
      (n : ℕ) (by : Text) (reason : Text) → limit s n by reason ≡ ok c → are_plain c.1 ≡ true
  unfolding limit
  limit-plain n by reason h = ground arith

  moved-plain :
      (id : Text) (items : List Item) (by : Text) (reason : Text)
      → moved s id items by reason ≡ ok c
      → are_plain c.1 ≡ true
  unfolding moved
  moved-plain id items by reason h = ground arith

  move-plain :
      (id : Text) (after : Option Text) (before : Option Text) (by : Text) (reason : Text)
      → move s id after before by reason ≡ ok c
      → are_plain c.1 ≡ true
  unfolding move
  move-plain id after before by reason h =
      let (u, eu, h1) = bind-eq-ok (guard (by =ᵗ s.owner) not_owner) _ h in
      let (r, er, h2) = bind-eq-ok (text_of reason reason_limit true) _ h1 in
      let (a, ea, h3) = bind-eq-ok (anchor_of after before) _ h2 in
      let (i, ei, h4) = bind-eq-ok (find s id) _ h3 in
      let (v, ev, h5) = bind-eq-ok (refuse (anchor_id a =ᵗ id) (self_anchor id)) _ h4 in
      let (j, ej, h6) = bind-eq-ok (find s (anchor_id a)) _ h5 in
      moved-plain id (insert_at a i (remove_item id s.items)) by r h6

  start-plain : (id : Text) → start s id ≡ ok c → are_plain c.1 ≡ true
  unfolding start
  start-plain id h = ground arith

  block-plain : (id : Text) (reason : Text) → block s id reason ≡ ok c → are_plain c.1 ≡ true
  unfolding block
  block-plain id reason h = ground arith

  unblock-plain : (id : Text) → unblock s id ≡ ok c → are_plain c.1 ≡ true
  unfolding unblock
  unblock-plain id h = ground arith

  done-plain : (id : Text) (evidence : Text) → done s id evidence ≡ ok c → are_plain c.1 ≡ true
  unfolding done
  done-plain id evidence h = ground arith

  transition-plain :
      (id action reason : Text) → transition s id action reason ≡ ok c → are_plain c.1 ≡ true
  unfolding transition
  transition-plain id action reason h =
      ground (arith, start-plain id, block-plain id reason, unblock-plain id, done-plain id reason)

-- The digest that a handoff event carries is one.
abbrev is_digest : Option Text → Bool
is_digest none = true
is_digest (some t) = is_hex t

abbrev draft_fits : Draft → Bool
draft_fits d = if is_handoff d.op then is_digest (sha256_of d.after) else true

plain-fits : (ds : List Draft) → are_plain ds ≡ true → all draft_fits ds ≡ true
plain-fits [] h = refl
plain-fits (d ∷ ds) h = ground (arith, plain-fits ds)

handoff-fits :
    (digest : Text → Text) (hex : (t : Text) → is_hex (digest t) ≡ true) (s : State) (value : Text)
    (c : Change)
    → handoff digest s value ≡ ok c
    → all draft_fits c.1 ≡ true
unfolding handoff
handoff-fits digest hex s value c h = ground (arith, hex value)

perform-fits :
    (digest : Text → Text) (hex : (t : Text) → is_hex (digest t) ≡ true) (s : State) (r : Request)
    (c : Change)
    → perform digest s r ≡ ok c
    → all draft_fits c.1 ≡ true
unfolding perform
perform-fits digest hex s (Request.add title refs note deps) c h =
    plain-fits c.1 (add-plain s c title refs note deps h)
perform-fits digest hex s (Request.edit id d) c h = plain-fits c.1 (edit-plain s c id d h)
perform-fits digest hex s (Request.move id after before by reason) c h =
    plain-fits c.1 (move-plain s c id after before by reason h)
perform-fits digest hex s (Request.limit n by reason) c h =
    plain-fits c.1 (limit-plain s c n by reason h)
perform-fits digest hex s (Request.handoff text) c h = handoff-fits digest hex s text c h
perform-fits digest hex s (Request.transition id action reason) c h =
    plain-fits c.1 (transition-plain s c id action reason h)

module _ (codec : Codec) (hex : (t : Text) → is_hex (codec.sha256 t) ≡ true) (ctx : Context) where
  head-fits :
      (seq : ℕ) (head : Option Text) (ds : List Draft)
      → head_fits head ≡ true
      → head_fits (last_hash head (stamp_all codec ctx seq head ds)) ≡ true
  unfolding last_hash stamp_all
  head-fits seq head [] h = h
  head-fits seq head (d ∷ ds) h =
      let e = stamp codec ctx seq head d in
      let fits : is_hex e.hash ≡ true = unfold stamp in unfold event_hash in hex _ in
      head-fits (suc seq) (some e.hash) ds fits

  last_hash-some : (h : Text) (es : List Event) → is_none (last_hash (some h) es) ≡ false
  unfolding last_hash
  last_hash-some h [] = refl
  last_hash-some h (e ∷ es) = last_hash-some e.hash es

  seq-fits :
      (seq : ℕ) (head : Option Text) (ds : List Draft)
      → same (seq == 0) (is_none head) ≡ true
      → let es = stamp_all codec ctx seq head ds in
        same (seq + length es == 0) (is_none (last_hash head es)) ≡ true
  unfolding last_hash stamp_all
  seq-fits seq head [] h = ground arith
  seq-fits seq head (d ∷ ds) h =
      let e = stamp codec ctx seq head d in
      ground (arith, last_hash-some e.hash (stamp_all codec ctx (suc seq) (some e.hash) ds))

  validate_handoff_mono :
      (m n : ℕ) (p : Option Handoff)
      → m ≤ n
      → validate_handoff m p ≡ ok tt
      → validate_handoff n p ≡ ok tt
  unfolding validate_handoff
  validate_handoff_mono m n none l h = refl
  validate_handoff_mono m n (some p) l h = ground arith

  pointer-fits :
      (seq : ℕ) (d : Option Text) (old : Option Handoff)
      → is_digest d ≡ true
      → validate_handoff seq old ≡ ok tt
      → validate_handoff (suc seq) (pointer (suc seq) d old) ≡ ok tt
  unfolding validate_handoff
  pointer-fits seq none old f h = validate_handoff_mono seq (suc seq) old (omega arith) h
  pointer-fits seq (some t) old f h = ground arith

  step-fits :
      (seq : ℕ) (d : Draft) (old : Option Handoff)
      → draft_fits d ≡ true
      → validate_handoff seq old ≡ ok tt
      → validate_handoff
          (suc seq)
          (if is_handoff d.op then pointer (suc seq) (sha256_of d.after) old else old)
        ≡ ok tt
  step-fits seq d old f h = elim (Bool-cases (is_handoff d.op)) [
    | inl y ↦
        let g : is_digest (sha256_of d.after) ≡ true = ground arith in
        rw (y, pointer-fits seq (sha256_of d.after) old g h)
    | inr n ↦ rw (n, validate_handoff_mono seq (suc seq) old (omega arith) h)
  ]

  handoff-stays :
      (seq : ℕ) (head : Option Text) (old : Option Handoff) (ds : List Draft)
      → all draft_fits ds ≡ true
      → validate_handoff seq old ≡ ok tt
      → let es = stamp_all codec ctx seq head ds in
        validate_handoff (seq + length es) (last_handoff old es) ≡ ok tt
  unfolding last_handoff stamp_all stamp
  handoff-stays seq head old [] f h = validate_handoff_mono seq _ old (omega arith) h
  handoff-stays seq head old (d ∷ ds) f h =
      let e = stamp codec ctx seq head d in
      let rest =
        handoff-stays (suc seq) (some e.hash) _ ds (ground arith)
          (step-fits seq d old (ground arith) h) in
      validate_handoff_mono _ _ _ (omega arith) rest

  pub sealed_state-IsValid :
      (s : State) (ds : List Draft)
      → all draft_fits ds ≡ true
      → IsValid s
      → IsValid (sealed_state s (stamp_all codec ctx s.history.seq s.history.head ds))
  unfolding sealed_state
  sealed_state-IsValid s ds f v = record {
    cap = v.cap;
    version = v.version;
    owner = v.owner;
    next = v.next;
    items = v.items;
    archived = v.archived;
    archived_once = v.archived_once;
    once = v.once;
    apart = v.apart;
    below = v.below;
    ordered = v.ordered;
    head = head-fits s.history.seq s.history.head ds v.head;
    seq = seq-fits s.history.seq s.history.head ds v.seq;
    handoff = handoff-stays s.history.seq s.history.head s.handoff ds f v.handoff;
  }

  module _ (s : State) (r : Request) (c : Change) where
    abbrev events : List Event
    events = stamp_all codec ctx c.0.history.seq c.0.history.head c.1

    -- On a valid queue whose `next_id` is below 1,000,000, what a command returns is sealed, provided
    -- that digests are 64 hexadecimal digits, that the context is one, that no text of the new state
    -- or of the events looks like a secret, and that the new state is within the budget.
    pub seal-perform :
        s.next_id < 1000000
        → validate s ≡ ok tt
        → perform codec.sha256 s r ≡ ok c
        → check_context ctx ≡ ok tt
        → scan_secrets (state_strings (sealed_state c.0 events)) ≡ ok tt
        → scan_secrets (events_strings events) ≡ ok tt
        → codec.size (sealed_state c.0 events) ≤ state_budget
        → seal codec c.0 c.1 ctx ≡ ok (sealed_state c.0 events, events)
    unfolding seal
    seal-perform l v h hc hs he hz =
        let ok_c = perform-validate codec.sha256 s r c l v h in
        let w =
          sealed_state-IsValid c.0 c.1 (perform-fits codec.sha256 hex s r c h)
            (validate-IsValid c.0 ok_c) in
        let sealed : validate (sealed_state c.0 events) ≡ ok tt = IsValid-validate _ w in
        let small : ltb state_budget (codec.size (sealed_state c.0 events)) ≡ false =
          ground arith in
        rw (hc, hs, he, sealed, small)
