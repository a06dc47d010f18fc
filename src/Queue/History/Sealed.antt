-- ===== src/Queue/History/Sealed.antt =====
-- `seal` of tools/queue_core.py against `chain` and `handoff_text`: what is sealed is what the
-- history returns.
use agent_engineering_standa.Base.{
  ℕ, suc, ◌+◌, ◌≤◌, ◌<◌, ◌≡◌, refl, ap, subst, inl, inr, true, Option, none, some, List, [], ◌∷◌,
  ◌++◌, map, Text, =ᵗ_refl, ok, arith, All, All-map, All-append, length,
}
use agent_engineering_standa.Queue.Types.{
  State, History, Handoff, Draft, Context, Event, Entry, shaped, junk,
}
use agent_engineering_standa.Queue.Validate.{is_hex, validate}
use agent_engineering_standa.Queue.Edit.{handoff_draft, handoff}
use agent_engineering_standa.Queue.History.{
  Codec, event_hash, well_formed, stamp, stamp_all, last_hash, sealed_state, seal, chain,
  read_handoff, handoff_text, walk,
}
use agent_engineering_standa.Queue.History.Links.{In, Links, NoCollision, chain_iff}

pub In-append_left : (e : Event) (xs ys : List Entry) → In e xs → In e (xs ++ ys)
In-append_left e [] ys i = absurd i
In-append_left e (junk ∷ xs) ys i = In-append_left e xs ys i
In-append_left e (shaped d ∷ xs) ys (inl same) = inl same
In-append_left e (shaped d ∷ xs) ys (inr i) = inr (In-append_left e xs ys i)

pub In-append_right : (e : Event) (xs ys : List Entry) → In e ys → In e (xs ++ ys)
In-append_right e [] ys i = i
In-append_right e (junk ∷ xs) ys i = In-append_right e xs ys i
In-append_right e (shaped d ∷ xs) ys i = inr (In-append_right e xs ys i)

pub In-self : (es : List Event) → All (λ e. In e (map shaped es)) es
In-self [] = tt
In-self (e ∷ es) = (inl refl, All-map (λ d i. inr i) es (In-self es))

-- `chain` reads the history of a state only.
pub chain-of_history :
    (codec : Codec) (log : List Entry) (s t : State)
    → t.history ≡ s.history
    → chain codec log t ≡ chain codec log s
unfolding chain
chain-of_history codec log s t e = ap (λ (h : History). walk codec log h.seq h.head []) e

module _ (codec : Codec) where
  Links-append :
      (s : ℕ) (p : Option Text) (xs ys : List Event) (n : ℕ) (h : Option Text) (m : ℕ)
      (k : Option Text)
      → Links codec s p xs n h
      → Links codec n h ys m k
      → Links codec s p (xs ++ ys) m k
  Links-append s p [] ys n h m k (seq, head) l = rw (seq, head) l
  Links-append s p (x ∷ xs) ys n h m k (seq, prev, w, rest) l =
      (seq, prev, w, Links-append (suc s) (some x.hash) xs ys n h m k rest l)

  pub Links-bounded :
      (s : ℕ) (p : Option Text) (es : List Event) (n : ℕ) (h : Option Text)
      → Links codec s p es n h
      → (s ≤ n) × All (λ e. e.body.seq ≤ n) es
  Links-bounded s p [] n h (seq, head) = (omega arith, tt)
  Links-bounded s p (e ∷ es) n h (seq, prev, w, rest) =
      let (above, bounded) = Links-bounded (suc s) (some e.hash) es n h rest in
      (omega arith, (omega arith, bounded))

  -- `seal` returns the stamped events and the state that points at them, and that state is valid.
  pub seal-eq-ok :
      (state : State) (drafts : List Draft) (ctx : Context) {new : State} {sealed : List Event}
      → seal codec state drafts ctx ≡ ok (new, sealed)
      → (sealed ≡ stamp_all codec ctx state.history.seq state.history.head drafts)
        × (new ≡ sealed_state state sealed)
        × (validate new ≡ ok tt)
  unfolding seal
  seal-eq-ok state drafts ctx h = ground arith

  pub NoCollision-append_left :
      (log more : List Entry) → NoCollision codec (log ++ more) → NoCollision codec log
  NoCollision-append_left log more once = record {
    same = λ d e i j. once.same d e (In-append_left d log more i) (In-append_left e log more j);
  }

  -- A read history stays as it is when anything is appended to the log.
  pub chain-append :
      (log more : List Entry) (state : State) {es : List Event}
      → NoCollision codec (log ++ more)
      → chain codec log state ≡ ok es
      → chain codec (log ++ more) state ≡ ok es
  chain-append log more state {es} once before =
      let whole = NoCollision-append_left log more once in
      let (links, found) = (chain_iff codec log state es whole).0 before in
      (chain_iff codec (log ++ more) state es once).1
        (links, All-map (λ e i. In-append_left e log more i) es found)

  -- The pointer is read past events with lower numbers.
  read_handoff-append :
      (p : Handoff) (old es : List Event)
      → All (λ e. e.body.seq < p.seq) old
      → read_handoff codec p (old ++ es) ≡ read_handoff codec p es
  unfolding read_handoff
  read_handoff-append p [] es below = refl
  read_handoff-append p (e ∷ old) es (lower, below) =
      ground (arith, read_handoff-append p old es below)

  module _ (hex : (t : Text) → is_hex (codec.sha256 t) ≡ true) where
    well_formed-stamp :
        (ctx : Context) (seq : ℕ) (head : Option Text) (d : Draft)
        → well_formed codec (stamp codec ctx seq head d) ≡ true
    unfolding well_formed stamp
    well_formed-stamp ctx seq head d = ground (
      arith,
      hex (codec.canonical (record { draft = d; seq = suc seq; prev = head; context = ctx })),
      =ᵗ_refl (event_hash codec (record { draft = d; seq = suc seq; prev = head; context = ctx })),
    )

    stamp_all-Links :
        (ctx : Context) (seq : ℕ) (head : Option Text) (ds : List Draft)
        → let es = stamp_all codec ctx seq head ds in
          Links codec seq head es (seq + length es) (last_hash head es)
    unfolding stamp_all last_hash
    stamp_all-Links ctx seq head [] = (omega arith, refl)
    stamp_all-Links ctx seq head (d ∷ ds) =
        let e = stamp codec ctx seq head d in
        let es = stamp_all codec ctx (suc seq) (some e.hash) ds in
        let numbered : e.body.seq ≡ suc seq = unfold stamp in refl in
        let follows : e.body.prev ≡ head = unfold stamp in refl in
        let count : suc seq + length es ≡ seq + suc (length es) = omega arith in
        (
          numbered,
          follows,
          well_formed-stamp ctx seq head d,
          subst (λ n. Links codec (suc seq) (some e.hash) es n (last_hash (some e.hash) es)) count
              (stamp_all-Links ctx (suc seq) (some e.hash) ds),
        )

    -- Sealing onto a state whose history is read back gives a state whose history is read back:
    -- the old events, and then the sealed ones. The log holds both, among anything else, in any
    -- order; its well-formed events do not share hashes.
    pub chain-seal :
        (log : List Entry) (state : State) (drafts : List Draft) (ctx : Context) {new : State}
        {old sealed : List Event}
        → NoCollision codec log
        → All (λ e. In e log) sealed
        → chain codec log state ≡ ok old
        → seal codec state drafts ctx ≡ ok (new, sealed)
        → chain codec log new ≡ ok (old ++ sealed)
    chain-seal log state drafts ctx {new} {old} {sealed} once stored before h =
        let (stamped, committed, valid) = seal-eq-ok state drafts ctx h in
        let (links, found) = (chain_iff codec log state old once).0 before in
        (chain_iff codec log new (old ++ sealed) once).1 (
          rw committed (
              unfold sealed_state in
              Links-append 0 none old sealed _ _ _ _ links
                (rw stamped (stamp_all-Links ctx state.history.seq state.history.head drafts))),
          All-append (λ e. In e log) old sealed found stored,
        )

  -- What `op_handoff` returns, and the pointer and the text once it is sealed.
  handoff-eq-ok :
      (state : State) (value : Text) {changed : State} {drafts : List Draft}
      → handoff codec.sha256 state value ≡ ok (changed, drafts)
      → (changed ≡ state) × (drafts ≡ handoff_draft codec.sha256 state value ∷ [])
  unfolding handoff
  handoff-eq-ok state value h = ground arith

  stamped_handoff : State → Text → Context → Event
  stamped_handoff state value ctx =
      stamp codec ctx state.history.seq state.history.head (handoff_draft codec.sha256 state value)

  handoff_text-stamped :
      (state : State) (value : Text) (ctx : Context) (old : List Event)
      → All (λ e. e.body.seq < suc state.history.seq) old
      → handoff_text codec
          (sealed_state state (stamped_handoff state value ctx ∷ []))
          (old ++ (stamped_handoff state value ctx ∷ []))
        ≡ ok (some value)
  unfolding handoff_text sealed_state stamped_handoff stamp
  handoff_text-stamped state value ctx old below =
      rw
        (read_handoff-append (record { seq = suc state.history.seq; sha256 = codec.sha256 value })
          old (stamped_handoff state value ctx ∷ []) below)
        (ground (arith, =ᵗ_refl (codec.sha256 value)))

  -- After a sealed `op_handoff` the history gives back its text, and not an earlier one.
  pub handoff_text-seal :
      (log : List Entry) (state : State) (value : Text) (ctx : Context) {changed new : State}
      {drafts : List Draft} {old sealed : List Event}
      → NoCollision codec log
      → chain codec log state ≡ ok old
      → handoff codec.sha256 state value ≡ ok (changed, drafts)
      → seal codec changed drafts ctx ≡ ok (new, sealed)
      → handoff_text codec new (old ++ sealed) ≡ ok (some value)
  handoff_text-seal log state value ctx {changed} {new} {drafts} {old} {sealed} once before made h =
      let (unchanged, drafted) = handoff-eq-ok state value made in
      let sealing : seal codec state (handoff_draft codec.sha256 state value ∷ []) ctx
          ≡ ok (new, sealed) =
        cc in
      let (stamped, committed, valid) =
        seal-eq-ok state (handoff_draft codec.sha256 state value ∷ []) ctx sealing in
      let single : sealed ≡ stamped_handoff state value ctx ∷ [] =
        unfold stamp_all stamped_handoff in stamped in
      let (links, found) = (chain_iff codec log state old once).0 before in
      let (above, bounded) = Links-bounded 0 none old _ _ links in
      rw (committed, single)
        (handoff_text-stamped state value ctx old (All-map (λ e b. omega arith) old bounded))
