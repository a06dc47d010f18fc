-- ===== src/Queue/History/Links.antt =====
-- `chain` of tools/queue_core.py against its specification: the linked events from the first one to
-- the committed head.
use agent_engineering_standa.Base.{
  ℕ, zero, suc, ◌≡◌, refl, ◌==◌, ◌∙◌, ap, ◌⊎◌, inl, inr, ◌↔◌, Bool, true, false, Option, none, some,
  List, [], ◌∷◌, ◌++◌, Text, ◌=ᵗ◌, =ᵗ_iff, =ᵗ_refl, ok, arith, All, Bool-cases, Option-cases,
  ==_iff, and-true,
}
use mathlib.Core.List.{append-nil}
use agent_engineering_standa.Queue.Types.{State, Event, Entry, shaped, junk}
use agent_engineering_standa.Queue.History.{Codec, well_formed, or_entry, by_hash, walk, chain}

-- An event stands in a log.
abbrev pub In : Event → List Entry → Type 0
In e [] = ⊥
In e (junk ∷ log) = In e log
In e (shaped d ∷ log) = (d ≡ e) ⊎ In e log

or_entry-cases :
    (o : Option Event) (b : Bool) (d : Event) {e : Event}
    → or_entry o b d ≡ some e
    → (o ≡ some e) ⊎ ((b ≡ true) × (d ≡ e))
or_entry-cases (some later) b d h = inl h
or_entry-cases none true d h = inr (refl, cc)
or_entry-cases none false d h = cc

or_entry-true :
    (o : Option Event) (b : Bool) (d : Event) → b ≡ true → (e : Event) × (or_entry o b d ≡ some e)
or_entry-true (some later) b d h = (later, refl)
or_entry-true none true d h = (d, refl)
or_entry-true none false d h = cc

or_entry-some :
    (o : Option Event) (b : Bool) (d : Event) {later : Event}
    → o ≡ some later
    → or_entry o b d ≡ some later
or_entry-some o b d h = rw h

module _ (codec : Codec) where
  -- Events that follow event number `s`, whose hash is `p`, up to event number `n`, whose hash is
  -- `h`: each has the next number, the hash of the one before it, and its own hash.
  abbrev pub Links : ℕ → Option Text → List Event → ℕ → Option Text → Type 0
  Links s p [] n h = (s ≡ n) × (p ≡ h)
  Links s p (e ∷ es) n h =
      (e.body.seq ≡ suc s)
      × (e.body.prev ≡ p)
      × (well_formed codec e ≡ true)
      × Links (suc s) (some e.hash) es n h

  -- No two well-formed events of the log share a hash.
  pub record NoCollision (log : List Entry) : Type 0 where
    pub same :
        (d e : Event)
        → In d log
        → In e log
        → well_formed codec d ≡ true
        → well_formed codec e ≡ true
        → d.hash ≡ e.hash
        → d ≡ e

  pub by_hash_sound :
      (h : Text) (log : List Entry) (e : Event)
      → by_hash codec h log ≡ some e
      → In e log × (well_formed codec e ≡ true) × (e.hash ≡ h)
  unfolding by_hash
  by_hash_sound h [] e eq = cc
  by_hash_sound h (junk ∷ log) e eq = by_hash_sound h log e eq
  by_hash_sound h (shaped d ∷ log) e eq = elim (or_entry-cases (by_hash codec h log) _ d eq) [
    | inl later ↦ let (i, w, same) = by_hash_sound h log e later in (inr i, w, same)
    | inr (test, same) ↦
        let (w, equal) = and-true (well_formed codec d) (d.hash =ᵗ h) test in
        (inl same, rw same at w, rw same at ((=ᵗ_iff d.hash h).0 equal))
  ]

  by_hash_found :
      (log : List Entry) (e : Event)
      → In e log
      → well_formed codec e ≡ true
      → (d : Event) × (by_hash codec e.hash log ≡ some d)
  unfolding by_hash
  by_hash_found [] e i w = absurd i
  by_hash_found (junk ∷ log) e i w = by_hash_found log e i w
  by_hash_found (shaped d ∷ log) e i w = elim i [
    | inl same ↦ or_entry-true (by_hash codec e.hash log) _ d (rw same (rw (w, =ᵗ_refl e.hash)))
    | inr later ↦
        let (x, eq) = by_hash_found log e later w in
        (x, or_entry-some (by_hash codec e.hash log) _ d eq)
  ]

  -- Without collisions the dictionary gives back each well-formed event of the log.
  pub by_hash_complete :
      {log : List Entry} (e : Event)
      → NoCollision log
      → In e log
      → well_formed codec e ≡ true
      → by_hash codec e.hash log ≡ some e
  by_hash_complete {log} e once i w =
      let (d, eq) = by_hash_found log e i w in
      let (j, v, same) = by_hash_sound e.hash log d eq in eq ∙ ap some (once.same d e j i v w same)

  -- A successful walk has found linked events of the log.
  walk_sound :
      (log : List Entry) (n : ℕ) (h : Option Text) (walked : List Event) (m : ℕ) (k : Option Text)
      {es : List Event}
      → walk codec log n h walked ≡ ok es
      → Links n h walked m k
      → All (λ e. In e log) walked
      → Links 0 none es m k × All (λ e. In e log) es
  unfolding walk
  walk_sound log zero none walked m k {es} eq l a =
      let same : walked ≡ es = cc in (rw (← same) l, rw (← same) a)
  walk_sound log (suc n) none walked m k eq l a = cc
  walk_sound log zero (some x) walked m k eq l a = ground arith
  walk_sound log (suc n) (some x) walked m k eq l a = elim (Option-cases (by_hash codec x log)) [
    | inl gone ↦ ground arith
    | inr (e, at) ↦ elim (Bool-cases (e.body.seq == suc n)) [
      | inl next ↦
          let (i, w, same) = by_hash_sound x log e at in
          walk_sound log n e.body.prev (e ∷ walked) m k (ground arith)
            ((==_iff e.body.seq (suc n)).0 next, refl, w, rw same l) (i, a)
      | inr other ↦ ground arith
    ]
  ]

  walk_step :
      (log : List Entry) (s : ℕ) (p : Option Text) (e : Event) (walked : List Event)
      → e.body.seq ≡ suc s
      → e.body.prev ≡ p
      → by_hash codec e.hash log ≡ some e
      → walk codec log (suc s) (some e.hash) walked ≡ walk codec log s p (e ∷ walked)
  unfolding walk
  walk_step log s p e walked seq prev found = ground arith

  walk_start : (log : List Entry) (es : List Event) → walk codec log 0 none (es ++ []) ≡ ok es
  unfolding walk
  walk_start log es = rw append-nil

  -- Linked events that the dictionary gives back are walked.
  walk-Links :
      (log : List Entry) (s : ℕ) (p : Option Text) (es : List Event) (n : ℕ) (h : Option Text)
      (walked : List Event)
      → NoCollision log
      → Links s p es n h
      → All (λ e. In e log) es
      → walk codec log n h walked ≡ walk codec log s p (es ++ walked)
  walk-Links log s p [] n h walked once (same_seq, same_head) a = rw (same_seq, same_head)
  walk-Links log s p (e ∷ es) n h walked once (seq, prev, w, rest) (i, a) =
      walk-Links log (suc s) (some e.hash) es n h walked once rest a
      ∙ walk_step log s p e (es ++ walked) seq prev (by_hash_complete e once i w)

  -- `chain` returns a history exactly when it is made of events of the log, linked from the first
  -- one to the committed head; so junk, forgeries and orphans do not change it.
  pub chain_iff :
      (log : List Entry) (state : State) (es : List Event)
      → NoCollision log
      → (chain codec log state ≡ ok es)
        ↔ (Links 0 none es state.history.seq state.history.head × All (λ e. In e log) es)
  unfolding chain
  chain_iff log state es once = (
    λ eq. walk_sound log state.history.seq state.history.head [] _ _ eq (refl, refl) tt,
    λ (l, a).
        walk-Links log 0 none es state.history.seq state.history.head [] once l a
        ∙ walk_start log es,
  )
