-- ===== src/Store/Atomic.antt =====
-- `commit` of tools/queue_store.py among other writers: between its read, its append and its swap
-- the store may change as any writer changes it.
use native.Mathlib.Nat.{le_trans}
use mathlib.Core.List.{append_assoc, append-nil}
use agent_engineering_standa.Base.{
  ◌≤◌, ◌≡◌, refl, sym, ap, subst, ◌∙◌, Bool, true, false, Option, some, List, [], ◌++◌, map, Text,
  ok, err, arith, All, All-map, bind-eq-ok, Result-cases, inl, inr,
}
use agent_engineering_standa.Queue.Types.{
  State, Error, conflict, Event, Entry, shaped, Context, Outcome,
}
use agent_engineering_standa.Queue.Validate.{is_hex}
use agent_engineering_standa.Queue.Edit.{Change}
use agent_engineering_standa.Queue.History.{Codec, seal, chain}
use agent_engineering_standa.Queue.History.Links.{In, NoCollision}
use agent_engineering_standa.Queue.History.Sealed.{
  In-self, In-append_left, In-append_right, chain-seal, chain-append, chain-of_history,
}
use agent_engineering_standa.Queue.Request.{Request, perform}
use agent_engineering_standa.Queue.Keeps.{perform-history}
use agent_engineering_standa.Store.Memory.{
  Memory, Token, token_of, load, same_token, saved, save, append, check,
}
use agent_engineering_standa.Store.Commit.{
  check_loaded, Write, prepared, prepare, swap, commit, on_state,
}

-- How the writers together may change the store: the log only grows, and each new state has a new
-- version.
pub record Evolves (m n : Memory) : Type 0 where
  pub grew : (more : List Entry) × (n.log ≡ m.log ++ more)
  pub rises : m.version ≤ n.version
  pub kept : n.version ≡ m.version → n.state ≡ m.state

pub Evolves-refl : (m : Memory) → Evolves m m
Evolves-refl m = record {
  grew = ([], sym (append-nil m.log));
  rises = omega arith;
  kept = λ e. refl;
}

pub Evolves-trans : {m n o : Memory} → Evolves m n → Evolves n o → Evolves m o
Evolves-trans {m} {n} {o} f g =
    let (xs, ex) = f.grew in
    let (ys, ey) = g.grew in
    let low = f.rises in
    let high = g.rises in
    record {
      grew = (xs ++ ys, ey ∙ ap (λ l. l ++ ys) ex ∙ append_assoc m.log xs ys);
      rises = le_trans low high;
      kept = λ e. g.kept (omega arith) ∙ f.kept (omega arith);
    }

pub append-Evolves : (m : Memory) (es : List Event) → Evolves m (append m es)
unfolding append
append-Evolves m es = record { grew = (map shaped es, refl); rises = omega arith; kept = λ e. refl }

save-eq-ok :
    (m : Memory) (new : State) (t : Token) (n : Memory)
    → save m new t ≡ ok n
    → (same_token t (token_of m.state m.version) ≡ true) × (n ≡ saved m new)
unfolding save
save-eq-ok m new t n h = ground arith

saved-Evolves : (m : Memory) (new : State) → Evolves m (saved m new)
saved-Evolves m new = record {
  grew = ([], sym (append-nil m.log));
  rises = omega arith;
  kept = λ e. absurd (omega arith);
}

save-Evolves :
    (m : Memory) (new : State) (t : Token) (n : Memory) → save m new t ≡ ok n → Evolves m n
save-Evolves m new t n h = rw (save-eq-ok m new t n h).1 (saved-Evolves m new)

swap-Evolves : (m : Memory) (w : Write) → Evolves m (swap m w).0
unfolding swap
swap-Evolves m w = elim (Result-cases (save m w.new w.token)) [
  | inl (n, made) ↦ rw made (save-Evolves m w.new w.token n made)
  | inr (e, lost) ↦ rw lost (Evolves-refl m)
]

-- A swap is made only over the state that was read.
same_token-state :
    (m n : Memory)
    → Evolves m n
    → same_token (token_of m.state m.version) (token_of n.state n.version) ≡ true
    → n.state ≡ m.state
unfolding same_token
same_token-state m n f h = ground (arith, f.kept)

-- Other writers' commits evolve the store too.
pub commit-Evolves :
    (codec : Codec) (create : Bool) (change : Option State → Outcome Change) (ctx : Context)
    (m : Memory)
    → Evolves m (commit codec create change ctx m).0
unfolding commit
commit-Evolves codec create change ctx m = elim (Result-cases (prepare codec create change ctx m)) [
  | inl (w, made) ↦
      rw made (Evolves-trans (append-Evolves m w.sealed) (swap-Evolves (append m w.sealed) w))
  | inr (e, refused) ↦ rw refused (Evolves-refl m)
]

-- The parts of the record that `prepared` returns.
write_of :
    {sealing : Outcome (State × List Event)} (result : State × List Event) (t : Token) (w : Write)
    → sealing ≡ ok result
    → ◌≡◌ {A = Outcome Write} (ok (record { new = result.0; sealed = result.1; token = t })) (ok w)
    → sealing ≡ ok (w.new, w.sealed)
write_of result t w h e = ground arith

write_token :
    (result : State × List Event) (t : Token) (w : Write)
    → ◌≡◌ {A = Outcome Write} (ok (record { new = result.0; sealed = result.1; token = t })) (ok w)
    → w.token ≡ t
write_token result t w e = ground arith

prepared-eq-ok :
    (codec : Codec) (r : Request) (ctx : Context) (m : Memory) (s : State) (t : Token) (w : Write)
    → prepared codec false (on_state (perform codec.sha256) r) ctx m (some s) t ≡ ok w
    → (c : Change) × (perform codec.sha256 s r ≡ ok c)
      × (seal codec c.0 c.1 ctx ≡ ok (w.new, w.sealed))
      × (w.token ≡ t)
unfolding prepared check_loaded on_state
prepared-eq-ok codec r ctx m s t w h =
    let (c, performed, h1) = bind-eq-ok (perform codec.sha256 s r) _ h in
    let (result, sealed, h2) = bind-eq-ok (seal codec c.0 c.1 ctx) _ h1 in
    let (u, fits, h3) = bind-eq-ok (check codec m result.0) _ h2 in
    (c, performed, write_of result t w sealed h3, write_token result t w h3)

-- What a writer holds when it has prepared a request: the swap token of the state that it read, and
-- the sealed form of what the request makes of that state.
pub prepare-eq-ok :
    (codec : Codec) (r : Request) (ctx : Context) (m : Memory) (s : State) (w : Write)
    → m.state ≡ some s
    → prepare codec false (on_state (perform codec.sha256) r) ctx m ≡ ok w
    → (c : Change) × (perform codec.sha256 s r ≡ ok c)
      × (seal codec c.0 c.1 ctx ≡ ok (w.new, w.sealed))
      × (w.token ≡ token_of m.state m.version)
unfolding prepare load
prepare-eq-ok codec r ctx m s w here h =
    prepared-eq-ok codec r ctx m s (token_of m.state m.version) w (
      subst
        (λ o.
          prepared codec false (on_state (perform codec.sha256) r) ctx m o
            (token_of m.state m.version)
          ≡ ok w)
        here h)

pub swap-eq-ok :
    (o : Memory) (w : Write) (final : Memory) (new : State)
    → swap o w ≡ (final, ok new)
    → (same_token w.token (token_of o.state o.version) ≡ true)
      × (final ≡ saved o w.new)
      × (new ≡ w.new)
unfolding swap save
swap-eq-ok o w final new h = ground arith

pub swap-eq-err :
    (o : Memory) (w : Write) (final : Memory) (e : Error)
    → swap o w ≡ (final, err e)
    → (e ≡ conflict) × (final ≡ o)
unfolding swap save
swap-eq-err o w final e h = ground arith

chain-grown :
    (codec : Codec) (log later more : List Entry) (s : State) (es : List Event)
    → NoCollision codec later
    → later ≡ log ++ more
    → chain codec log s ≡ ok es
    → chain codec later s ≡ ok es
chain-grown codec log later more s es once e h =
    rw e (chain-append codec log more s (rw e at once) h)

In-appended :
    (n : Memory) (es : List Event) (later : List Entry) (o : Memory)
    → o.log ≡ (append n es).log ++ later
    → All (λ e. In e o.log) es
unfolding append
In-appended n es later o e = rw e (
    All-map
      (λ d i.
        In-append_left d (n.log ++ map shaped es) later (In-append_right d n.log (map shaped es) i))
      es (In-self es))

-- A commit whose swap is made, while any other writers ran between its read, its append and its
-- swap: nobody else's state is overwritten, and the history of the new state is the history that
-- was read, followed by the events of this commit.
pub commit_isolated :
    (codec : Codec) (r : Request) (ctx : Context) (m n o : Memory) (s : State) (w : Write)
    (old : List Event) {final : Memory} {new : State}
    → ((t : Text) → is_hex (codec.sha256 t) ≡ true)
    → m.state ≡ some s
    → chain codec m.log s ≡ ok old
    → prepare codec false (on_state (perform codec.sha256) r) ctx m ≡ ok w
    → Evolves m n
    → Evolves (append n w.sealed) o
    → NoCollision codec o.log
    → swap o w ≡ (final, ok new)
    → (o.state ≡ some s)
      × (final.state ≡ some new)
      × (chain codec final.log new ≡ ok (old ++ w.sealed))
commit_isolated codec r ctx m n o s w old {final} {new} hex here before h first second once made =
    let (c, performed, sealing, read) = prepare-eq-ok codec r ctx m s w here h in
    let (swapped, stored, returned) = swap-eq-ok o w final new made in
    let evolved = Evolves-trans first (Evolves-trans (append-Evolves n w.sealed) second) in
    let (more, grew) = evolved.grew in
    let (later, kept) = second.grew in
    let same : o.state ≡ m.state = same_token-state m o evolved (rw read at swapped) in
    let earlier : chain codec o.log c.0 ≡ ok old =
      chain-of_history codec o.log s c.0 (perform-history codec.sha256 s r c performed)
      ∙ chain-grown codec m.log o.log more s old once grew before in
    (
      same ∙ here,
      rw (stored, returned),
      rw (stored, returned)
          (chain-seal codec hex o.log c.0 c.1 ctx once (In-appended n w.sealed later o kept) earlier
            sealing),
    )

-- A commit whose swap is refused was refused because of another writer: the store is the one that
-- this writer left, and any state whose history was read back before still has that history.
pub swap_refused :
    (codec : Codec) (n o final : Memory) (w : Write) (s : State) (es : List Event) (e : Error)
    → Evolves (append n w.sealed) o
    → NoCollision codec o.log
    → chain codec n.log s ≡ ok es
    → swap o w ≡ (final, err e)
    → (e ≡ conflict) × (final ≡ o) × (chain codec final.log s ≡ ok es)
swap_refused codec n o final w s es e evolved once before lost =
    let (refused, unchanged) = swap-eq-err o w final e lost in
    let (more, grew) = (Evolves-trans (append-Evolves n w.sealed) evolved).grew in
    (refused, unchanged, rw unchanged (chain-grown codec n.log o.log more s es once grew before))
