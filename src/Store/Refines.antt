-- ===== src/Store/Refines.antt =====
-- `commit` of tools/queue_store.py against what it promises to a reader: a queue is a state and its
-- history, and a commit either makes one step of it or leaves it.
use agent_engineering_standa.Base.{
  ◌≡◌, refl, sym, ◌∙◌, ap, false, true, some, List, ◌++◌, Text, ok, err,
}
use agent_engineering_standa.Queue.Types.{State, Event, Context, Outcome, Error}
use agent_engineering_standa.Queue.Validate.{is_hex}
use agent_engineering_standa.Queue.History.{Codec, seal, chain}
use agent_engineering_standa.Queue.History.Links.{NoCollision}
use agent_engineering_standa.Queue.Edit.{Change}
use agent_engineering_standa.Queue.Request.{Request, perform}
use agent_engineering_standa.Store.Memory.{Memory, append}
use agent_engineering_standa.Store.Commit.{Write, prepare, swap, written, commit, on_state}
use agent_engineering_standa.Store.Atomic.{
  Evolves-refl, prepare-eq-ok, swap-eq-ok, swap-eq-err, commit_isolated, swap_refused,
}

-- What a reader of the store sees.
pub record View : Type 0 where
  pub state : State
  pub events : List Event

pub record Shows (codec : Codec) (m : Memory) (v : View) : Type 0 where
  pub stored : m.state ≡ some v.state
  pub chained : chain codec m.log v.state ≡ ok v.events

-- One accepted request: the state is the sealed one, and its events follow the history.
pub record Step (codec : Codec) (r : Request) (ctx : Context) (v w : View) : Type 0 where
  pub change : Change
  pub performed : perform codec.sha256 v.state r ≡ ok change
  pub sealed : List Event
  pub sealing : seal codec change.0 change.1 ctx ≡ ok (w.state, sealed)
  pub grown : w.events ≡ v.events ++ sealed

-- What a commit may do to the view, given what it returns.
abbrev pub Follows : Codec → Request → Context → View → Outcome State → View → Type 0
Follows codec r ctx v (ok new) w = Step codec r ctx v w × (w.state ≡ new)
Follows codec r ctx v (err e) w = w ≡ v

module _ (codec : Codec) (hex : (t : Text) → is_hex (codec.sha256 t) ≡ true) (r : Request)
    (ctx : Context) (m : Memory) (v : View) where
  made-Follows :
      (w : Write) (final : Memory) (new : State)
      → prepare codec false (on_state (perform codec.sha256) r) ctx m ≡ ok w
      → swap (append m w.sealed) w ≡ (final, ok new)
      → Shows codec m v
      → NoCollision codec final.log
      → (u : View) × Shows codec final u × Follows codec r ctx v (ok new) u
  made-Follows w final new h made shows once =
      let (c, performed, sealing, read) = prepare-eq-ok codec r ctx m v.state w shows.stored h in
      let (swapped, stored, returned) = swap-eq-ok (append m w.sealed) w final new made in
      let kept : NoCollision codec (append m w.sealed).log =
        rw (← ap (λ (n : Memory). n.log) stored) once in
      let (before, now, history) =
        commit_isolated codec r ctx m m (append m w.sealed) v.state w v.events hex shows.stored
          shows.chained h (Evolves-refl m) (Evolves-refl (append m w.sealed)) kept made in
      (
        record { state = new; events = v.events ++ w.sealed },
        record { stored = now; chained = history },
        (
          record {
            change = c;
            performed = performed;
            sealed = w.sealed;
            sealing = sealing ∙ ap (λ (s : State). ok (s, w.sealed)) (sym returned);
            grown = refl;
          },
          refl,
        ),
      )

  written-Follows :
      (w : Write) (final : Memory) (result : Outcome State)
      → prepare codec false (on_state (perform codec.sha256) r) ctx m ≡ ok w
      → swap (append m w.sealed) w ≡ (final, result)
      → Shows codec m v
      → NoCollision codec final.log
      → (u : View) × Shows codec final u × Follows codec r ctx v result u
  written-Follows w final (ok new) h made shows once = made-Follows w final new h made shows once
  written-Follows w final (err e) h lost shows once =
      let (refused, unchanged) = swap-eq-err (append m w.sealed) w final e lost in
      let kept : NoCollision codec (append m w.sealed).log =
        rw (← ap (λ (n : Memory). n.log) unchanged) once in
      let (_, _, history) =
        swap_refused codec m (append m w.sealed) final w v.state v.events e
          (Evolves-refl (append m w.sealed)) kept shows.chained lost in
      let same : final.state ≡ m.state = unfold append in ap (λ (n : Memory). n.state) unchanged in
      (v, record { stored = same ∙ shows.stored; chained = history }, refl)

  refused-Follows :
      (final : Memory) (result : Outcome State) (e : Error)
      → final ≡ m
      → result ≡ err e
      → Shows codec m v
      → (u : View) × Shows codec final u × Follows codec r ctx v result u
  refused-Follows final result e same refused shows = rw (same, refused) (v, shows, refl)

  prepared-Follows :
      (p : Outcome Write) (final : Memory) (result : Outcome State)
      → prepare codec false (on_state (perform codec.sha256) r) ctx m ≡ p
      → written m p ≡ (final, result)
      → Shows codec m v
      → NoCollision codec final.log
      → (u : View) × Shows codec final u × Follows codec r ctx v result u
  unfolding written
  prepared-Follows (ok w) final result made h shows once =
      written-Follows w final result made h shows once
  prepared-Follows (err e) final result made h shows once =
      refused-Follows final result e (sym (ap (λ (p : Memory × Outcome State). p.0) h))
        (sym (ap (λ (p : Memory × Outcome State). p.1) h)) shows

  -- A commit by one writer makes one step of the view and returns its new state, or refuses and
  -- leaves the view as it is; either way the store shows a view again. No two events of the log that
  -- is left share a hash.
  pub commit-Follows :
      (final : Memory) (result : Outcome State)
      → Shows codec m v
      → NoCollision codec final.log
      → commit codec false (on_state (perform codec.sha256) r) ctx m ≡ (final, result)
      → (u : View) × Shows codec final u × Follows codec r ctx v result u
  unfolding commit
  commit-Follows final result shows once h =
      prepared-Follows (prepare codec false (on_state (perform codec.sha256) r) ctx m) final result
        refl h shows once
