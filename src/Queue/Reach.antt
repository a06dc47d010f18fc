-- ===== src/Queue/Reach.antt =====
-- The queues that the commands of tools/work_queue.py reach: `init`, then any operation of
-- tools/queue_core.py, each sealed.
use mathlib.Core.List.{map-append}
use agent_engineering_standa.Base.{
  [], true, ◌≤◌, ◌≡◌, ◌∙◌, List, ◌++◌, map, Text, ok, arith, All-map, length,
}
use agent_engineering_standa.Queue.Types.{State, Context, Event, shaped}
use agent_engineering_standa.Queue.Validate.{is_hex, validate}
use agent_engineering_standa.Queue.Query.{max_active, active_items}
use agent_engineering_standa.Queue.Edit.{Change, init}
use agent_engineering_standa.Queue.Request.{Request, perform}
use agent_engineering_standa.Queue.Keeps.{perform-history}
use agent_engineering_standa.Queue.History.{Codec, sealed_state, seal, chain, walk}
use agent_engineering_standa.Queue.History.Links.{NoCollision}
use agent_engineering_standa.Queue.History.Sealed.{
  In-self, In-append_right, NoCollision-append_left, seal-eq-ok, chain-seal, chain-append,
  chain-of_history,
}
use agent_engineering_standa.Queue.Cap.{WithinCap, running, perform-WithinCap}
use agent_engineering_standa.Queue.Valid.{validate-IsValid}

-- A state that is committed, with the events committed so far, oldest first.
pub data Reach (codec : Codec) : State → List Event → Type 0 where
  founded :
      (owner : Text) (c : Change) (ctx : Context) (new : State) (es : List Event)
      → init owner ≡ ok c
      → seal codec c.0 c.1 ctx ≡ ok (new, es)
      → Reach codec new es
  stepped :
      (s : State) (old : List Event) (r : Request) (c : Change) (ctx : Context) (new : State)
      (es : List Event)
      → Reach codec s old
      → perform codec.sha256 s r ≡ ok c
      → seal codec c.0 c.1 ctx ≡ ok (new, es)
      → Reach codec new (old ++ es)

init-WithinCap : (owner : Text) (c : Change) → init owner ≡ ok c → WithinCap c.0
unfolding init active_items max_active
init-WithinCap owner c h = ground arith

module _ (codec : Codec) where
  seal-WithinCap :
      (c : Change) (ctx : Context) (new : State) (es : List Event)
      → seal codec c.0 c.1 ctx ≡ ok (new, es)
      → WithinCap c.0
      → WithinCap new
  seal-WithinCap c ctx new es h w =
      let (stamped, committed, valid) = seal-eq-ok codec c.0 c.1 ctx h in
      rw committed (unfold sealed_state in unfold max_active in w)

  Reach-WithinCap : (s : State) (es : List Event) → Reach codec s es → WithinCap s
  Reach-WithinCap s es (founded owner c ctx new more made h) =
      seal-WithinCap c ctx s more h (init-WithinCap owner c made)
  Reach-WithinCap s es (stepped t old r c ctx new more before made h) =
      seal-WithinCap c ctx s more h
        (perform-WithinCap codec.sha256 t r c made (Reach-WithinCap t old before))

  Reach-validate : (s : State) (es : List Event) → Reach codec s es → validate s ≡ ok tt
  Reach-validate s es (founded owner c ctx new more made h) =
      let (stamped, committed, valid) = seal-eq-ok codec c.0 c.1 ctx h in valid
  Reach-validate s es (stepped t old r c ctx new more before made h) =
      let (stamped, committed, valid) = seal-eq-ok codec c.0 c.1 ctx h in valid

  chain_founded : (owner : Text) (c : Change) → init owner ≡ ok c → chain codec [] c.0 ≡ ok []
  unfolding init chain walk
  chain_founded owner c h = ground arith

  module _ (hex : (t : Text) → is_hex (codec.sha256 t) ≡ true) where
    -- The log that holds the events as they were committed.
    Reach-chain :
        (s : State) (es : List Event)
        → Reach codec s es
        → NoCollision codec (map shaped es)
        → chain codec (map shaped es) s ≡ ok es
    Reach-chain s es (founded owner c ctx new more made h) once =
        chain-seal codec hex (map shaped es) c.0 c.1 ctx once (In-self es)
          (chain-append codec [] (map shaped es) c.0 once (chain_founded owner c made)) h
    Reach-chain s es (stepped t old r c ctx new more before made h) once =
        let split = map-append shaped old more in
        let whole : NoCollision codec (map shaped old ++ map shaped more) = rw (← split) once in
        let earlier : chain codec (map shaped old ++ map shaped more) c.0 ≡ ok old =
          chain-of_history codec _ t c.0 (perform-history codec.sha256 t r c made)
          ∙ chain-append codec (map shaped old) (map shaped more) t whole
              (Reach-chain t old before (NoCollision-append_left codec _ _ whole)) in
        rw split (
          chain-seal codec hex (map shaped old ++ map shaped more) c.0 c.1 ctx whole
            (All-map (λ e i. In-append_right e (map shaped old) (map shaped more) i) more
              (In-self more))
            earlier h)

    within : (s : State) → WithinCap s → validate s ≡ ok tt → running s.items ≤ 5
    unfolding max_active
    within s w v = let cap = (validate-IsValid s v).cap in ground arith

    -- In every queue that is reached, at most five items are active, the state is a valid one, and
    -- a log of the committed events, no two of which share a hash, reads back as exactly these.
    pub Reach-sound :
        (s : State) (es : List Event)
        → Reach codec s es
        → NoCollision codec (map shaped es)
        → (length (active_items s.items) ≤ 5)
          × (validate s ≡ ok tt)
          × (chain codec (map shaped es) s ≡ ok es)
    Reach-sound s es r once =
        let valid = Reach-validate s es r in
        (within s (Reach-WithinCap s es r) valid, valid, Reach-chain s es r once)
