-- ===== src/Store/Commit.antt =====
-- tools/queue_store.py, `commit`: load, change, seal, check, append, then compare and swap.
use agent_engineering_standa.Base.{
  Bool, true, false, Option, none, some, List, ok, err, ◌>>=◌, ◌>>◌,
}
use agent_engineering_standa.Queue.Types.{State, Context, Event, Outcome, queue_exists, no_queue}
use agent_engineering_standa.Queue.Edit.{Change}
use agent_engineering_standa.Queue.History.{Codec, seal}
use agent_engineering_standa.Store.Memory.{Memory, Token, load, save, append, check}

-- The tests on what was loaded.
unfoldable pub check_loaded : Bool → Option State → Outcome (Unit {0})
check_loaded true (some s) = err queue_exists
check_loaded true none = ok tt
check_loaded false (some s) = ok tt
check_loaded false none = err no_queue

-- What a writer holds once it has read and checked, before it writes.
pub record Write : Type 0 where
  pub new : State
  pub sealed : List Event
  pub token : Token

module _ (codec : Codec) (create : Bool) (change : Option State → Outcome Change)
    (ctx : Context) where
  -- The part of `commit` that writes nothing, on what `load` returned.
  unfoldable pub prepared : Memory → Option State → Token → Outcome Write
  prepared m state token = do
    check_loaded create state
    changed ← change state
    result ← seal codec changed.0 changed.1 ctx
    check codec m result.0
    ok (record { new = result.0; sealed = result.1; token = token })

  unfoldable pub prepare : Memory → Outcome Write
  prepare m = let (state, token) = load m in prepared m state token

abbrev settled : Memory → Write → Outcome Memory → Memory × Outcome State
settled m w (ok m') = (m', ok w.new)
settled m w (err e) = (m, err e)

-- The end of `commit`: the store that is left, whether the swap was made or lost.
unfoldable pub swap : Memory → Write → Memory × Outcome State
swap m w = settled m w (save m w.new w.token)

-- What was appended stays when the swap is lost.
unfoldable pub written : Memory → Outcome Write → Memory × Outcome State
written m (ok w) = swap (append m w.sealed) w
written m (err e) = (m, err e)

module _ (codec : Codec) (create : Bool) (change : Option State → Outcome Change)
    (ctx : Context) where
  -- `commit` with no other writer in between.
  unfoldable pub commit : Memory → Memory × Outcome State
  unfolding written
  commit m = written m (prepare codec create change ctx m)

-- `lambda s: core.op_..(s, ..)`, which `commit` calls on the state that it loaded.
unfoldable pub on_state :
    {A : Type 0} → (State → A → Outcome Change) → A → Option State → Outcome Change
on_state op a none = err no_queue
on_state op a (some s) = op s a
