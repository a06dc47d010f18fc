-- ===== src/Store/Memory.antt =====
-- tools/queue_store.py, `_check_state_size` and `MemoryAdapter`.
use agent_engineering_standa.Base.{
  ℕ, suc, Bool, true, false, Option, none, some, List, ◌++◌, map, ltb, ◌==◌, ok, refuse, guard,
  ◌>>◌,
}
use agent_engineering_standa.Queue.Types.{
  State, Event, Entry, shaped, Outcome, over_budget, conflict,
}
use agent_engineering_standa.Queue.History.{Codec}

pub record Memory : Type 0 where
  pub limit : ℕ
  pub state : Option State
  pub version : ℕ
  pub log : List Entry

-- The version that was read; `none` if there was no queue.
abbrev pub Token : Type 0
Token = Option ℕ

abbrev pub token_of : Option State → ℕ → Token
token_of none version = none
token_of (some s) version = some version

unfoldable pub load : Memory → Option State × Token
load m = (m.state, token_of m.state m.version)

-- `token != current`
unfoldable pub same_token : Token → Token → Bool
same_token none none = true
same_token (some a) (some b) = a == b
same_token _ _ = false

abbrev pub saved : Memory → State → Memory
saved m new = record m { state = some new; version = suc m.version }

unfoldable pub save : Memory → State → Token → Outcome Memory
save m new token = do
  guard (same_token token (token_of m.state m.version)) conflict
  ok (saved m new)

unfoldable pub append : Memory → List Event → Memory
append m events = record m { log = m.log ++ map shaped events }

module _ (codec : Codec) where
  -- `_check_state_size`
  unfoldable pub check : Memory → State → Outcome (Unit {0})
  check m new = refuse (ltb m.limit (codec.size new)) (over_budget (codec.size new))
