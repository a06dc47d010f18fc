-- ===== src/Tests/Drains.antt =====
-- A queue that is worked to its end.
use agent_engineering_standa.Base.{[], ◌∷◌}
use agent_engineering_standa.Queue.Types.{State}
use agent_engineering_standa.Tests.Data.{queue, second_item}

abbrev waiting : State
waiting = record queue { items = second_item ∷ [] }
