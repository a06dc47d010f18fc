-- ===== src/Tests/Ticks.antt =====
-- Runs of the orchestrator, and witnesses for the theorem on it.
use agent_engineering_standa.Base.{◌≡◌, ◌↔◌, refl, true, false, [], ok, pos}
use agent_engineering_standa.Plain.{
  Value, dict, bare, get_or, fields_of, int_of, truthy, show, show_or_empty,
}
use agent_engineering_standa.Orchestrator.Types.{Tick, next_up}
use agent_engineering_standa.Orchestrator.Decide.{
  ticked, applied, excerpt, next, advance, normalize,
}
use agent_engineering_standa.Orchestrator.Next.{IsDispatch, ticked_iff}
use agent_engineering_standa.Tests.Leases.{python}

-- What an empty tick is normalized to.
abbrev quiet : Tick
quiet = record {
  slice = [];
  milestone = [];
  duplicate_dispatch = false;
  crashed = false;
  second_worker = false;
  head_moved = false;
  ready_work = false;
  held = false;
  provider_healthy = true;
  budget_left = pos 1;
  deadlocked = false;
  deadlock_cycle = [];
  review_repair = false;
  merged_pending_cleanup = false;
  milestone_complete = false;
  action = [];
}

abbrev nothing_given : Value
nothing_given = dict bare

ticked_iff_example : ((ticked quiet).outcome.verdict ≡ next_up) ↔ IsDispatch quiet
ticked_iff_example = ticked_iff quiet

next_quiet : next python nothing_given ≡ ok (ticked quiet)
unfolding next normalize get_or fields_of int_of truthy show show_or_empty
next_quiet = refl

quiet_held : advance python nothing_given false ≡ ok (applied false (excerpt quiet) (ticked quiet))
unfolding advance normalize get_or fields_of int_of truthy show show_or_empty
quiet_held = refl
