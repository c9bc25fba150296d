-- ===== src/Scheduler/Stages.antt =====
-- The loop of `TaskScheduler.run` over the stages of a graph. How the Tasks of a stage
-- end is a parameter: Scheduler models one of them.
pub mod Ready
pub mod Rounds
pub mod Copies
pub mod Progress
use distributed_sql.Prelude.{
  ℕ, zero, suc, String, Bool, true, false, not, ◌&&◌, Option, none, some, List, [], ◌∷◌, ◌++◌, Dict,
  lookup, insert, values, str_eq, str_elem, str_leb, keep, length, map, sorted_by, if◌then◌else◌,
}
use distributed_sql.Common.Protocol
use distributed_sql.Common.Protocol.{StageState}
use distributed_sql.Physical.Stages.{Stage}

-- How `asyncio.gather` over the Tasks of a stage ends: `cancelled` is an ExecutionCancelled that is
-- confirmed. The token may be cancelled before.
pub data StageEnding : Type 0 where
  all_succeeded cancelled_before cancelled task_failed : StageEnding

-- The states of the stages, `remaining`, and the stages whose outcomes are there, in their order.
pub record RunState : Type 0 where
  pub states : Dict StageState
  pub remaining : List String
  pub outcomes : List String

-- How `run` ends: with all stages, with a ScheduleResult after a cancellation, with the exception
-- of a Task, with "Stage DAG has a cycle or failed dependency", or with a KeyError.
pub data RunEnding : Type 0 where
  complete : RunState → RunEnding
  stopped : RunState → RunEnding
  failed : RunState → RunEnding
  no_stage_ready : RunState → RunEnding
  unknown_dependency : RunEnding
  out_of_fuel : RunEnding

abbrev is_succeeded : StageState → Bool
is_succeeded StageState.succeeded = true
is_succeeded _ = false

abbrev pub and_later : Option StageState → Option Bool → Option Bool
and_later none later = none
and_later (some state) later = if is_succeeded state then later else some false

-- `all(stages[dependency].state is StageState.SUCCEEDED ...)`; `none` stands for the KeyError.
unfoldable pub dependencies_succeeded : Dict StageState → List String → Option Bool
dependencies_succeeded states [] = some true
dependencies_succeeded states (d ∷ dependencies) =
    and_later (lookup d states) (dependencies_succeeded states dependencies)

abbrev pub with_stage : Stage → Option Bool → Option (List Stage) → Option (List Stage)
with_stage stage none rest = none
with_stage stage (some false) rest = rest
with_stage stage (some true) none = none
with_stage stage (some true) (some rest) = some (stage ∷ rest)

unfoldable pub ready_stages : RunState → List Stage → Option (List Stage)
unfolding dependencies_succeeded
ready_stages st [] = some []
ready_stages st (stage ∷ stages) =
    let rest = ready_stages st stages in
    with_stage stage
      (if str_elem stage.stage_id st.remaining
        then dependencies_succeeded st.states stage.dependency_stage_ids
        else some false)
      rest

abbrev pub before : Stage → Stage → Bool
before a b = str_leb a.stage_id b.stage_id

-- The pending stages are cancelled.
unfoldable pub cancel_pending : Dict StageState → Dict StageState
cancel_pending [] = []
cancel_pending ((id, StageState.pending) ∷ states) =
    (id, StageState.canceled) ∷ cancel_pending states
cancel_pending ((id, state) ∷ states) = (id, state) ∷ cancel_pending states

abbrev pub mark_stage : String → StageState → RunState → RunState
mark_stage id state st = record st { states = insert id state st.states }

-- After the Tasks of a stage have succeeded.
abbrev pub stage_done : String → RunState → RunState
stage_done id st = record {
  states = insert id StageState.succeeded (insert id StageState.running st.states);
  remaining = keep (λ other. not (str_eq other id)) st.remaining;
  outcomes = st.outcomes ++ id ∷ [];
}

unfoldable pub stop : RunState → RunEnding
unfolding cancel_pending
stop st = stopped (record st { states = cancel_pending st.states })

unfoldable pub after_tasks : String → RunState → RunEnding → StageEnding → RunEnding
unfolding stop
after_tasks id st later all_succeeded = later
after_tasks id st later cancelled_before = stop st
after_tasks id st later cancelled = stop (mark_stage id StageState.canceled st)
after_tasks id st later task_failed = failed (mark_stage id StageState.failed st)

abbrev pub while_remaining : List String → RunEnding → RunEnding → RunEnding
while_remaining [] done later = done
while_remaining (id ∷ ids) done later = later

module _ (ending : String → StageEnding) where
  -- The inner loop, over the stages that are ready, and what follows it.
  unfoldable pub run_ready : (RunState → RunEnding) → List Stage → RunState → RunEnding
  unfolding after_tasks
  run_ready next [] st = next st
  run_ready next (stage ∷ stages) st =
      after_tasks stage.stage_id st (run_ready next stages (stage_done stage.stage_id st))
        (ending stage.stage_id)

  abbrev pub run_round : (RunState → RunEnding) → RunState → Option (List Stage) → RunEnding
  run_round next st none = unknown_dependency
  run_round next st (some []) = no_stage_ready st
  run_round next st (some (stage ∷ stages)) = run_ready next (sorted_by before (stage ∷ stages)) st

  -- `while remaining`; a round takes one unit of fuel.
  unfoldable pub run_stages : ℕ → List Stage → RunState → RunEnding
  unfolding ready_stages run_ready
  run_stages zero stages st = while_remaining st.remaining (complete st) out_of_fuel
  run_stages (suc fuel) stages st =
      while_remaining st.remaining (complete st)
        (run_round (λ st'. run_stages fuel stages st') st (ready_stages st stages))

-- `set(stages)`, and the states of the copies.
abbrev pub run_start : List Stage → RunState
run_start [] = record { states = []; remaining = []; outcomes = [] }
run_start (stage ∷ stages) =
    let rest = run_start stages in
    record rest {
      states = (stage.stage_id, stage.state) ∷ rest.states;
      remaining = stage.stage_id ∷ rest.remaining;
    }

-- `{item.stage_id: item.model_copy(deep=True) for item in graph.stages}`, from a dictionary on.
unfoldable pub stage_dict : List Stage → Dict Stage → Dict Stage
stage_dict [] stages = stages
stage_dict (stage ∷ rest) stages = stage_dict rest (insert stage.stage_id stage stages)

unfoldable pub run_graph : (String → StageEnding) → List Stage → RunEnding
unfolding run_stages stage_dict
run_graph ending stages =
    let copies = values (stage_dict stages []) in
    run_stages ending (length copies) copies (run_start copies)
