-- ===== src/Physical/Stages.antt =====
-- `StagePlanner`. A partition count is positive: an Exchange asserts it, and `plan` is called with a
-- positive one.
pub mod Precede
pub mod Names
pub mod Order
pub mod Cut
use distributed_sql.Prelude.{
  ℕ, zero, suc, ◌+◌, ◌-◌, String, List, [], ◌∷◌, ◌++◌, Dict, insert, str_concat,
}
use Prim.Native.String.{count}
use distributed_sql.Common.Protocol
use distributed_sql.Common.Protocol.{PlanNodeType, StageState, Task}
use distributed_sql.Planner.Values.{Python, decimal_digits}
use distributed_sql.Planner.Logical.{
  Plan, PlanNode, Json, Schema, scan, project, filter, aggregate, join, limit, order, window,
  grouping_sets, exchange, properties_of,
}
use distributed_sql.Planner.Logical

pub record Stage : Type 0 where
  pub stage_id : String
  pub query_id : String
  pub state : StageState
  pub plan : PlanNode
  pub dependency_stage_ids : List String
  pub partition_count : ℕ

-- The attributes of a `StagePlanner` that change.
pub record PlannerState : Type 0 where
  pub next_stage : ℕ
  pub stages : List Stage
  pub tasks : List Task

-- What `fragment` gives, with the dependencies of the stage that it is part of.
pub record Fragment : Type 0 where
  pub node : PlanNode
  pub dependencies : List String
  pub planner : PlannerState

abbrev pub zeros : ℕ → String
zeros zero = ""
zeros (suc n) = str_concat ("0" ∷ zeros n ∷ [])

-- `f"{n:0{width}d}"`
abbrev pub padded : ℕ → ℕ → String
padded width n =
    let digits = decimal_digits (suc n) n in str_concat (zeros (width - count digits) ∷ digits ∷ [])

unfoldable pub stage_name : String → ℕ → String
unfolding decimal_digits
stage_name query_id number = str_concat (query_id ∷ "-stage-" ∷ padded 3 number ∷ [])

abbrev pub at_start : PlannerState
at_start = record { next_stage = 0; stages = []; tasks = [] }

module _ (query_id : String) where
  unfoldable pub stage_task : String → ℕ → Task
  unfolding decimal_digits
  stage_task stage_id ordinal = record {
    task_id = str_concat (stage_id ∷ "-task-" ∷ padded 5 ordinal ∷ []);
    query_id = query_id;
    stage_id = stage_id;
    partition = record {
      partition_id = str_concat (stage_id ∷ "-partition-" ∷ padded 5 ordinal ∷ []);
      ordinal = ordinal;
      location = "";
      strategy = Protocol.unknown;
    };
    state = Protocol.TaskState.pending;
    attempt_ids = [];
  }

  -- The loop over `range(partition_count)`, from an ordinal on.
  unfoldable pub stage_tasks : String → ℕ → ℕ → List Task
  unfolding stage_task
  stage_tasks stage_id ordinal zero = []
  stage_tasks stage_id ordinal (suc n) =
      stage_task stage_id ordinal ∷ stage_tasks stage_id (suc ordinal) n

  abbrev pub stage_of : ℕ → ℕ → Fragment → Stage
  stage_of number partition_count fragment = record {
    stage_id = stage_name query_id number;
    query_id = query_id;
    state = Protocol.StageState.pending;
    plan = fragment.node;
    dependency_stage_ids = fragment.dependencies;
    partition_count = partition_count;
  }

  abbrev pub begun : PlannerState → PlannerState
  begun st = record st { next_stage = suc st.next_stage }

  -- `_split`, once its fragment is made.
  unfoldable pub close_stage : ℕ → ℕ → Fragment → PlannerState
  unfolding stage_tasks
  close_stage number partition_count fragment = record fragment.planner {
    stages = fragment.planner.stages ++ stage_of number partition_count fragment ∷ [];
    tasks = fragment.planner.tasks ++ stage_tasks (stage_name query_id number) 0 partition_count;
  }

  abbrev pub with_child : (PlanNode → PlanNode) → Fragment → Fragment
  with_child make child = record child { node = make child.node }

  module _ {O : Type 0} (py : Python O) where
    unfoldable pub fragment : Plan O → List String → PlannerState → Fragment
    unfolding properties_of close_stage
    fragment (scan id table_name alias schema) dependencies st = record {
      node =
          Logical.leaf id Protocol.scan schema (properties_of py (scan id table_name alias schema));
      dependencies = dependencies;
      planner = st;
    }
    fragment (project id input expressions schema) dependencies st =
        with_child
          (λ node.
            Logical.unary id Protocol.project schema node
              (properties_of py (project id input expressions schema)))
          (fragment input dependencies st)
    fragment (filter id input predicate schema phase) dependencies st =
        with_child
          (λ node.
            Logical.unary id Protocol.filter schema node
              (properties_of py (filter id input predicate schema phase)))
          (fragment input dependencies st)
    fragment (aggregate id input group_by aggregates schema) dependencies st =
        with_child
          (λ node.
            Logical.unary id Protocol.aggregate schema node
              (properties_of py (aggregate id input group_by aggregates schema)))
          (fragment input dependencies st)
    fragment (join id l r join_type condition schema input_limit build_side) dependencies st =
        let first = fragment l dependencies st in
        with_child
          (λ node.
            Logical.binary id Protocol.join schema first.node node
              (properties_of py (join id l r join_type condition schema input_limit build_side)))
          (fragment r first.dependencies first.planner)
    fragment (limit id input count schema) dependencies st =
        with_child
          (λ node.
            Logical.unary id Protocol.limit schema node
              (properties_of py (limit id input count schema)))
          (fragment input dependencies st)
    fragment (order id input order_by schema) dependencies st =
        with_child
          (λ node.
            Logical.unary id Protocol.order schema node
              (properties_of py (order id input order_by schema)))
          (fragment input dependencies st)
    fragment (window id input expressions schema) dependencies st =
        with_child
          (λ node.
            Logical.unary id Protocol.window schema node
              (properties_of py (window id input expressions schema)))
          (fragment input dependencies st)
    fragment (grouping_sets id input sets aggregates schema) dependencies st =
        with_child
          (λ node.
            Logical.unary id Protocol.grouping_sets schema node
              (properties_of py (grouping_sets id input sets aggregates schema)))
          (fragment input dependencies st)
    fragment (exchange id input strategy keys count schema) dependencies st =
        let source_stage = stage_name query_id st.next_stage in
        record {
          node = Logical.leaf id Protocol.exchange schema (
              insert "source_stage_id" (Logical.text source_stage)
                (properties_of py (exchange id input strategy keys count schema)));
          dependencies = dependencies ++ source_stage ∷ [];
          planner = close_stage st.next_stage count (fragment input [] (begun st));
        }

    -- `plan`: the identity of the root stage, and what was gathered.
    unfoldable pub plan_stages : Plan O → ℕ → String × PlannerState
    unfolding fragment
    plan_stages plan root_partition_count = (
      stage_name query_id 0,
      close_stage 0 root_partition_count (fragment plan [] (begun at_start)),
    )
