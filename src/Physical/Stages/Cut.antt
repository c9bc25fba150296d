-- ===== src/Physical/Stages/Cut.antt =====
-- What `StagePlanner.plan` gives: the stages, their order and their identities, and their tasks.
use distributed_sql.Common.Protocol
use distributed_sql.Common.Protocol.{Task}
use distributed_sql.Prelude.{
  ℕ, zero, suc, ◌≡◌, refl, sym, ap, ◌∙◌, subst, String, List, [], ◌∷◌, ◌++◌, map, map-append,
  flatten, All, All-append,
}
use mathlib.Core.Path.{ap₂}
use distributed_sql.Planner.Values.{Python}
use distributed_sql.Planner.Logical.{Plan}
use distributed_sql.Physical.Stages.{Stage, stage_name, stage_tasks, plan_stages}
use distributed_sql.Physical.Stages.Precede.{ids, IsOrdered, AllDiffer, AllDiffer-map, ordinals}
use distributed_sql.Physical.Stages.Names.{stage_name_injective}
use distributed_sql.Physical.Stages.Order.{tasks_of, cut_stages}

-- The stage of a task, and the ordinal of its partition.
abbrev pub place : Task → String × ℕ
place task = (task.stage_id, task.partition.ordinal)

-- One place for each partition of a stage.
abbrev pub places_of : Stage → List (String × ℕ)
places_of stage = map (λ ordinal. (stage.stage_id, ordinal)) (ordinals 0 stage.partition_count)

module _ (query_id : String) where
  -- A task before its first attempt.
  pub record IsNew (task : Task) : Type 0 where
    pub of_query : task.query_id ≡ query_id
    pub pending : task.state ≡ Protocol.TaskState.pending
    pub untried : task.attempt_ids ≡ []

  stage_tasks-places :
      (stage_id : String) (from n : ℕ)
      → map place (stage_tasks query_id stage_id from n)
        ≡ map (λ ordinal. (stage_id, ordinal)) (ordinals from n)
  unfolding stage_tasks
  stage_tasks-places stage_id from zero = refl
  stage_tasks-places stage_id from (suc n) =
      ap (λ l. (stage_id, from) ∷ l) (stage_tasks-places stage_id (suc from) n)

  stage_tasks-IsNew :
      (stage_id : String) (from n : ℕ) → All IsNew (stage_tasks query_id stage_id from n)
  unfolding stage_tasks
  stage_tasks-IsNew stage_id from zero = tt
  stage_tasks-IsNew stage_id from (suc n) = (
    record { of_query = refl; pending = refl; untried = refl },
    stage_tasks-IsNew stage_id (suc from) n,
  )

  tasks-places :
      (stages : List Stage)
      → map place (flatten (map (tasks_of query_id) stages)) ≡ flatten (map places_of stages)
  tasks-places [] = refl
  tasks-places (stage ∷ stages) =
      map-append place (tasks_of query_id stage) (flatten (map (tasks_of query_id) stages))
      ∙ ap₂ ◌++◌ (stage_tasks-places stage.stage_id 0 stage.partition_count) (tasks-places stages)

  tasks-IsNew : (stages : List Stage) → All IsNew (flatten (map (tasks_of query_id) stages))
  tasks-IsNew [] = tt
  tasks-IsNew (stage ∷ stages) =
      All-append IsNew (tasks_of query_id stage) (flatten (map (tasks_of query_id) stages))
        (stage_tasks-IsNew stage.stage_id 0 stage.partition_count) (tasks-IsNew stages)

  -- The stages of a plan have different identities. Each depends only on stages that stand before it,
  -- and the root stage is the last one, with the partitions asked for. The tasks are, stage by stage,
  -- one for each ordinal below the stage's number of partitions, all of the query, PENDING and without
  -- attempts.
  pub plan_stages-IsOrdered :
      {O : Type 0} (py : Python O) (plan : Plan O) (root_partition_count : ℕ)
      → let planned = plan_stages query_id py plan root_partition_count in
        (earlier : List Stage) × (root : Stage) × (planned.1.stages ≡ earlier ++ root ∷ [])
        × (root.stage_id ≡ planned.0)
        × (root.partition_count ≡ root_partition_count)
        × IsOrdered [] planned.1.stages
        × AllDiffer (ids planned.1.stages)
        × (map place planned.1.tasks ≡ flatten (map places_of planned.1.stages))
        × All IsNew planned.1.tasks
  plan_stages-IsOrdered py plan root_partition_count =
      let (earlier, root, numbers, last, named, count, ordered, names, differ, tasks) =
        cut_stages query_id py plan root_partition_count in
      let stages = (plan_stages query_id py plan root_partition_count).1.stages in
      (
        earlier,
        root,
        last,
        named,
        count,
        ordered,
        subst AllDiffer (sym names)
            (AllDiffer-map (stage_name query_id) (stage_name_injective query_id) numbers differ),
        ap (map place) tasks ∙ tasks-places stages,
        subst (All IsNew) (sym tasks) (tasks-IsNew stages),
      )
