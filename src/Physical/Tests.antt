-- ===== src/Physical/Tests.antt =====
-- A plan for SELECT grouped by a column with a LIMIT, its exchanges, its stages and their run.
use distributed_sql.Prelude.{◌≡◌, refl, List, [], ◌∷◌, ◌++◌, map, flatten, All, lookup, some, ok}
use distributed_sql.Common.Protocol
use distributed_sql.Common.Protocol.{StageState}
use distributed_sql.Planner.Expressions
use distributed_sql.Planner.Expressions.{Expressions, nil, cons}
use distributed_sql.Planner.Logical.{Plan, scan, aggregate, limit, exchange}
use distributed_sql.Planner.Sample.{small, NoScalar, type_of}
use distributed_sql.Physical.{by_node, exchanged, materialize_exchanges}
use distributed_sql.Physical.Exchanges.Inputs.{erased, oriented, IsPlaced}
use distributed_sql.Physical.Exchanges.{materialize_exchanges-erased}
use distributed_sql.Physical.Stages.{Stage, plan_stages, stage_name}
use distributed_sql.Physical.Stages.Precede.{IsOrdered, AllDiffer, ids}
use distributed_sql.Physical.Stages.Cut.{place, places_of, IsNew, plan_stages-IsOrdered}
use distributed_sql.Scheduler.Stages.{RunState, complete, all_succeeded, run_graph}
use distributed_sql.Scheduler.Stages.Progress.{run_graph-plan_stages}

abbrev keys : Expressions NoScalar
keys = cons (Expressions.column "city" "people" (type_of Protocol.string)) nil

abbrev counted : Plan NoScalar
counted = limit "limit" (aggregate "aggregate" (scan "scan" "people" "people" []) keys [] []) 10 []

abbrev physical : Plan NoScalar
physical =
    limit "limit"
      (exchange "exchange_aggregate_limit"
        (aggregate "aggregate"
          (exchange "exchange_scan_aggregate" (scan "scan" "people" "people" []) Protocol.hash keys
            4 [])
          keys [] [])
        Protocol.single nil 1 [])
      10 []

materialized : materialize_exchanges small [] 4 counted ≡ ok physical
unfolding materialize_exchanges exchanged
materialized = refl

materialize_exchanges-erased_example :
    (erased physical ≡ oriented (by_node [] []) counted) × IsPlaced small 4 physical
materialize_exchanges-erased_example =
    materialize_exchanges-erased small [] 4 counted tt materialized

plan_stages-IsOrdered_example :
    (earlier : List Stage) × (root : Stage) × ((plan_stages "q" small physical 1).1.stages
      ≡ earlier ++ root ∷ [])
    × (root.stage_id ≡ (plan_stages "q" small physical 1).0)
    × (root.partition_count ≡ 1)
    × IsOrdered [] (plan_stages "q" small physical 1).1.stages
    × AllDiffer (ids (plan_stages "q" small physical 1).1.stages)
    × (map place (plan_stages "q" small physical 1).1.tasks
        ≡ flatten (map places_of (plan_stages "q" small physical 1).1.stages))
    × All (IsNew "q") (plan_stages "q" small physical 1).1.tasks
plan_stages-IsOrdered_example = plan_stages-IsOrdered "q" small physical 1

run_graph-plan_stages_example :
    (end : RunState) × (run_graph (λ id. all_succeeded) (plan_stages "q" small physical 1).1.stages
      ≡ complete end)
    × (end.remaining ≡ [])
    × All
        (λ stage. lookup stage.stage_id end.states ≡ some StageState.succeeded)
        (plan_stages "q" small physical 1).1.stages
run_graph-plan_stages_example =
    run_graph-plan_stages small "q" physical 1 (λ id. all_succeeded) (λ id. refl)

stage_order :
    ids (plan_stages "q" small physical 1).1.stages
    ≡ "q-stage-002" ∷ "q-stage-001" ∷ "q-stage-000" ∷ []
unfolding plan_stages stage_name
stage_order = refl
