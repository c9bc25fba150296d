-- ===== src/Coordinator/Queries/Tests.antt =====
-- A query that runs to its end, and the pages of its result.
use distributed_sql.Prelude.{ℕ, ◌≡◌, refl, false, none, some, [], ◌∷◌, ok, arith}
use distributed_sql.Common.Protocol.{Query, queued, succeeded}
use distributed_sql.Coordinator.Queries.{
  QueryRecord, Execution, done, start, after_listing, after_planning, after_execution,
  request_cancel, Phase,
}
use distributed_sql.Coordinator.Queries.Life.{
  starts, lists, plans, executes, requests, Reach, here, next,
}
use distributed_sql.Coordinator.Queries.Final.{done_is_final, Fate, at_once, after}
use distributed_sql.Coordinator.Queries.Paging.{read_on, read_on-rows}

abbrev Small : Type 0
Small = QueryRecord ℕ ℕ ℕ ℕ

abbrev query : Query
query = record {
  query_id = "q";
  sql = "SELECT 1";
  state = queued;
  created_at = 1;
  updated_at = 1;
  error = none;
}

abbrev submitted : QueryRecord ℕ ℕ ℕ ℕ
submitted = record {
  query = query;
  plan = none;
  rows = none;
  columns = none;
  diagnostics = none;
  advisor = none;
  has_executor = false;
  cancel_requested = false;
}

abbrev execution : Execution ℕ ℕ ℕ ℕ
execution = record { column_names = "n" ∷ []; table = 5 ∷ 6 ∷ 7 ∷ []; diagnostics = 0; advice = 0 }

abbrev finished : QueryRecord ℕ ℕ ℕ ℕ
finished = record submitted {
  query = record query { state = succeeded; updated_at = 5 };
  plan = some 9;
  rows = some (5 ∷ 6 ∷ 7 ∷ []);
  columns = some ("n" ∷ []);
  diagnostics = some 0;
  advisor = some 0;
}

finished-Reach : Reach submitted (done, finished)
unfolding start after_listing after_planning after_execution
finished-Reach =
    next (next (next (next here (starts 2 submitted)) (lists 3 _ (ok 1))) (plans 4 _ (ok 9)))
      (executes 5 _ (ok execution))

done_is_final_example : ◌≡◌ {A = Phase} done done × Fate finished (request_cancel finished)
done_is_final_example = done_is_final refl finished-Reach (after at_once (requests done finished))

read_on-rows_example : read_on finished 2 4 0 ≡ ok (5 ∷ 6 ∷ 7 ∷ [])
read_on-rows_example = read_on-rows finished (5 ∷ 6 ∷ 7 ∷ []) 2 refl refl (omega arith)
