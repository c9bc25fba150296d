-- ===== src/Operators/Batches.antt =====
-- `_batches_from_rows`, and the operators that read and yield batch by batch: filter, project,
-- limit and order. `fit` stands for `RecordBatch.from_pylist` under the operator's schema, followed
-- by `to_pylist`, on one row. A batch size is positive: `ExecutionContext` asserts it.
pub mod Rows
use distributed_sql.Prelude.{
  ℕ, zero, suc, ◌+◌, ◌-◌, ◌==◌, String, Bool, true, false, List, [], ◌∷◌, ◌++◌, map, length, take,
  drop, insert, leb, ltb, Result, ok, err, ◌>>=◌, if◌then◌else◌,
}
use distributed_sql.Planner.Types.{Raised, value_error}
use distributed_sql.Planner.Values.{SqlValue, Python, is_true}
use distributed_sql.Planner.Expressions.{Expression}
use distributed_sql.Planner.Evaluate.{Row, evaluate}

-- `__post_init__` of `ExecutionContext`.
unfoldable pub context_is_valid : ℕ → ℕ → Bool
context_is_valid batch_size memory_limit_bytes =
    if ltb batch_size 1 then false else ltb 0 memory_limit_bytes

module _ {R : Type 0} (fit : R → R) where
  -- The slices from each offset on; there are at most as many as there are rows.
  unfoldable pub slices : ℕ → ℕ → List R → List (List R)
  slices zero batch_size rows = []
  slices (suc fuel) batch_size [] = []
  slices (suc fuel) batch_size (row ∷ rows) =
      map fit (take batch_size (row ∷ rows)) ∷ slices fuel batch_size (drop batch_size (row ∷ rows))

  unfoldable pub batches_from_rows : ℕ → List R → List (List R)
  unfolding slices
  batches_from_rows batch_size rows = slices (length rows) batch_size rows

  -- The loop of `OrderOperator.execute` over the sorted rows, with `output_rows`.
  unfoldable pub order_batches : ℕ → List R → List R → List (List R)
  unfolding batches_from_rows
  order_batches batch_size output_rows [] = batches_from_rows batch_size output_rows
  order_batches batch_size output_rows (row ∷ rows) =
      let gathered = output_rows ++ row ∷ [] in
      if ltb (length gathered) batch_size
      then order_batches batch_size gathered rows
      else map fit gathered ∷ order_batches batch_size [] rows

module _ {R : Type 0} where
  -- `LimitOperator.execute`: once nothing remains, no further batch is asked for. A negative count
  -- is refused where the operator is made.
  unfoldable pub limit_batches : ℕ → List (List R) → List (List R)
  limit_batches zero batches = []
  limit_batches (suc n) [] = []
  limit_batches (suc n) (batch ∷ batches) =
      let output = take (suc n) batch in
      let later = limit_batches (suc n - length output) batches in
      if length output == 0 then later else output ∷ later

module _ {O : Type 0} (py : Python O) (fit : Row O → Row O) where
  -- The rows of a batch for which the predicate is True.
  unfoldable pub filter_rows : Expression O → List (Row O) → Result Raised (List (Row O))
  filter_rows predicate [] = ok []
  filter_rows predicate (row ∷ rows) = do
    value ← evaluate py predicate row
    rest ← filter_rows predicate rows
    ok (if is_true value then row ∷ rest else rest)

  unfoldable pub filter_batches :
      ℕ → Expression O → List (List (Row O)) → Result Raised (List (List (Row O)))
  unfolding filter_rows batches_from_rows
  filter_batches batch_size predicate [] = ok []
  filter_batches batch_size predicate (batch ∷ batches) = do
    rows ← filter_rows predicate batch
    later ← filter_batches batch_size predicate batches
    ok (batches_from_rows fit batch_size rows ++ later)

  -- `{item.name: item.expression.evaluate(row) for item in expressions}`
  unfoldable pub project_row : List (String × Expression O) → Row O → Row O → Result Raised (Row O)
  project_row [] row found = ok found
  project_row ((name, e) ∷ items) row found = do
    value ← evaluate py e row
    project_row items row (insert name value found)

  unfoldable pub project_rows :
      List (String × Expression O) → List (Row O) → Result Raised (List (Row O))
  unfolding project_row
  project_rows items [] = ok []
  project_rows items (row ∷ rows) = do
    projected ← project_row items row []
    rest ← project_rows items rows
    ok (projected ∷ rest)

  unfoldable pub project_batches :
      ℕ → List (String × Expression O) → List (List (Row O)) → Result Raised (List (List (Row O)))
  unfolding project_rows batches_from_rows
  project_batches batch_size items [] = ok []
  project_batches batch_size items (batch ∷ batches) = do
    rows ← project_rows items batch
    later ← project_batches batch_size items batches
    ok (batches_from_rows fit batch_size rows ++ later)
