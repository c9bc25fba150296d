-- ===== src/Operators/Aggregates/Rows.antt =====
-- The rows and batches of HashAggregateOperator and GroupingSetsOperator. `names` are the SQL texts of
-- the grouping expressions, `aggregates` those of the aggregate expressions.
use distributed_sql.Prelude.{
  ℕ, String, Bool, List, [], ◌∷◌, ◌++◌, map, str_elem, insert, Result, ok, ◌>>=◌, if◌then◌else◌,
}
use distributed_sql.Planner.Types.{Raised}
use distributed_sql.Planner.Values.{SqlValue, Python}
use distributed_sql.Planner.Expressions.{Expression}
use distributed_sql.Planner.Evaluate.{Row}
use distributed_sql.Planner.Sql.{sql}
use distributed_sql.Operators.Aggregates.{
  AggregateFunction, AggregateState, new_state, finish_state, add_to_all, hash_groups,
}
use distributed_sql.Operators.Batches.{batches_from_rows}
use distributed_sql.Operators.Joins.{key_values, same_key, null_row}

-- `_unique_expressions`, on the texts.
unfoldable pub unique_names : List String → List String → List String
unique_names found [] = found
unique_names found (name ∷ names) =
    unique_names (if str_elem name found then found else (found ++ name ∷ [])) names

module _ {O : Type 0} where
  -- `row.update` with names and values, which `zip` pairs.
  unfoldable pub with_values : List String → List (SqlValue O) → Row O → Row O
  with_values [] values row = row
  with_values (name ∷ names) [] row = row
  with_values (name ∷ names) (value ∷ values) row = with_values names values (insert name value row)

module _ {O : Type 0} (py : Python O) (is_decimal : O → Bool)
    (add_decimals : SqlValue O → SqlValue O → Result Raised (SqlValue O)) where
  -- The finished aggregates, put into a row.
  unfoldable pub with_aggregates :
      List String → List (AggregateState O) → Row O → Result Raised (Row O)
  with_aggregates [] states row = ok row
  with_aggregates (name ∷ names) [] row = ok row
  with_aggregates (name ∷ names) (st ∷ states) row = do
    value ← finish_state py is_decimal add_decimals st
    with_aggregates names states (insert name value row)

  -- The rows of the groups; `blank` is the row before the values of the key.
  unfoldable pub group_rows :
      Row O
      → List String
      → List String
      → List (List (SqlValue O) × List (AggregateState O))
      → Result Raised (List (Row O))
  unfolding with_values with_aggregates
  group_rows blank names aggregates [] = ok []
  group_rows blank names aggregates ((key, states) ∷ groups) = do
    row ← with_aggregates aggregates states (with_values names key blank)
    rest ← group_rows blank names aggregates groups
    ok (row ∷ rest)

  abbrev texts : List (Expression O) → List String
  texts expressions = map (sql py) expressions

  -- `groups[()] = self._new_states()`, where there is no grouping expression.
  abbrev first_groups :
      List (Expression O)
      → List (AggregateState O)
      → List (List (SqlValue O) × List (AggregateState O))
  first_groups [] new = ([], new) ∷ []
  first_groups (e ∷ group_by) new = []

  module _ (aggregates : List (String × AggregateFunction O)) where
    abbrev pub new_states : List (AggregateState O)
    new_states = map (λ (item : String × AggregateFunction O). new_state item.1) aggregates

    -- The rows of one grouping set, or of a GROUP BY.
    unfoldable pub aggregate_rows :
        Row O → List (Expression O) → List (Row O) → Result Raised (List (Row O))
    unfolding hash_groups add_to_all key_values same_key group_rows
    aggregate_rows blank group_by rows = do
      groups ←
          hash_groups (same_key py) new_states (add_to_all py is_decimal add_decimals)
            (key_values py group_by) rows (first_groups group_by new_states)
      group_rows blank (texts group_by)
          (map (λ (item : String × AggregateFunction O). item.0) aggregates) groups

    unfoldable pub aggregate_batches :
        (Row O → Row O)
        → ℕ
        → List (Expression O)
        → List (Row O)
        → Result Raised (List (List (Row O)))
    unfolding aggregate_rows batches_from_rows
    aggregate_batches fit batch_size group_by rows = do
      output ← aggregate_rows [] group_by rows
      ok (batches_from_rows fit batch_size output)

    abbrev all_texts : List (List (Expression O)) → List String
    all_texts [] = []
    all_texts (set ∷ sets) = texts set ++ all_texts sets

    unfoldable pub grouping_sets_rows :
        Row O → List (List (Expression O)) → List (Row O) → Result Raised (List (Row O))
    unfolding aggregate_rows
    grouping_sets_rows blank [] rows = ok []
    grouping_sets_rows blank (set ∷ sets) rows = do
      output ← aggregate_rows blank set rows
      rest ← grouping_sets_rows blank sets rows
      ok (output ++ rest)

    unfoldable pub grouping_sets_batches :
        (Row O → Row O)
        → ℕ
        → List (List (Expression O))
        → List (Row O)
        → Result Raised (List (List (Row O)))
    unfolding grouping_sets_rows unique_names null_row batches_from_rows
    grouping_sets_batches fit batch_size sets rows = do
      output ← grouping_sets_rows (null_row (unique_names [] (all_texts sets)) []) sets rows
      ok (batches_from_rows fit batch_size output)
