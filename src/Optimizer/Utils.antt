-- ===== src/Optimizer/Utils.antt =====
-- optimizer/utils.py: the nodes of an expression, its conjuncts, and the bottom-up rebuild.
use distributed_sql.Prelude.{
  String, Bool, true, false, not, ◌||◌, List, [], ◌∷◌, ◌++◌, map, any, Dict, insert, sorted_by,
  str_leb, Result, ok, err, ◌>>=◌,
}
use distributed_sql.Planner.Types.{Raised, value_error}
use distributed_sql.Planner.Values.{Python}
use distributed_sql.Planner.Expressions.{
  Expression, Expressions, Branches, SortExpressions, literal, column, cast, unary, binary, is_null,
  in_list, between, like, case, scalar_function, aggregate_function, window_function, nil, cons,
  end, when, unsorted, sort, and, type_info,
}
use distributed_sql.Planner.Sql.{sql}

module _ {O : Type 0} where
  -- The node and what `expression_children` finds below it: fields that are expressions, or tuples
  -- of those. The entries of `order_by` are neither, so the expressions in them are not found.
  unfoldable mutual
    pub walk_expression : Expression O → List (Expression O)
    walk_expression (literal value result_type) = literal value result_type ∷ []
    walk_expression (column name source result_type) = column name source result_type ∷ []
    walk_expression (cast e target implicit) = cast e target implicit ∷ walk_expression e
    walk_expression (unary operator e result_type) =
        unary operator e result_type ∷ walk_expression e
    walk_expression (binary operator left right result_type) =
        binary operator left right result_type ∷ (walk_expression left ++ walk_expression right)
    walk_expression (is_null e negated) = is_null e negated ∷ walk_expression e
    walk_expression (in_list e options negated) =
        in_list e options negated ∷ (walk_expression e ++ walk_all options)
    walk_expression (between e low high negated) =
        between e low high negated
        ∷ (walk_expression e ++ (walk_expression low ++ walk_expression high))
    walk_expression (like e pat negated) =
        like e pat negated ∷ (walk_expression e ++ walk_expression pat)
    walk_expression (case branches default result_type) =
        case branches default result_type ∷ (walk_branches branches ++ walk_expression default)
    walk_expression (scalar_function name arguments result_type) =
        scalar_function name arguments result_type ∷ walk_all arguments
    walk_expression (aggregate_function name arguments result_type distinct) =
        aggregate_function name arguments result_type distinct ∷ walk_all arguments
    walk_expression (window_function function partition_by order_by frame) =
        window_function function partition_by order_by frame
        ∷ (walk_expression function ++ walk_all partition_by)

    pub walk_all : Expressions O → List (Expression O)
    walk_all nil = []
    walk_all (cons e rest) = walk_expression e ++ walk_all rest

    pub walk_branches : Branches O → List (Expression O)
    walk_branches end = []
    walk_branches (when condition result rest) =
        walk_expression condition ++ (walk_expression result ++ walk_branches rest)

  abbrev pub is_aggregate : Expression O → Bool
  is_aggregate (aggregate_function name arguments result_type distinct) = true
  is_aggregate _ = false

  abbrev pub is_window : Expression O → Bool
  is_window (window_function function partition_by order_by frame) = true
  is_window _ = false

  abbrev pub is_column : Expression O → Bool
  is_column (column name source result_type) = true
  is_column _ = false

  abbrev pub is_literal : Expression O → Bool
  is_literal (literal value result_type) = true
  is_literal _ = false

  unfoldable pub contains_aggregate : Expression O → Bool
  unfolding walk_expression
  contains_aggregate e = any is_aggregate (walk_expression e)

  unfoldable pub contains_window : Expression O → Bool
  unfolding walk_expression
  contains_window e = any is_window (walk_expression e)

  abbrev pub varies : Expression O → Bool
  varies e = is_column e || (is_aggregate e || is_window e)

  unfoldable pub is_constant : Expression O → Bool
  unfolding walk_expression
  is_constant e = not (any varies (walk_expression e))

  unfoldable pub split_conjuncts : Expression O → List (Expression O)
  split_conjuncts (binary and left right result_type) =
      split_conjuncts left ++ split_conjuncts right
  split_conjuncts e = e ∷ []

  -- The loop of `combine_conjuncts` over the later conjuncts.
  unfoldable pub conjoin : Expression O → List (Expression O) → Expression O
  conjoin result [] = result
  conjoin result (e ∷ rest) = conjoin (binary and result e (type_info result)) rest

  unfoldable pub combine_conjuncts : List (Expression O) → Result Raised (Expression O)
  unfolding conjoin
  combine_conjuncts [] = err value_error
  combine_conjuncts (e ∷ rest) = ok (conjoin e rest)

  -- `unique[key] for key in sorted(unique)`
  abbrev pub key_leb : String × Expression O → String × Expression O → Bool
  key_leb (j, a) (k, b) = str_leb j k

  abbrev pub entry : String × Expression O → Expression O
  entry (k, e) = e

module _ {O : Type 0} (py : Python O) where
  -- `{item.sql(): item for item in ...}`, from left to right.
  unfoldable pub unique_by_text : List (Expression O) → Dict (Expression O) → Dict (Expression O)
  unique_by_text [] found = found
  unique_by_text (e ∷ rest) found = unique_by_text rest (insert (sql py e) e found)

  unfoldable pub normalize_conjuncts : Expression O → Result Raised (Expression O)
  unfolding split_conjuncts combine_conjuncts unique_by_text
  normalize_conjuncts e =
      combine_conjuncts (map entry (sorted_by key_leb (unique_by_text (split_conjuncts e) [])))

module _ {O : Type 0} (transform : Expression O → Result Raised (Expression O)) where
  -- `map_expression`: the parts first, then the rebuilt node.
  unfoldable mutual
    pub map_expression : Expression O → Result Raised (Expression O)
    map_expression (literal value result_type) = transform (literal value result_type)
    map_expression (column name source result_type) = transform (column name source result_type)
    map_expression (cast e target implicit) = do
      e' ← map_expression e
      transform (cast e' target implicit)
    map_expression (unary operator e result_type) = do
      e' ← map_expression e
      transform (unary operator e' result_type)
    map_expression (binary operator left right result_type) = do
      l ← map_expression left
      r ← map_expression right
      transform (binary operator l r result_type)
    map_expression (is_null e negated) = do e' ← map_expression e; transform (is_null e' negated)
    map_expression (in_list e options negated) = do
      e' ← map_expression e
      os ← map_all options
      transform (in_list e' os negated)
    map_expression (between e low high negated) = do
      e' ← map_expression e
      l ← map_expression low
      h ← map_expression high
      transform (between e' l h negated)
    map_expression (like e pat negated) = do
      e' ← map_expression e
      p ← map_expression pat
      transform (like e' p negated)
    map_expression (case branches default result_type) = do
      bs ← map_branches branches
      d ← map_expression default
      transform (case bs d result_type)
    map_expression (scalar_function name arguments result_type) = do
      args ← map_all arguments
      transform (scalar_function name args result_type)
    map_expression (aggregate_function name arguments result_type distinct) = do
      args ← map_all arguments
      transform (aggregate_function name args result_type distinct)
    map_expression (window_function function partition_by order_by frame) = do
      f ← map_expression function
      ps ← map_all partition_by
      os ← map_sorts order_by
      transform (window_function f ps os frame)

    pub map_all : Expressions O → Result Raised (Expressions O)
    map_all nil = ok nil
    map_all (cons e rest) = do e' ← map_expression e; r ← map_all rest; ok (cons e' r)

    pub map_branches : Branches O → Result Raised (Branches O)
    map_branches end = ok end
    map_branches (when condition result rest) = do
      c ← map_expression condition
      v ← map_expression result
      r ← map_branches rest
      ok (when c v r)

    pub map_sorts : SortExpressions O → Result Raised (SortExpressions O)
    map_sorts unsorted = ok unsorted
    map_sorts (sort e ascending nulls_first rest) = do
      e' ← map_expression e
      r ← map_sorts rest
      ok (sort e' ascending nulls_first r)
