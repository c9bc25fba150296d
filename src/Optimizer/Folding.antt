-- ===== src/Optimizer/Folding.antt =====
-- `ConstantFolding` of optimizer/rules.py on expressions: `_fold_expression` at every node, from
-- the leaves up.
mod Constant
pub mod Node
pub mod Sound
use distributed_sql.Prelude.{Bool, true, false, not, ◌||◌, List, [], Result, ok, err, if◌then◌else◌}
use distributed_sql.Planner.Types.{Raised, type_error, value_error, arithmetic_error, TypeInfo}
use distributed_sql.Planner.Values.{SqlValue, null, bool, int, str, other, Python}
use distributed_sql.Planner.Expressions.{
  Expression, literal, binary, BinaryOperator, and, or, type_info,
}
use distributed_sql.Planner.Evaluate.{evaluate}
use distributed_sql.Optimizer.Utils.{is_constant, is_literal, map_expression}

module _ {O : Type 0} where
  -- `isinstance(e, Literal) and e.value is True`, and the same for False.
  abbrev pub is_true_literal : Expression O → Bool
  is_true_literal (literal (bool b) result_type) = b
  is_true_literal _ = false

  abbrev pub is_false_literal : Expression O → Bool
  is_false_literal (literal (bool b) result_type) = not b
  is_false_literal _ = false

  -- The result of the attempt to evaluate a constant: the listed exceptions leave it as it is.
  unfoldable pub folded : Expression O → Result Raised (SqlValue O) → Result Raised (Expression O)
  folded e (ok value) = ok (literal value (type_info e))
  folded e (err arithmetic_error) = ok e
  folded e (err type_error) = ok e
  folded e (err value_error) = ok e
  folded e (err raised) = err raised

module _ {O : Type 0} (py : Python O) where
  unfoldable pub fold_constant : Expression O → Result Raised (Expression O)
  unfolding folded
  fold_constant e =
      if not (is_constant e) || is_literal e then ok e else folded e (evaluate py e [])

  unfoldable pub fold_expression : Expression O → Result Raised (Expression O)
  unfolding fold_constant
  fold_expression (binary and left right result_type) =
      if is_true_literal left
      then ok right
      else if is_false_literal left
      then ok left
      else if is_true_literal right
      then ok left
      else if is_false_literal right
      then ok right
      else fold_constant (binary and left right result_type)
  fold_expression (binary or left right result_type) =
      if is_false_literal left
      then ok right
      else if is_true_literal left
      then ok left
      else if is_false_literal right
      then ok left
      else if is_true_literal right
      then ok right
      else fold_constant (binary or left right result_type)
  fold_expression e = fold_constant e

  unfoldable pub fold : Expression O → Result Raised (Expression O)
  unfolding fold_expression
  fold = map_expression fold_expression
