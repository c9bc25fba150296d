-- ===== src/Planner/Expressions.antt =====
-- planner/expressions.py: bound SQL expressions and their types. A tuple of expressions is a list
-- type of the same block.
use distributed_sql.Prelude.{
  String, Bool, true, false, ◌||◌, Option, none, some, ◌&&◌, [], ◌∷◌, str_eq, str_concat,
  if◌then◌else◌, Result, ok, err, ◌>>=◌,
}
use distributed_sql.Common.Protocol.{boolean, int32, int64, float64}
use distributed_sql.Planner.Types.{
  Raised, type_error, TypeInfo, common_type, same_type, numeric_precedence,
}
use distributed_sql.Planner.Values.{SqlValue}

pub data UnaryOperator : Type 0 where
  not_operator negate : UnaryOperator

pub data BinaryOperator : Type 0 where
  add subtract multiply divide modulo : BinaryOperator
  equal not_equal less_than less_than_or_equal greater_than greater_than_or_equal : BinaryOperator
  and or : BinaryOperator

pub record WindowFrame : Type 0 where
  pub kind : String
  pub start : String
  pub end : String

mutual
  pub data Expression (O : Type 0) : Type 0 where
    literal : (value : SqlValue O) (result_type : TypeInfo) → Expression O
    column : (name source : String) (result_type : TypeInfo) → Expression O
    cast : (expression : Expression O) (target : TypeInfo) (implicit : Bool) → Expression O
    unary :
        (operator : UnaryOperator) (expression : Expression O) (result_type : TypeInfo)
        → Expression O
    binary :
        (operator : BinaryOperator) (left right : Expression O) (result_type : TypeInfo)
        → Expression O
    is_null : (expression : Expression O) (negated : Bool) → Expression O
    in_list : (expression : Expression O) (options : Expressions O) (negated : Bool) → Expression O
    between : (expression low high : Expression O) (negated : Bool) → Expression O
    like : (expression pattern : Expression O) (negated : Bool) → Expression O
    case : (branches : Branches O) (default : Expression O) (result_type : TypeInfo) → Expression O
    scalar_function :
        (name : String) (arguments : Expressions O) (result_type : TypeInfo) → Expression O
    aggregate_function :
        (name : String) (arguments : Expressions O) (result_type : TypeInfo) (distinct : Bool)
        → Expression O
    window_function :
        (function : Expression O) (partition_by : Expressions O) (order_by : SortExpressions O)
        (frame : Option WindowFrame)
        → Expression O

  pub data Expressions (O : Type 0) : Type 0 where
    nil : Expressions O
    cons : Expression O → Expressions O → Expressions O

  -- The WHEN parts of a CASE: condition and result.
  pub data Branches (O : Type 0) : Type 0 where
    end : Branches O
    when : (condition result : Expression O) → Branches O → Branches O

  pub data SortExpressions (O : Type 0) : Type 0 where
    unsorted : SortExpressions O
    sort :
        (expression : Expression O) (ascending nulls_first : Bool)
        → SortExpressions O
        → SortExpressions O

abbrev pub qualified_name : String → String → String
qualified_name name source =
    if str_eq source "" then name else str_concat (source ∷ "." ∷ name ∷ [])

module _ {O : Type 0} where
  unfoldable mutual
    pub type_info : Expression O → TypeInfo
    type_info (literal value result_type) = result_type
    type_info (column name source result_type) = result_type
    type_info (cast expression target implicit) = record {
      data_type = target.data_type;
      nullable = (type_info expression).nullable;
    }
    type_info (unary operator expression result_type) = result_type
    type_info (binary operator left right result_type) = result_type
    type_info (is_null expression negated) = record { data_type = boolean; nullable = false }
    type_info (in_list expression options negated) = record {
      data_type = boolean;
      nullable = (type_info expression).nullable || any_nullable options;
    }
    type_info (between expression low high negated) = record {
      data_type = boolean;
      nullable =
          (type_info expression).nullable
          || ((type_info low).nullable || (type_info high).nullable);
    }
    type_info (like expression pat negated) = record {
      data_type = boolean;
      nullable = (type_info expression).nullable || (type_info pat).nullable;
    }
    type_info (case branches default result_type) = result_type
    type_info (scalar_function name arguments result_type) = result_type
    type_info (aggregate_function name arguments result_type distinct) = result_type
    type_info (window_function function partition_by order_by frame) = type_info function

    pub any_nullable : Expressions O → Bool
    any_nullable nil = false
    any_nullable (cons e rest) = (type_info e).nullable || any_nullable rest

  -- A cast to the common type, where the type differs.
  abbrev cast_to : TypeInfo → Expression O → Expression O
  cast_to result e =
      if same_type (type_info e).data_type result.data_type then e else cast e result true

  unfoldable pub coerce_pair :
      Expression O → Expression O → Result Raised (Expression O × Expression O × TypeInfo)
  coerce_pair left right = do
    result ← common_type (type_info left) (type_info right)
    ok (cast_to result left, cast_to result right, result)

abbrev numeric_result : Bool → TypeInfo → Result Raised TypeInfo
numeric_result division result = elim (numeric_precedence result.data_type) [
  | none ↦ err type_error
  | some p ↦
      if division && (same_type result.data_type int32 || same_type result.data_type int64)
      then ok (record { data_type = float64; nullable = result.nullable })
      else ok result
]

unfoldable pub numeric_result_type : TypeInfo → TypeInfo → Bool → Result Raised TypeInfo
numeric_result_type left right division = do
  result ← common_type left right
  numeric_result division result
