-- ===== src/Planner/Sql.antt =====
-- The `sql` methods of planner/expressions.py: the text of an expression, which is also the key
-- under which an aggregate's or a window function's result stands in a row.
use Prim.Native.Char.{code}
use Prim.Native.String.{String, ◌++◌}
use distributed_sql.Prelude.{Option, none, some, List, [], ◌∷◌, str_concat, ◌==◌, if◌then◌else◌}
use distributed_sql.Common.Protocol
use distributed_sql.Common.Protocol.{DataType}
use distributed_sql.Planner.Values.{SqlValue, null, bool, int, str, other, Python, py_str}
use distributed_sql.Planner.Expressions.{
  Expression, Expressions, Branches, SortExpressions, UnaryOperator, BinaryOperator, WindowFrame,
  literal, column, cast, unary, binary, is_null, in_list, between, like, case, scalar_function,
  aggregate_function, window_function, nil, cons, end, when, unsorted, sort, not_operator, negate,
  add, subtract, multiply, divide, modulo, equal, not_equal, less_than, less_than_or_equal,
  greater_than, greater_than_or_equal, and, or, qualified_name,
}

-- `value.replace("'", "''")`
abbrev double_quotes : String → String
double_quotes String.[] = ""
double_quotes (String.◌∷◌ c s) =
    if code c == 39
    then String.◌∷◌ c (String.◌∷◌ c (double_quotes s))
    else String.◌∷◌ c (double_quotes s)

abbrev pub join : String → List String → String
join separator [] = ""
join separator (s ∷ []) = s
join separator (s ∷ t ∷ rest) = s ++ (separator ++ join separator (t ∷ rest))

-- `data_type.value.upper()`
abbrev type_name : DataType → String
type_name Protocol.null = "NULL"
type_name Protocol.boolean = "BOOLEAN"
type_name Protocol.int32 = "INT32"
type_name Protocol.int64 = "INT64"
type_name Protocol.float32 = "FLOAT32"
type_name Protocol.float64 = "FLOAT64"
type_name Protocol.decimal = "DECIMAL"
type_name Protocol.string = "STRING"
type_name Protocol.binary = "BINARY"
type_name Protocol.date = "DATE"
type_name Protocol.timestamp = "TIMESTAMP"
type_name Protocol.list = "LIST"
type_name Protocol.struct = "STRUCT"

abbrev unary_text : UnaryOperator → String
unary_text not_operator = "NOT"
unary_text negate = "-"

abbrev pub operator_text : BinaryOperator → String
operator_text add = "+"
operator_text subtract = "-"
operator_text multiply = "*"
operator_text divide = "/"
operator_text modulo = "%"
operator_text equal = "="
operator_text not_equal = "<>"
operator_text less_than = "<"
operator_text less_than_or_equal = "<="
operator_text greater_than = ">"
operator_text greater_than_or_equal = ">="
operator_text and = "AND"
operator_text or = "OR"

abbrev frame_text : Option WindowFrame → List String
frame_text none = []
frame_text (some frame) =
    str_concat (frame.kind ∷ " BETWEEN " ∷ frame.start ∷ " AND " ∷ frame.end ∷ []) ∷ []

abbrev clause_text : String → List String → List String
clause_text prefix [] = []
clause_text prefix (s ∷ rest) = (prefix ++ join ", " (s ∷ rest)) ∷ []

-- `", ".join(...)`, or the star of `COUNT(*)`.
abbrev argument_text : List String → String
argument_text [] = "*"
argument_text (s ∷ rest) = join ", " (s ∷ rest)

module _ {O : Type 0} (py : Python O) where
  abbrev literal_text : SqlValue O → String
  literal_text null = "NULL"
  literal_text (bool b) = if b then "TRUE" else "FALSE"
  literal_text (str s) = str_concat ("'" ∷ double_quotes s ∷ "'" ∷ [])
  literal_text (int n) = py_str py (int n)
  literal_text (other o) = py_str py (other o)

  unfoldable mutual
    pub sql : Expression O → String
    sql (literal value result_type) = literal_text value
    sql (column name source result_type) = qualified_name name source
    sql (cast e target implicit) =
        str_concat ("CAST(" ∷ sql e ∷ " AS " ∷ type_name target.data_type ∷ ")" ∷ [])
    sql (unary operator e result_type) = str_concat (unary_text operator ∷ " " ∷ sql e ∷ [])
    sql (binary operator left right result_type) =
        str_concat ("(" ∷ sql left ∷ " " ∷ operator_text operator ∷ " " ∷ sql right ∷ ")" ∷ [])
    sql (is_null e negated) =
        str_concat ("(" ∷ sql e ∷ " " ∷ (if negated then "IS NOT NULL" else "IS NULL") ∷ ")" ∷ [])
    sql (in_list e options negated) = str_concat (
        "("
        ∷ sql e
        ∷ " "
        ∷ (if negated then "NOT IN" else "IN")
        ∷ " ("
        ∷ join ", " (sql_all options)
        ∷ "))"
        ∷ [])
    sql (between e low high negated) = str_concat (
        "("
        ∷ sql e
        ∷ " "
        ∷ (if negated then "NOT BETWEEN" else "BETWEEN")
        ∷ " "
        ∷ sql low
        ∷ " AND "
        ∷ sql high
        ∷ ")"
        ∷ [])
    sql (like e pat negated) =
        str_concat
          ("(" ∷ sql e ∷ " " ∷ (if negated then "NOT LIKE" else "LIKE") ∷ " " ∷ sql pat ∷ ")" ∷ [])
    sql (case branches default result_type) =
        str_concat
          ("CASE " ∷ join " " (sql_branches branches) ∷ " ELSE " ∷ sql default ∷ " END" ∷ [])
    sql (scalar_function name arguments result_type) =
        str_concat (py.upper name ∷ "(" ∷ join ", " (sql_all arguments) ∷ ")" ∷ [])
    sql (aggregate_function name arguments result_type distinct) = str_concat (
        py.upper name
        ∷ "("
        ∷ (if distinct then "DISTINCT " else "")
        ∷ argument_text (sql_all arguments)
        ∷ ")"
        ∷ [])
    sql (window_function function partition_by order_by frame) = str_concat (
        sql function
        ∷ " OVER ("
        ∷ join " " (
            mathlib.Core.List.◌++◌ (clause_text "PARTITION BY " (sql_all partition_by)) (
              mathlib.Core.List.◌++◌ (clause_text "ORDER BY " (sql_sorts order_by))
                (frame_text frame)))
        ∷ ")"
        ∷ [])

    pub sql_all : Expressions O → List String
    sql_all nil = []
    sql_all (cons e rest) = sql e ∷ sql_all rest

    pub sql_branches : Branches O → List String
    sql_branches end = []
    sql_branches (when condition result rest) =
        str_concat ("WHEN " ∷ sql condition ∷ " THEN " ∷ sql result ∷ []) ∷ sql_branches rest

    pub sql_sorts : SortExpressions O → List String
    sql_sorts unsorted = []
    sql_sorts (sort e ascending nulls_first rest) =
        str_concat (
          sql e
          ∷ " "
          ∷ (if ascending then "ASC" else "DESC")
          ∷ " "
          ∷ (if nulls_first then "NULLS FIRST" else "NULLS LAST")
          ∷ [])
        ∷ sql_sorts rest
