-- ===== src/Planner/Evaluate.antt =====
-- The `evaluate` methods of planner/expressions.py, on a row, which maps column names to values.
use Prim.Native.String.{String}
use distributed_sql.Prelude.{
  ℕ, suc, ◌-◌, Bool, true, false, not, ◌||◌, Option, none, some, List, [], ◌∷◌, Dict, lookup,
  str_eq, str_concat, map, length, take, drop, Result, ok, err, ◌>>=◌, if◌then◌else◌,
}
use distributed_sql.Prelude.Int.{ℤ, pos, negsuc, ◌-ℤ◌, ◌+ℤ◌, pos_part}
use distributed_sql.Common.Protocol
use distributed_sql.Common.Protocol.{DataType}
use distributed_sql.Planner.Types.{Raised, type_error, value_error, key_error, index_error}
use distributed_sql.Planner.Values
use distributed_sql.Planner.Values.{
  SqlValue, null, bool, int, str, other, Python, is_true, is_false, as_int, numeric_operation,
  py_equals, py_less, py_less_or_equal, py_bool, py_negate, py_abs, py_str, py_len,
}
use distributed_sql.Planner.Like.{is_like}
use distributed_sql.Planner.Expressions.{
  Expression, Expressions, Branches, UnaryOperator, BinaryOperator, literal, column, cast, unary,
  binary, is_null, in_list, between, like, case, scalar_function, aggregate_function,
  window_function, nil, cons, end, when, not_operator, negate, add, subtract, multiply, divide,
  modulo, equal, not_equal, less_than, less_than_or_equal, greater_than, greater_than_or_equal, and,
  or, qualified_name,
}
use distributed_sql.Planner.Sql.{sql}

abbrev pub Row : Type 0 → Type 0
Row O = Dict (SqlValue O)

module _ {O : Type 0} where
  abbrev pub sql_and : SqlValue O → SqlValue O → SqlValue O
  sql_and left right =
      if is_false left || is_false right
      then bool false
      else if Values.is_null left || Values.is_null right
      then null
      else bool true

  abbrev pub sql_or : SqlValue O → SqlValue O → SqlValue O
  sql_or left right =
      if is_true left || is_true right
      then bool true
      else if Values.is_null left || Values.is_null right
      then null
      else bool false

  -- `row[key]`
  abbrev pub row_at : String → Row O → Result Raised (SqlValue O)
  row_at key row = elim (lookup key row) [ none ↦ err key_error | some value ↦ ok value ]

  -- An aggregate's or a window function's result; a missing key is turned into a ValueError.
  abbrev pub result_at : String → Row O → Result Raised (SqlValue O)
  result_at key row = elim (lookup key row) [ none ↦ err value_error | some value ↦ ok value ]

  abbrev pub negate_if : Bool → Bool → SqlValue O
  negate_if negated result = bool (if negated then not result else result)

  -- `None if saw_null else False`, and its negation.
  abbrev in_list_missed : Bool → Bool → SqlValue O
  in_list_missed negated saw_null = if saw_null then null else bool negated

module _ {O : Type 0} (py : Python O) where
  -- `Cast.evaluate` on a value that is not None. What is left to the parameter: parsing texts, and
  -- numbers that are no integers. A datetime is a date in Python.
  unfoldable pub cast_value : DataType → SqlValue O → Result Raised (SqlValue O)
  cast_value Protocol.int32 (int n) = ok (int n)
  cast_value Protocol.int64 (int n) = ok (int n)
  cast_value Protocol.int32 (bool b) = ok (int (if b then pos 1 else pos 0))
  cast_value Protocol.int64 (bool b) = ok (int (if b then pos 1 else pos 0))
  cast_value Protocol.string value = ok (str (py_str py value))
  cast_value Protocol.boolean value = ok (bool (py_bool py value))
  cast_value Protocol.null value = ok value
  cast_value Protocol.binary value = ok value
  cast_value Protocol.list value = ok value
  cast_value Protocol.struct value = ok value
  cast_value Protocol.date (bool b) = ok (bool b)
  cast_value Protocol.date (int n) = ok (int n)
  cast_value Protocol.date (other o) = ok (other o)
  cast_value Protocol.timestamp (bool b) = ok (bool b)
  cast_value Protocol.timestamp (int n) = ok (int n)
  cast_value Protocol.timestamp (other o) =
      ok (if py.is_date o then other (py.at_midnight o) else other o)
  cast_value target value = py.convert target value

  unfoldable pub unary_value : UnaryOperator → SqlValue O → Result Raised (SqlValue O)
  unary_value not_operator value = ok (bool (not (py_bool py value)))
  unary_value negate value = py_negate py value

  abbrev compared : Bool → Result Raised Bool → Result Raised (SqlValue O)
  compared flip r = do b ← r; ok (bool (if flip then not b else b))

  -- `Binary.evaluate` below AND and OR, on two values that are not None. `a > b` is `b < a`.
  unfoldable pub strict_binary :
      BinaryOperator → SqlValue O → SqlValue O → Result Raised (SqlValue O)
  strict_binary add l r = numeric_operation py Values.add l r
  strict_binary subtract l r = numeric_operation py Values.subtract l r
  strict_binary multiply l r = numeric_operation py Values.multiply l r
  strict_binary divide l r = numeric_operation py Values.divide l r
  strict_binary modulo l r = numeric_operation py Values.modulo l r
  strict_binary equal l r = ok (bool (py_equals py l r))
  strict_binary not_equal l r = ok (bool (not (py_equals py l r)))
  strict_binary less_than l r = compared false (py_less py l r)
  strict_binary less_than_or_equal l r = compared false (py_less_or_equal py l r)
  strict_binary greater_than l r = compared false (py_less py r l)
  strict_binary greater_than_or_equal l r = compared false (py_less_or_equal py r l)
  strict_binary and l r = ok (sql_and l r)
  strict_binary or l r = ok (sql_or l r)

  unfoldable pub binary_value :
      BinaryOperator → SqlValue O → SqlValue O → Result Raised (SqlValue O)
  unfolding strict_binary
  binary_value and l r = ok (sql_and l r)
  binary_value or l r = ok (sql_or l r)
  binary_value operator l r =
      if Values.is_null l || Values.is_null r then ok null else strict_binary operator l r

  -- `low <= value <= high`, which compares the second time only if the first holds.
  unfoldable pub between_value :
      Bool → SqlValue O → SqlValue O → SqlValue O → Result Raised (SqlValue O)
  between_value negated value low high =
      if Values.is_null value || (Values.is_null low || Values.is_null high) then ok null else do
        above ← py_less_or_equal py low value
        within ← (if above then py_less_or_equal py value high else ok false)
        ok (negate_if negated within)

  unfoldable pub like_value : Bool → SqlValue O → SqlValue O → SqlValue O
  like_value negated value pat =
      if Values.is_null value || Values.is_null pat
      then null
      else negate_if negated (is_like (py_str py value) (py_str py pat))

  unfoldable pub first_value : List (SqlValue O) → SqlValue O
  first_value [] = null
  first_value (null ∷ rest) = first_value rest
  first_value (value ∷ rest) = value

  abbrev pub any_null : List (SqlValue O) → Bool
  any_null [] = false
  any_null (v ∷ rest) = Values.is_null v || any_null rest

  -- The characters of a text, and back.
  abbrev chars : String → List String
  chars String.[] = []
  chars (String.◌∷◌ c s) = String.◌∷◌ c "" ∷ chars s

  -- `text[begin:]`, for a begin that is not negative.
  abbrev slice_from : String → ℕ → String
  slice_from text begin = str_concat (drop begin (chars text))

  -- `text[begin : end]`; a negative end counts from the right.
  abbrev slice_between : String → ℕ → ℤ → String
  slice_between text begin (pos stop) = str_concat (drop begin (take stop (chars text)))
  slice_between text begin (negsuc n) =
      str_concat (drop begin (take (length (chars text) - suc n) (chars text)))

  -- `max(start - 1, 0)`
  abbrev begin_of : ℤ → ℕ
  begin_of start = pos_part (start -ℤ pos 1)

  unfoldable pub substring : List (SqlValue O) → Result Raised (SqlValue O)
  substring [] = err index_error
  substring (text ∷ []) = err index_error
  substring (text ∷ start ∷ []) = elim (as_int start) [
    | none ↦ err type_error
    | some s ↦ ok (str (slice_from (py_str py text) (begin_of s)))
  ]
  substring (text ∷ start ∷ size ∷ rest) = elim (as_int start) [
    | none ↦ err type_error
    | some s ↦ elim (as_int size) [
      | none ↦ err type_error
      | some n ↦ ok (str (slice_between (py_str py text) (begin_of s) (pos (begin_of s) +ℤ n)))
    ]
  ]

  -- A function of one value; its later arguments are ignored.
  abbrev on_first :
      (SqlValue O → Result Raised (SqlValue O)) → List (SqlValue O) → Result Raised (SqlValue O)
  on_first f [] = err index_error
  on_first f (value ∷ rest) = f value

  abbrev round_digits : List (SqlValue O) → SqlValue O
  round_digits (digits ∷ []) = digits
  round_digits _ = int (pos 0)

  unfoldable pub round_value : List (SqlValue O) → Result Raised (SqlValue O)
  round_value [] = err index_error
  round_value (value ∷ rest) = py.round value (round_digits rest)

  abbrev length_value : SqlValue O → Result Raised (SqlValue O)
  length_value value = do n ← py_len py value; ok (int n)

  -- The functions below COALESCE, on values none of which is None.
  unfoldable pub strict_function : String → List (SqlValue O) → Result Raised (SqlValue O)
  unfolding substring round_value
  strict_function name values =
      if str_eq name "lower"
      then on_first (λ v. ok (str (py.lower (py_str py v)))) values
      else if str_eq name "upper"
      then on_first (λ v. ok (str (py.upper (py_str py v)))) values
      else if str_eq name "length"
      then on_first length_value values
      else if str_eq name "abs"
      then on_first (py_abs py) values
      else if str_eq name "concat"
      then ok (str (str_concat (map (py_str py) values)))
      else if str_eq name "substring"
      then substring values
      else if str_eq name "round"
      then round_value values
      else err value_error

  unfoldable pub function_value : String → List (SqlValue O) → Result Raised (SqlValue O)
  unfolding strict_function first_value
  function_value name values =
      if str_eq name "coalesce"
      then ok (first_value values)
      else if any_null values
      then ok null
      else strict_function name values

  -- What a cast gives: None stays None.
  abbrev pub cast_or_null : DataType → SqlValue O → Result Raised (SqlValue O)
  cast_or_null target null = ok null
  cast_or_null target value = cast_value target value

  abbrev pub unary_or_null : UnaryOperator → SqlValue O → Result Raised (SqlValue O)
  unary_or_null operator null = ok null
  unary_or_null operator value = unary_value operator value

  unfoldable mutual
    pub evaluate : Expression O → Row O → Result Raised (SqlValue O)
    evaluate (literal value result_type) row = ok value
    evaluate (column name source result_type) row = elim (lookup (qualified_name name source) row) [
      | some value ↦ ok value
      | none ↦ row_at name row
    ]
    evaluate (cast e target implicit) row = do
      value ← evaluate e row
      cast_or_null target.data_type value
    evaluate (unary operator e result_type) row = do
      value ← evaluate e row
      unary_or_null operator value
    evaluate (binary operator left right result_type) row = do
      l ← evaluate left row
      r ← evaluate right row
      binary_value operator l r
    evaluate (is_null e negated) row = do
      value ← evaluate e row
      ok (negate_if negated (Values.is_null value))
    evaluate (in_list e options negated) row = do
      value ← evaluate e row
      (if Values.is_null value then ok null else find_option options row value negated false)
    evaluate (between e low high negated) row = do
      value ← evaluate e row
      l ← evaluate low row
      h ← evaluate high row
      between_value negated value l h
    evaluate (like e pat negated) row = do
      value ← evaluate e row
      p ← evaluate pat row
      ok (like_value negated value p)
    evaluate (case branches default result_type) row = do
      found ← find_branch branches row
      (elim found [ some value ↦ ok value | none ↦ evaluate default row ])
    evaluate (scalar_function name arguments result_type) row = do
      values ← evaluate_all arguments row
      function_value (py.lower name) values
    evaluate (aggregate_function name arguments result_type distinct) row =
        result_at (sql py (aggregate_function name arguments result_type distinct)) row
    evaluate (window_function function partition_by order_by frame) row =
        result_at (sql py (window_function function partition_by order_by frame)) row

    pub evaluate_all : Expressions O → Row O → Result Raised (List (SqlValue O))
    evaluate_all nil row = ok []
    evaluate_all (cons e rest) row = do
      value ← evaluate e row
      values ← evaluate_all rest row
      ok (value ∷ values)

    -- The loop of `InList.evaluate`: the options after a match are not evaluated.
    pub find_option : Expressions O → Row O → SqlValue O → Bool → Bool → Result Raised (SqlValue O)
    find_option nil row value negated saw_null = ok (in_list_missed negated saw_null)
    find_option (cons e rest) row value negated saw_null = do
      candidate ← evaluate e row
      (if Values.is_null candidate
          then find_option rest row value negated true
          else if py_equals py candidate value
          then ok (bool (not negated))
          else find_option rest row value negated saw_null)

    -- The loop of `Case.evaluate`: the result of the first branch whose condition is True.
    pub find_branch : Branches O → Row O → Result Raised (Option (SqlValue O))
    find_branch end row = ok none
    find_branch (when condition result rest) row = do
      c ← evaluate condition row
      (if is_true c
          then (do value ← evaluate result row; ok (some value))
          else find_branch rest row)
