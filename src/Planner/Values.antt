-- ===== src/Planner/Values.antt =====
-- The values of SQL expressions and Python's operators on them. Whole numbers, booleans and texts
-- are modelled; floats, decimals, bytes, dates and timestamps are the values of a type `O`, and
-- Python's operations that give or take one are a parameter.
use Prim.Native.String.{◌++◌, count, compare}
use Prim.Native.Nat.{Ordering}
use distributed_sql.Prelude.{
  ℕ, zero, suc, ◌-◌, ◌/◌, ◌%◌, String, Bool, true, false, not, Option, none, some, str_eq, ◌==◌,
  ltb, Result, ok, err, if◌then◌else◌,
}
use distributed_sql.Prelude.Int.{ℤ, pos, negsuc, ◌+ℤ◌, ◌-ℤ◌, ◌*ℤ◌, ltb_ℤ, leb_ℤ, eqb_ℤ}
use distributed_sql.Common.Protocol.{DataType}
use distributed_sql.Planner.Types.{Raised, type_error, arithmetic_error}

pub data SqlValue (O : Type 0) : Type 0 where
  null : SqlValue O
  bool : Bool → SqlValue O
  int : ℤ → SqlValue O
  str : String → SqlValue O
  other : O → SqlValue O

pub data Arithmetic : Type 0 where
  add subtract multiply divide modulo : Arithmetic

-- Python's operations where a float, a decimal, bytes or a date takes part, or where the result is
-- one: the operators, `==`, `<`, `<=`, `-x`, `abs`, `bool`, `str`, `round`, the casts, and
-- the case mappings of Unicode. The quotient of two integers is taken to fit a float: the
-- OverflowError of Python for others is left out.
pub record Python (O : Type 0) : Type 0 where
  pub arithmetic : Arithmetic → SqlValue O → SqlValue O → Result Raised (SqlValue O)
  pub divide_integers : ℤ → ℤ → SqlValue O
  pub equals : SqlValue O → SqlValue O → Bool
  pub less : SqlValue O → SqlValue O → Result Raised Bool
  pub less_or_equal : SqlValue O → SqlValue O → Result Raised Bool
  pub negate : O → Result Raised (SqlValue O)
  pub absolute : O → Result Raised (SqlValue O)
  pub is_true : O → Bool
  pub text : O → String
  pub size : O → Result Raised ℤ
  pub round : SqlValue O → SqlValue O → Result Raised (SqlValue O)
  pub convert : DataType → SqlValue O → Result Raised (SqlValue O)
  -- `isinstance(value, date)`, and `datetime.combine(value, datetime.min.time())`
  pub is_date : O → Bool
  pub at_midnight : O → O
  pub lower : String → String
  pub upper : String → String

module _ {O : Type 0} where
  abbrev pub is_null : SqlValue O → Bool
  is_null null = true
  is_null _ = false

  -- `value is True`
  abbrev pub is_true : SqlValue O → Bool
  is_true (bool b) = b
  is_true _ = false

  -- `value is False`
  abbrev pub is_false : SqlValue O → Bool
  is_false (bool b) = not b
  is_false _ = false

  -- A boolean is an integer in Python.
  abbrev pub as_int : SqlValue O → Option ℤ
  as_int (int n) = some n
  as_int (bool true) = some (pos 1)
  as_int (bool false) = some (pos 0)
  as_int _ = none

-- `%` of integers takes the sign of the divisor.
abbrev floor_mod : ℤ → ℤ → ℤ
floor_mod (pos a) (pos b) = pos (a % b)
floor_mod (negsuc a) (pos b) = pos (b - 1 - a % b)
floor_mod (pos a) (negsuc b) = pos (a % suc b) -ℤ (if a % suc b == 0 then pos 0 else pos (suc b))
floor_mod (negsuc a) (negsuc b) = pos 0 -ℤ pos (suc a % suc b)

abbrev is_zero : ℤ → Bool
is_zero n = eqb_ℤ n (pos 0)

module _ {O : Type 0} (py : Python O) where
  abbrev integer_arithmetic : Arithmetic → ℤ → ℤ → Result Raised (SqlValue O)
  integer_arithmetic add a b = ok (int (a +ℤ b))
  integer_arithmetic subtract a b = ok (int (a -ℤ b))
  integer_arithmetic multiply a b = ok (int (a *ℤ b))
  integer_arithmetic divide a b =
      if is_zero b then err arithmetic_error else ok (py.divide_integers a b)
  integer_arithmetic modulo a b =
      if is_zero b then err arithmetic_error else ok (int (floor_mod a b))

  -- `_numeric_operation`
  unfoldable pub numeric_operation :
      Arithmetic → SqlValue O → SqlValue O → Result Raised (SqlValue O)
  numeric_operation op left right = elim (as_int left) [
    | none ↦ py.arithmetic op left right
    | some a ↦ elim (as_int right) [
      | none ↦ py.arithmetic op left right
      | some b ↦ integer_arithmetic op a b
    ]
  ]

  -- `left == right`
  unfoldable pub py_equals : SqlValue O → SqlValue O → Bool
  py_equals null null = true
  py_equals null _ = false
  py_equals (str s) (str t) = str_eq s t
  py_equals (int a) (int b) = eqb_ℤ a b
  py_equals (bool a) (bool b) = eqb_ℤ (if a then pos 1 else pos 0) (if b then pos 1 else pos 0)
  py_equals (int a) (bool b) = eqb_ℤ a (if b then pos 1 else pos 0)
  py_equals (bool a) (int b) = eqb_ℤ (if a then pos 1 else pos 0) b
  py_equals left right = py.equals left right

  abbrev text_less : String → String → Bool
  text_less s t = elim (compare s t) [ Ordering.lt ↦ true | _ ↦ false ]

  abbrev less_texts : SqlValue O → SqlValue O → Result Raised Bool
  less_texts (str s) (str t) = ok (text_less s t)
  less_texts left right = py.less left right

  -- `left < right`; what is not ordered raises, as the parameter says.
  unfoldable pub py_less : SqlValue O → SqlValue O → Result Raised Bool
  py_less left right = elim (as_int left) [
    | none ↦ less_texts left right
    | some a ↦ elim (as_int right) [ none ↦ py.less left right | some b ↦ ok (ltb_ℤ a b) ]
  ]

  abbrev less_or_equal_texts : SqlValue O → SqlValue O → Result Raised Bool
  less_or_equal_texts (str s) (str t) = ok (not (text_less t s))
  less_or_equal_texts left right = py.less_or_equal left right

  unfoldable pub py_less_or_equal : SqlValue O → SqlValue O → Result Raised Bool
  py_less_or_equal left right = elim (as_int left) [
    | none ↦ less_or_equal_texts left right
    | some a ↦ elim (as_int right) [ none ↦ py.less_or_equal left right | some b ↦ ok (leb_ℤ a b) ]
  ]

  -- `bool(value)`, which `not` reads too.
  unfoldable pub py_bool : SqlValue O → Bool
  py_bool null = false
  py_bool (bool b) = b
  py_bool (int n) = not (is_zero n)
  py_bool (str s) = not (str_eq s "")
  py_bool (other o) = py.is_true o

  unfoldable pub py_negate : SqlValue O → Result Raised (SqlValue O)
  py_negate null = err type_error
  py_negate (bool b) = ok (int (pos 0 -ℤ (if b then pos 1 else pos 0)))
  py_negate (int n) = ok (int (pos 0 -ℤ n))
  py_negate (str s) = err type_error
  py_negate (other o) = py.negate o

  abbrev magnitude : ℤ → ℤ
  magnitude (pos n) = pos n
  magnitude (negsuc n) = pos (suc n)

  unfoldable pub py_abs : SqlValue O → Result Raised (SqlValue O)
  py_abs null = err type_error
  py_abs (bool b) = ok (int (if b then pos 1 else pos 0))
  py_abs (int n) = ok (int (magnitude n))
  py_abs (str s) = err type_error
  py_abs (other o) = py.absolute o

abbrev pub digit : ℕ → String
digit n =
    if n == 0
    then "0"
    else if n == 1
    then "1"
    else if n == 2
    then "2"
    else if n == 3
    then "3"
    else if n == 4
    then "4"
    else if n == 5
    then "5"
    else if n == 6
    then "6"
    else if n == 7
    then "7"
    else if n == 8
    then "8"
    else "9"

-- The decimal digits of a number; one unit of fuel for each.
unfoldable pub decimal_digits : ℕ → ℕ → String
decimal_digits zero n = ""
decimal_digits (suc fuel) n =
    let rest = decimal_digits fuel (n / 10) in
    if ltb n 10 then digit n else (rest ++ digit (n % 10))

unfoldable pub text_of_int : ℤ → String
unfolding decimal_digits
text_of_int (pos n) = decimal_digits (suc n) n
text_of_int (negsuc n) = "-" ++ decimal_digits (suc (suc n)) (suc n)

module _ {O : Type 0} (py : Python O) where
  -- `str(value)`
  unfoldable pub py_str : SqlValue O → String
  unfolding text_of_int
  py_str null = "None"
  py_str (bool b) = if b then "True" else "False"
  py_str (int n) = text_of_int n
  py_str (str s) = s
  py_str (other o) = py.text o

  -- `len(value)`
  unfoldable pub py_len : SqlValue O → Result Raised ℤ
  py_len (str s) = ok (pos (count s))
  py_len (other o) = py.size o
  py_len _ = err type_error
