-- ===== src/Planner/Types.antt =====
-- planner/types.py: SQL types, their common type and implicit casts.
pub mod Laws
use distributed_sql.Prelude.{
  ℕ, Bool, true, false, ◌&&◌, ◌||◌, Option, none, some, leb, ◌==◌, Result, ok, err, if◌then◌else◌,
}
use distributed_sql.Common.Errors.{ErrorCode, binding_error}
use distributed_sql.Common.Protocol.{
  DataType, null, boolean, int32, int64, float32, float64, decimal, string, binary, date, timestamp,
  list, struct,
}

-- The exceptions that planning and evaluation code raise: Python's classes, and the domain error.
pub data Raised : Type 0 where
  type_error value_error arithmetic_error key_error index_error : Raised
  domain_error : ErrorCode → Raised

pub record TypeInfo : Type 0 where
  pub data_type : DataType
  pub nullable : Bool

-- The place of a type in the enumeration, which decides `is`.
abbrev pub type_number : DataType → ℕ
type_number null = 0
type_number boolean = 1
type_number int32 = 2
type_number int64 = 3
type_number float32 = 4
type_number float64 = 5
type_number decimal = 6
type_number string = 7
type_number binary = 8
type_number date = 9
type_number timestamp = 10
type_number list = 11
type_number struct = 12

abbrev pub same_type : DataType → DataType → Bool
same_type a b = type_number a == type_number b

-- `_NUMERIC_PRECEDENCE`
abbrev pub numeric_precedence : DataType → Option ℕ
numeric_precedence int32 = some 0
numeric_precedence int64 = some 1
numeric_precedence float32 = some 2
numeric_precedence float64 = some 3
numeric_precedence decimal = some 4
numeric_precedence _ = none

-- The common type of two types that are neither NULL nor the same.
abbrev pub mixed_type : DataType → DataType → Bool → Result Raised TypeInfo
mixed_type left right nullable = elim (numeric_precedence left) [
  | some p ↦ elim (numeric_precedence right) [
    | some q ↦ ok (record { data_type = if leb q p then left else right; nullable = nullable })
    | none ↦ err (domain_error binding_error)
  ]
  | none ↦
      if (same_type left date && same_type right timestamp)
        || (same_type left timestamp && same_type right date)
      then ok (record { data_type = timestamp; nullable = nullable })
      else err (domain_error binding_error)
]

unfoldable pub common_type : TypeInfo → TypeInfo → Result Raised TypeInfo
common_type left right =
    if same_type left.data_type null
    then ok (record { data_type = right.data_type; nullable = true })
    else if same_type right.data_type null
    then ok (record { data_type = left.data_type; nullable = true })
    else if same_type left.data_type right.data_type
    then ok (record { data_type = left.data_type; nullable = left.nullable || right.nullable })
    else mixed_type left.data_type right.data_type (left.nullable || right.nullable)

unfoldable pub can_implicitly_cast : DataType → DataType → Bool
can_implicitly_cast source target =
    if same_type source target || same_type source null
    then true
    else elim (numeric_precedence source) [
      | some p ↦ elim (numeric_precedence target) [
        | some q ↦ leb p q
        | none ↦ same_type source date && same_type target timestamp
      ]
      | none ↦ same_type source date && same_type target timestamp
    ]
