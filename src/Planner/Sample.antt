-- ===== src/Planner/Sample.antt =====
-- A small Python for tests: no other scalars than whole numbers, booleans and texts.
use distributed_sql.Prelude.{true, false, ok, err, ◌≡◌, refl, ◌↔◌}
use distributed_sql.Common.Protocol
use distributed_sql.Planner.Types.{type_error, TypeInfo, common_type, can_implicitly_cast}
use distributed_sql.Planner.Types.Laws.{common_type_bounds}
use distributed_sql.Planner.Like.{is_like, is_like_iff, Likes, codes}
use distributed_sql.Planner.Values.{null, Python}

pub data NoScalar : Type 0 where

abbrev pub small : Python NoScalar
small = record {
  arithmetic = λ op l r. err type_error;
  divide_integers = λ a b. null;
  equals = λ l r. false;
  less = λ l r. err type_error;
  less_or_equal = λ l r. err type_error;
  negate = λ o. err type_error;
  absolute = λ o. err type_error;
  is_true = λ o. false;
  text = λ o. "";
  size = λ o. err type_error;
  round = λ v d. ok v;
  convert = λ t v. err type_error;
  is_date = λ o. false;
  at_midnight = λ o. o;
  lower = λ s. s;
  upper = λ s. s;
}

abbrev pub type_of : Protocol.DataType → TypeInfo
type_of t = record { data_type = t; nullable = true }

wider :
    common_type (type_of Protocol.int32) (type_of Protocol.decimal) ≡ ok (type_of Protocol.decimal)
unfolding common_type
wider = refl

common_type_bounds_example :
    (can_implicitly_cast Protocol.int32 Protocol.decimal ≡ true)
    × (can_implicitly_cast Protocol.decimal Protocol.decimal ≡ true)
common_type_bounds_example =
    common_type_bounds (type_of Protocol.int32) (type_of Protocol.decimal) wider

is_like_iff_example : (is_like "abc" "a%_" ≡ true) ↔ Likes (codes "a%_") (codes "abc")
is_like_iff_example = is_like_iff "abc" "a%_"

liked : is_like "abc" "a%_" ≡ true
unfolding is_like
liked = refl
