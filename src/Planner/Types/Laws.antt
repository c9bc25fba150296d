-- ===== src/Planner/Types/Laws.antt =====
-- The common type is an upper bound of both types for implicit casts, and does not depend on their
-- order.
use distributed_sql.Prelude.{◌≡◌, true, ok, arith}
use distributed_sql.Planner.Types.{TypeInfo, common_type, can_implicitly_cast}

-- Whatever the two types are, exchanging them gives the same common type or the same error.
pub common_type_comm : (left right : TypeInfo) → common_type left right ≡ common_type right left
unfolding common_type
common_type_comm left right = ground arith

-- Where two types have a common type, each of them can be cast to it implicitly.
pub common_type_bounds :
    (left right : TypeInfo) {t : TypeInfo}
    → common_type left right ≡ ok t
    → (can_implicitly_cast left.data_type t.data_type ≡ true)
      × (can_implicitly_cast right.data_type t.data_type ≡ true)
unfolding common_type can_implicitly_cast
common_type_bounds left right e = ground arith
