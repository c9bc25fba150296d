-- ===== src/RuntimeFilter/Tests.antt =====
-- Runtime filters on whole-number keys.
use distributed_sql.Prelude.{
  ℕ, ◌*◌, ◌⊎◌, ◌≡◌, refl, Bool, true, false, List, [], ◌∷◌, Elem, ok, arith, inl, inr,
}
use distributed_sql.Prelude.Int.{ℤ, pos, leb_ℤ}
use distributed_sql.Common.Protocol
use distributed_sql.Planner.Values.{SqlValue, null, int, py_less, py_less_or_equal}
use distributed_sql.Planner.Expressions.{Expression, column}
use distributed_sql.Planner.Evaluate.{Row, evaluate}
use distributed_sql.Planner.Sample.{NoScalar, small, type_of}
use distributed_sql.RuntimeFilter.Bloom.{Knows}
use distributed_sql.RuntimeFilter.Merge.{merge_bloom-Knows}
use distributed_sql.RuntimeFilter.{
  BloomFilter, merge_bloom, bloom_might_contain, Digest, Sizing, RuntimeFilter, from_rows, key_of,
  any_missing, might_contain,
}
use distributed_sql.RuntimeFilter.Ranges.{IsOrdered}
use distributed_sql.RuntimeFilter.Complete.{AllKeyed, from_rows_complete}

abbrev sizing : Sizing
sizing = record { rate_is_valid = true; needed_bits = λ n. 10 * n; needed_hashes = λ bits n. 2 }

abbrev digest : Digest NoScalar
digest values = (21, 5)

abbrev IsNumber : ℕ → SqlValue NoScalar → Type 0
IsNumber c x = (n : ℤ) × (x ≡ int n)

abbrev below : SqlValue NoScalar → SqlValue NoScalar → Bool
below (int a) (int b) = leb_ℤ a b
below _ _ = false

numbers : IsOrdered small IsNumber
unfolding py_less py_less_or_equal
numbers = record {
  below = below;
  less = λ c x y (a, p) (b, q). rw (p, q) (ground arith);
  less_or_equal = λ c x y (a, p) (b, q). rw (p, q) refl;
  reflexive = λ c x (a, p). rw p (ground arith);
  total = λ c x y (a, p) (b, q). rw (p, q) (λ h. ground arith);
  transitive = λ c x y z (a, p) (b, q) (d, r). rw (p, q, r) (λ h k. ground arith);
}

abbrev key : Expression NoScalar
key = column "k" "" (type_of Protocol.int64)

abbrev build_rows : List (Row NoScalar)
build_rows = (("k", int (pos 4)) ∷ []) ∷ (("k", null) ∷ []) ∷ (("k", int (pos 9)) ∷ []) ∷ []

build_rows-AllKeyed : AllKeyed small digest IsNumber numbers (key ∷ []) build_rows
unfolding key_of evaluate
build_rows-AllKeyed = (
  (int (pos 4) ∷ [], refl, (refl, inr (refl, ((pos 4, refl), tt)))),
  (
    (null ∷ [], refl, (refl, inl refl)),
    ((int (pos 9) ∷ [], refl, (refl, inr (refl, ((pos 9, refl), tt)))), tt),
  ),
)

from_rows_complete_example :
    (f : RuntimeFilter NoScalar) × (from_rows small digest sizing 3 build_rows (key ∷ []) ≡ ok f)
    × ((row : Row NoScalar) (values : List (SqlValue NoScalar))
        → Elem row build_rows
        → key_of small (key ∷ []) row ≡ ok values
        → any_missing values ≡ false
        → might_contain small digest f values ≡ ok true)
from_rows_complete_example =
    from_rows_complete small digest IsNumber numbers sizing 3 build_rows (key ∷ []) refl
      (omega arith) build_rows-AllKeyed

abbrev left_bloom : BloomFilter
left_bloom = record { bit_count = 16; hash_count = 1; bits = 32 ∷ 0 ∷ []; item_count = 1 }

abbrev right_bloom : BloomFilter
right_bloom = record { bit_count = 16; hash_count = 1; bits = 0 ∷ 128 ∷ []; item_count = 1 }

merge_bloom-Knows_example :
    (merged : BloomFilter) × (merge_bloom left_bloom right_bloom ≡ ok merged)
    × ((values : List (SqlValue NoScalar))
        → Knows digest left_bloom values ⊎ Knows digest right_bloom values
        → bloom_might_contain digest merged values ≡ ok true)
merge_bloom-Knows_example =
    merge_bloom-Knows digest left_bloom right_bloom
      (record { has_bits = omega arith; sized = refl })
      (record { has_bits = omega arith; sized = refl }) refl refl
