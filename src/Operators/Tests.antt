-- ===== src/Operators/Tests.antt =====
-- The theorems on operators at small rows, with numbers for rows and keys.
use Prim.Native.Nat.{compare}
use distributed_sql.Prelude.{
  keep, ℕ, ◌+◌, ◌*◌, ◌%◌, ◌≤◌, ◌<◌, ◌↔◌, ◌==◌, ◌≡◌, refl, true, false, Option, none, some, List, [],
  ◌∷◌, flatten, map, Result, ok, err, ◌>>=◌, ok-injective, arith, inl, inr, if◌then◌else◌,
}
use distributed_sql.Prelude.Int.{pos, ◌+ℤ◌, ◌-ℤ◌}
use distributed_sql.Planner.Types.{Raised, type_error}
use distributed_sql.Planner.Values.{int, null}
use distributed_sql.Planner.Expressions.{WindowFrame, nil}
use distributed_sql.Planner.Sample.{small, NoScalar}
use distributed_sql.Memory.Tests.{accounts, accounts-IsTree}
use distributed_sql.Memory.{Heap}
use distributed_sql.Memory.Limits.{current_of}
use distributed_sql.Operators.Sorting.{external_sorted_rows, sorted_rows}
use distributed_sql.Operators.Sorting.Merge.{IsWeakOrder}
use distributed_sql.Operators.Sorting.External.{external_sorted_rows_lem}
use distributed_sql.Operators.Joins.{Join, hash_partition_rows}
use distributed_sql.Operators.Joins.Reference.{IsKeyEquality, nested_loop_join}
use mathlib.Core.List.{Perm}
use distributed_sql.Operators.Aggregates.Rows.{aggregate_rows}
use distributed_sql.Operators.Joins.Partitions.{
  PartitionState, join_partition_number, partition_rows, hash_join_partitions,
}
use distributed_sql.Operators.Joins.Partitions.Blocks.{upto}
use distributed_sql.Operators.Joins.Partitions.Gather.{hash_join_partitions-Perm}
use distributed_sql.Operators.Joins.Partitions.Spread.{partition_rows-keep}
use distributed_sql.Operators.Joins.Hash.{hash_partition_rows-nested_loop_join}
use distributed_sql.Operators.Aggregates.{
  add_to_group, hash_groups, sort_groups, AggregateFunction, new_state, finish_state,
}
use distributed_sql.Operators.Aggregates.Groups.{
  aggregate_of, rows_of, state_of, hash_groups-aggregate_of,
}
use distributed_sql.Operators.Aggregates.Streams.{AllTogether, sort_groups-hash_groups}
use distributed_sql.Operators.Aggregates.Distinct.{
  add_arguments, distinct_arguments, plain, add_arguments-distinct_arguments,
}
use distributed_sql.Operators.Windows.{window_bounds, rank_rows}
use distributed_sql.Operators.Windows.Frames.{window_bounds-rows, window_bounds_le}
use distributed_sql.Operators.Windows.Ranks.{ranks, rank_rows-ranks}

weak_order : IsWeakOrder compare
weak_order = record {
  trans_less = λ a b c h k. ground arith;
  less_of_not_above = λ a b c h k. ground arith;
}

numbers_equal : IsKeyEquality ◌==◌
numbers_equal = record {
  reflexive = λ a. ground arith;
  symmetric = λ a b. ground arith;
  transitive = λ a b c h. ground arith;
}

-- Every row takes 30 bytes, of the 60 that the task account has; 10 are in use.
external_sorted_rows_lem_example :
    (heap : Heap) × (external_sorted_rows compare
        (λ rows. rows)
        (λ row. 30)
        1
        (3 ∷ 1 ∷ 2 ∷ [])
        accounts
      ≡ ok (sorted_rows compare (3 ∷ 1 ∷ 2 ∷ []), heap))
    × ((a : ℕ) → current_of heap a ≡ current_of accounts a)
external_sorted_rows_lem_example =
    external_sorted_rows_lem accounts 1 accounts-IsTree (pos 10) refl (omega arith) compare
      weak_order (λ rows. rows) (λ rows. refl) (λ row. 30) (3 ∷ 1 ∷ 2 ∷ [])

-- Rows are numbers; two of them pair where they agree modulo 4, and 0 stands for a key with a null.
abbrev key : ℕ → Option ℕ
key n = if n == 0 then none else some (n % 4)

abbrev full_join : Join ℕ ℕ
full_join = record {
  same = ◌==◌;
  build_key = key;
  probe_key = key;
  merge = λ build probe. build * 100 + probe;
  null_build = 9;
  null_probe = 99;
  build_preserved = true;
  probe_preserved = true;
  fit = λ row. row;
  batch_size = 2;
}

hash_partition_rows-nested_loop_join_example :
    (batches : List (List ℕ)) × (hash_partition_rows full_join (1 ∷ 0 ∷ 5 ∷ 2 ∷ []) (1 ∷ 3 ∷ 0 ∷ [])
      ≡ some batches)
    × (flatten batches
        ≡ map (λ row. row) (nested_loop_join full_join (1 ∷ 0 ∷ 5 ∷ 2 ∷ []) (1 ∷ 3 ∷ 0 ∷ [])))
hash_partition_rows-nested_loop_join_example =
    hash_partition_rows-nested_loop_join full_join (omega arith) numbers_equal (1 ∷ 0 ∷ 5 ∷ 2 ∷ [])
      (1 ∷ 3 ∷ 0 ∷ [])

program : Unit {0}
unfolding hash_partition_rows hash_groups sort_groups add_to_group window_bounds rank_rows ◌+ℤ◌ ◌-ℤ◌
program = tt

joined :
    hash_partition_rows full_join (1 ∷ 0 ∷ 5 ∷ 2 ∷ []) (1 ∷ 3 ∷ 0 ∷ [])
    ≡ some ((101 ∷ 501 ∷ []) ∷ (903 ∷ 900 ∷ []) ∷ (99 ∷ 299 ∷ []) ∷ [])
unfolding program
joined = refl

abbrev add_up : ℕ → ℕ → Result Raised ℕ
add_up total row = ok (total + row)

abbrev parity : ℕ → Result Raised ℕ
parity row = ok (row % 2)

grouped : hash_groups ◌==◌ 0 add_up parity (1 ∷ 2 ∷ 3 ∷ []) [] ≡ ok ((1, 4) ∷ (0, 2) ∷ [])
unfolding program
grouped = refl

hash_groups-aggregate_of_example :
    aggregate_of ◌==◌ 0 add_up none (rows_of ◌==◌ 0 add_up parity 1 (1 ∷ 2 ∷ 3 ∷ []))
    ≡ ok (state_of ◌==◌ 0 add_up 1 ((1, 4) ∷ (0, 2) ∷ []))
hash_groups-aggregate_of_example =
    hash_groups-aggregate_of ◌==◌ 0 add_up numbers_equal parity 1 (1 ∷ 2 ∷ 3 ∷ []) grouped

rows_together : AllTogether ◌==◌ 0 add_up numbers_equal parity (1 ∷ 3 ∷ 2 ∷ [])
rows_together key keyed key' keyed' =
    let one = ok-injective keyed in
    let also_one = ok-injective keyed' in
    inl (
      ground arith,
      λ key'' keyed''. let zero_now = ok-injective keyed'' in inr ((ground arith, tt), tt),
    )

sort_groups-hash_groups_example :
    sort_groups ◌==◌ 0 add_up parity (1 ∷ 3 ∷ 2 ∷ []) none
    ≡ hash_groups ◌==◌ 0 add_up parity (1 ∷ 3 ∷ 2 ∷ []) []
sort_groups-hash_groups_example =
    sort_groups-hash_groups ◌==◌ 0 add_up numbers_equal parity (1 ∷ 3 ∷ 2 ∷ []) rows_together

abbrev distinct_sum : AggregateFunction NoScalar
distinct_sum = record { name = "sum"; arguments = nil; distinct = true }

add_arguments-distinct_arguments_example :
    (do
      st ←
          add_arguments small
            (λ o. false)
            (λ a b. err type_error)
            (int (pos 1) ∷ null ∷ int (pos 1) ∷ int (pos 2) ∷ [])
            (new_state distinct_sum)
      finish_state small (λ o. false) (λ a b. err type_error) st)
    ≡ (do
      st ←
          add_arguments small
            (λ o. false)
            (λ a b. err type_error)
            (distinct_arguments small
              (λ o. false)
              (λ a b. err type_error)
              []
              (int (pos 1) ∷ null ∷ int (pos 1) ∷ int (pos 2) ∷ []))
            (new_state (plain small (λ o. false) (λ a b. err type_error) distinct_sum))
      finish_state small (λ o. false) (λ a b. err type_error) st)
add_arguments-distinct_arguments_example =
    add_arguments-distinct_arguments small (λ o. false) (λ a b. err type_error) distinct_sum
      (int (pos 1) ∷ null ∷ int (pos 1) ∷ int (pos 2) ∷ []) refl

abbrev around : WindowFrame
around = record { kind = "ROWS"; start = "1 PRECEDING"; end = "1 FOLLOWING" }

abbrev peers : List ℕ
peers = 5 ∷ 5 ∷ 7 ∷ 8 ∷ []

bounds : window_bounds ◌==◌ (some around) true 1 4 peers ≡ some (0, 3)
unfolding program
bounds = refl

window_bounds_le_example : (0 ≤ 4) × (3 ≤ 4) × (some around ≡ none → (0 ≤ 1) × (1 < 3))
window_bounds_le_example = window_bounds_le ◌==◌ (some around) true 1 peers (omega arith) bounds

window_bounds-rows_example :
    (start : ℕ) × (end : ℕ) × (window_bounds ◌==◌ (some around) true 1 4 peers ≡ some (start, end))
    × ((start ≤ 2) × (2 < end) ↔ (1 ≤ 2 + 1) × (2 ≤ 1 + 1))
window_bounds-rows_example =
    window_bounds-rows ◌==◌ around true 1 peers 1 1 2 refl refl (omega arith)

rank_rows-ranks_example : rank_rows ◌==◌ "rank" 0 0 none peers ≡ ranks ◌==◌ [] peers
rank_rows-ranks_example =
    rank_rows-ranks ◌==◌ numbers_equal peers
      (inr tt, (inl refl, (inr (refl, (refl, tt)), (inr (refl, (refl, (refl, tt))), tt))))

ranked : rank_rows ◌==◌ "rank" 0 0 none peers ≡ 1 ∷ 1 ∷ 3 ∷ 4 ∷ []
unfolding program
ranked = refl

hash_join_partitions-Perm_example :
    (batches : List (List ℕ)) × (hash_join_partitions full_join
        (λ i. keep (λ r. join_partition_number (λ k. k) 8 (key r) == i) (1 ∷ 0 ∷ 5 ∷ 2 ∷ []))
        (λ i. keep (λ r. join_partition_number (λ k. k) 8 (key r) == i) (1 ∷ 3 ∷ 0 ∷ []))
        (upto 0 8)
      ≡ some batches)
    × Perm
        (flatten batches)
        (map (λ row. row) (nested_loop_join full_join (1 ∷ 0 ∷ 5 ∷ 2 ∷ []) (1 ∷ 3 ∷ 0 ∷ [])))
hash_join_partitions-Perm_example =
    hash_join_partitions-Perm full_join (omega arith) numbers_equal (λ k. k) 8 (omega arith)
      (λ a b h. ground arith) (1 ∷ 0 ∷ 5 ∷ 2 ∷ []) (1 ∷ 3 ∷ 0 ∷ [])

partition_rows-keep_example :
    (st : PartitionState ℕ) × (partition_rows
        (λ row. row % 2)
        (λ rows. rows)
        (λ row. 30)
        1
        (3 ∷ 1 ∷ 2 ∷ [])
        accounts
      ≡ ok st)
    × ((partition : ℕ) → st.files partition ≡ keep (λ row. row % 2 == partition) (3 ∷ 1 ∷ 2 ∷ []))
    × ((a : ℕ) → current_of st.heap a ≡ current_of accounts a)
partition_rows-keep_example =
    partition_rows-keep accounts 1 accounts-IsTree (pos 10) refl (omega arith) (λ row. row % 2)
      (λ rows. rows) (λ rows. refl) (λ row. 30) (3 ∷ 1 ∷ 2 ∷ [])

-- One row for no rows: the count is 0.
counted :
    aggregate_rows small
      (λ o. false)
      (λ a b. err type_error)
      (("COUNT(*)", record { name = "count"; arguments = nil; distinct = false }) ∷ [])
      []
      []
      []
    ≡ ok ((("COUNT(*)", int (pos 0)) ∷ []) ∷ [])
unfolding aggregate_rows finish_state
counted = refl
