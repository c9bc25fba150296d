-- ===== src/Operators/Joins/Partitions.antt =====
-- `_partition_rows`: the rows of each side of a join that does not fit in memory, spread over files by
-- the hash of their keys. What is read back from a file stands for it.
pub mod Spread
pub mod Blocks
pub mod Gather
use distributed_sql.Prelude.{
  ℕ, zero, suc, ◌+◌, ◌%◌, ◌==◌, ◌≡◌, refl, sym, ap, ◌∙◌, subst, Bool, true, false, Option, none,
  some, List, [], ◌∷◌, ◌++◌, keep, keep-append, append-nil, append_assoc, Bool-cases, Result, ok,
  err, ◌>>=◌, if◌then◌else◌, inl, inr, arith,
}
use distributed_sql.Prelude.Int.{ℤ, pos, ◌≤ℤ◌}
use distributed_sql.Memory.{Heap, MemoryError, try_reserve, release}
use distributed_sql.Operators.Sorting.{give_back}
use distributed_sql.Operators.Joins.{Join, hash_partition_rows}

-- `_join_partition_number`; `hash` is Python's.
unfoldable pub join_partition_number : {K : Type 0} → (K → ℕ) → ℕ → Option K → ℕ
join_partition_number hash partition_count none = 0
join_partition_number hash partition_count (some key) = hash key % partition_count

-- The variables of the loop: for each partition, the rows of its files and its buffer.
pub record PartitionState (R : Type 0) : Type 0 where
  pub files : ℕ → List R
  pub buffers : ℕ → List R
  pub reserved : ℕ
  pub heap : Heap

module _ {R : Type 0} (number : R → ℕ) (read_back : List R → List R) (size : R → ℕ) (self : ℕ) where
  abbrev pub written : List R → List R → List R
  written file [] = file
  written file (row ∷ rows) = file ++ read_back (row ∷ rows)

  abbrev pub flushed :
      PartitionState R → Result MemoryError Unit × Heap → Result MemoryError (PartitionState R)
  flushed st (ok tt, heap) = ok (record {
    files = λ partition. written (st.files partition) (st.buffers partition);
    buffers = λ partition. [];
    reserved = 0;
    heap = heap;
  })
  flushed st (err e, heap) = err e

  -- `flush`
  unfoldable pub flush_buffers : PartitionState R → Result MemoryError (PartitionState R)
  unfolding give_back
  flush_buffers st = flushed st (give_back st.reserved self st.heap)

  abbrev pub buffered : R → ℕ → Heap → PartitionState R → PartitionState R
  buffered row charge heap st = record {
    files = st.files;
    buffers = λ partition.
        if number row == partition then st.buffers partition ++ row ∷ [] else st.buffers partition;
    reserved = st.reserved + charge;
    heap = heap;
  }

  -- With the answer of `try_reserve`, and what follows a refusal.
  unfoldable pub try_buffer :
      (PartitionState R → Result MemoryError (PartitionState R))
      → R
      → PartitionState R
      → Result MemoryError Bool × Heap
      → Result MemoryError (PartitionState R)
  try_buffer otherwise row st (ok true, heap) = ok (buffered row (size row) heap st)
  try_buffer otherwise row st (ok false, heap) = otherwise (record st { heap = heap })
  try_buffer otherwise row st (err e, heap) = err e

  abbrev buffer_and_flush : R → PartitionState R → Result MemoryError (PartitionState R)
  buffer_and_flush row st = flush_buffers (buffered row 0 st.heap st)

  -- After a flush: a row that does not fit even then is written at once.
  unfoldable pub buffer_or_write : R → PartitionState R → Result MemoryError (PartitionState R)
  unfolding try_buffer flush_buffers
  buffer_or_write row st =
      try_buffer (buffer_and_flush row) row st (try_reserve (pos (size row)) self st.heap)

  abbrev flush_first : R → PartitionState R → Result MemoryError (PartitionState R)
  flush_first row st = do st' ← flush_buffers st; buffer_or_write row st'

  unfoldable pub partition_row : R → PartitionState R → Result MemoryError (PartitionState R)
  unfolding buffer_or_write
  partition_row row st =
      try_buffer (flush_first row) row st (try_reserve (pos (size row)) self st.heap)

  unfoldable pub partition_all : List R → PartitionState R → Result MemoryError (PartitionState R)
  unfolding partition_row
  partition_all [] st = flush_buffers st
  partition_all (row ∷ rows) st = do st' ← partition_row row st; partition_all rows st'

  unfoldable pub partition_rows : List R → Heap → Result MemoryError (PartitionState R)
  unfolding partition_all
  partition_rows rows heap =
      partition_all rows
        (record { files = λ partition. []; buffers = λ partition. []; reserved = 0; heap = heap })

abbrev pub both_batches :
    {R : Type 0} → Option (List (List R)) → Option (List (List R)) → Option (List (List R))
both_batches none later = none
both_batches (some batches) none = none
both_batches (some batches) (some later) = some (batches ++ later)

-- The loop of `_execute_partitioned` over the partitions, where the build rows of each fit in memory:
-- then `_join_partition` is `_hash_partition_rows`.
unfoldable pub hash_join_partitions :
    {R K : Type 0} → Join R K → (ℕ → List R) → (ℕ → List R) → List ℕ → Option (List (List R))
unfolding hash_partition_rows
hash_join_partitions j build_files probe_files [] = some []
hash_join_partitions j build_files probe_files (partition ∷ partitions) =
    both_batches (hash_partition_rows j (build_files partition) (probe_files partition))
      (hash_join_partitions j build_files probe_files partitions)
