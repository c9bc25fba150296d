-- ===== src/Operators/Sorting.antt =====
-- The comparison of rows, `sorted` and `heapq.merge` on it, and `_external_sorted_rows`.
pub mod Merge
pub mod External
use Prim.Native.Nat.{Ordering, lt, eq, gt}
use distributed_sql.Prelude.{
  ℕ, zero, suc, ◌+◌, Bool, true, false, not, List, [], ◌∷◌, ◌++◌, Result, ok, err, ◌>>=◌,
  if◌then◌else◌,
}
use distributed_sql.Prelude.Int.{pos}
use distributed_sql.Planner.Types.{Raised}
use distributed_sql.Planner.Values
use distributed_sql.Planner.Values.{SqlValue, Python, py_less}
use distributed_sql.Planner.Expressions.{SortExpressions, unsorted, sort}
use distributed_sql.Planner.Evaluate.{Row, evaluate}
use distributed_sql.Memory.{Heap, MemoryError, try_reserve, release}

-- -1, 0 and 1 stand as `lt`, `eq` and `gt`.
abbrev pub reversed : Ordering → Ordering
reversed lt = gt
reversed eq = eq
reversed gt = lt

-- `(left > right) - (left < right)`
abbrev pub difference : Bool → Bool → Ordering
difference true true = eq
difference true false = gt
difference false true = lt
difference false false = eq

module _ {O : Type 0} (py : Python O) where
  unfoldable pub compare_values : SqlValue O → SqlValue O → Bool → Bool → Result Raised Ordering
  compare_values left right ascending nulls_first =
      if Values.is_null left
      then ok (if Values.is_null right then eq else if nulls_first then lt else gt)
      else if Values.is_null right
      then ok (if nulls_first then gt else lt)
      else do
        above ← py_less py right left
        below ← py_less py left right
        ok (if ascending then difference above below else reversed (difference above below))

  -- The loop of `compare` over the sort expressions.
  unfoldable pub compare_rows : SortExpressions O → Row O → Row O → Result Raised Ordering
  unfolding compare_values
  compare_rows unsorted left right = ok eq
  compare_rows (sort e ascending nulls_first rest) left right = do
    a ← evaluate py e left
    b ← evaluate py e right
    result ← compare_values a b ascending nulls_first
    (elim result [ eq ↦ compare_rows rest left right | lt ↦ ok lt | gt ↦ ok gt ])

-- From here on rows compare without raising: `compare` is the result.
abbrev pub is_less : Ordering → Bool
is_less lt = true
is_less eq = false
is_less gt = false

module _ {R : Type 0} (compare : R → R → Ordering) where
  -- `sorted(rows, key=cmp_to_key(compare))` is stable: a row goes before the later ones unless one
  -- of them is less.
  unfoldable pub insert_row : R → List R → List R
  insert_row x [] = x ∷ []
  insert_row x (y ∷ ys) = if is_less (compare y x) then y ∷ insert_row x ys else x ∷ y ∷ ys

  unfoldable pub sorted_rows : List R → List R
  unfolding insert_row
  sorted_rows [] = []
  sorted_rows (x ∷ xs) = insert_row x (sorted_rows xs)

  -- `heapq.merge` of two iterators: the first one's row goes first unless the second one's is less.
  unfoldable pub merge_two : List R → List R → List R
  merge_two [] ys = ys
  merge_two (x ∷ xs) [] = x ∷ xs
  merge_two (x ∷ xs) (y ∷ ys) =
      if is_less (compare y x) then y ∷ merge_two (x ∷ xs) ys else x ∷ merge_two xs (y ∷ ys)

  unfoldable pub merge_runs : List (List R) → List R
  unfolding merge_two
  merge_runs [] = []
  merge_runs (run ∷ runs) = merge_two run (merge_runs runs)

-- The variables of `_external_sorted_rows`, and the heap of memory accounts.
pub record SortState (R : Type 0) : Type 0 where
  pub rows : List R
  pub reserved : ℕ
  pub runs : List (List R)
  pub heap : Heap

-- `if reserved: context.memory_account.release(reserved)`
unfoldable pub give_back : ℕ → ℕ → Heap → Result MemoryError Unit × Heap
give_back zero self heap = (ok tt, heap)
give_back (suc n) self heap = release (pos (suc n)) self heap

abbrev pub with_rows :
    {R : Type 0} → List R → Result MemoryError Unit × Heap → Result MemoryError (List R × Heap)
with_rows rows (ok tt, heap) = ok (rows, heap)
with_rows rows (err e, heap) = err e

module _ {R : Type 0} (compare : R → R → Ordering) (read_back : List R → List R) (size : R → ℕ)
    (self : ℕ) where
  abbrev pub with_heap :
      SortState R → Result MemoryError Unit × Heap → Result MemoryError (SortState R)
  with_heap st (ok tt, heap) = ok (record st { heap = heap })
  with_heap st (err e, heap) = err e

  -- `spill_run`: what is read back from the file of a run stands for the file.
  unfoldable pub spill_run : SortState R → Result MemoryError (SortState R)
  unfolding sorted_rows give_back
  spill_run st = elim st.rows [
    | [] ↦ ok st
    | row ∷ rest ↦
        with_heap
          (record {
            rows = [];
            reserved = 0;
            runs = st.runs ++ read_back (sorted_rows compare (row ∷ rest)) ∷ [];
            heap = st.heap;
          })
          (give_back st.reserved self st.heap)
  ]

  abbrev pub hold : R → SortState R → Heap → SortState R
  hold row st heap = record st {
    rows = st.rows ++ row ∷ [];
    reserved = st.reserved + size row;
    heap = heap;
  }

  -- With the answer of `try_reserve`, and what follows a refusal.
  unfoldable pub try_hold :
      (SortState R → Result MemoryError (SortState R))
      → R
      → SortState R
      → Result MemoryError Bool × Heap
      → Result MemoryError (SortState R)
  try_hold otherwise row st (ok true, heap) = ok (hold row st heap)
  try_hold otherwise row st (ok false, heap) = otherwise (record st { heap = heap })
  try_hold otherwise row st (err e, heap) = err e

  abbrev spill_with : R → SortState R → Result MemoryError (SortState R)
  spill_with row st = spill_run (record st { rows = st.rows ++ row ∷ [] })

  -- After a spill: a row that does not fit even then makes a run of its own.
  unfoldable pub hold_or_spill : R → SortState R → Result MemoryError (SortState R)
  unfolding spill_run try_hold
  hold_or_spill row st =
      try_hold (spill_with row) row st (try_reserve (pos (size row)) self st.heap)

  abbrev spill_first : R → SortState R → Result MemoryError (SortState R)
  spill_first row st = do st' ← spill_run st; hold_or_spill row st'

  -- The body of the loop over the rows.
  unfoldable pub take_row : R → SortState R → Result MemoryError (SortState R)
  unfolding hold_or_spill try_hold
  take_row row st = try_hold (spill_first row) row st (try_reserve (pos (size row)) self st.heap)

  unfoldable pub take_rows : List R → SortState R → Result MemoryError (SortState R)
  unfolding take_row
  take_rows [] st = ok st
  take_rows (row ∷ rows) st = do st' ← take_row row st; take_rows rows st'

  -- The rows that are yielded, and the heap after the `finally`.
  unfoldable pub finish_sort : SortState R → Result MemoryError (List R × Heap)
  unfolding merge_runs
  finish_sort st = elim st.runs [
    | [] ↦ with_rows (sorted_rows compare st.rows) (give_back st.reserved self st.heap)
    | run ∷ runs ↦ (do
      st' ← spill_run st
      with_rows (merge_runs compare st'.runs) (give_back st'.reserved self st'.heap))
  ]

  unfoldable pub external_sorted_rows : List R → Heap → Result MemoryError (List R × Heap)
  unfolding take_rows finish_sort
  external_sorted_rows rows heap = do
    st ← take_rows rows (record { rows = []; reserved = 0; runs = []; heap = heap })
    finish_sort st
