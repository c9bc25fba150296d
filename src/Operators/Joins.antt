-- ===== src/Operators/Joins.antt =====
-- `HashJoinOperator`: keys, the hash table of the build side and the loop over the probe side. Rows
-- and keys are of any type where only their comparison and union matter; `none` stands for an
-- IndexError.
pub mod Reference
pub mod Table
pub mod Hash
pub mod Partitions
use mathlib.Core.Option
use distributed_sql.Prelude.{
  ℕ, zero, suc, ◌+◌, ◌==◌, leb, String, Bool, true, false, not, ◌&&◌, ◌||◌, Option, none, some,
  List, [], ◌∷◌, ◌++◌, any, map, length, get_elem?, insert, Result, ok, err, ◌>>=◌, if◌then◌else◌,
}
use distributed_sql.Planner.Types.{Raised}
use distributed_sql.Planner.Values
use distributed_sql.Planner.Values.{SqlValue, Python, py_equals}
use distributed_sql.Planner.Expressions.{Expression}
use distributed_sql.Planner.Evaluate.{Row, evaluate}
use distributed_sql.Operators.Batches.{batches_from_rows}

pub data JoinType : Type 0 where
  inner left right full : JoinType

pub data Side : Type 0 where
  left_side right_side : Side

unfoldable pub side_is_preserved : JoinType → Side → Bool
side_is_preserved full side = true
side_is_preserved left left_side = true
side_is_preserved right right_side = true
side_is_preserved _ _ = false

module _ {O : Type 0} (py : Python O) where
  -- `tuple(expression.evaluate(row) for expression in expressions)`
  unfoldable pub key_values : List (Expression O) → Row O → Result Raised (List (SqlValue O))
  key_values [] row = ok []
  key_values (e ∷ expressions) row = do
    value ← evaluate py e row
    rest ← key_values expressions row
    ok (value ∷ rest)

  unfoldable pub join_key : List (Expression O) → Row O → Result Raised (Option (List (SqlValue O)))
  unfolding key_values
  join_key expressions row = do
    values ← key_values expressions row
    ok (if any Values.is_null values then none else some values)

  -- Equality of tuples.
  unfoldable pub same_key : List (SqlValue O) → List (SqlValue O) → Bool
  same_key [] [] = true
  same_key (a ∷ key) (b ∷ asked) = py_equals py a b && same_key key asked
  same_key _ _ = false

module _ {O : Type 0} where
  -- `a | b`
  unfoldable pub union_row : Row O → Row O → Row O
  union_row a [] = a
  union_row a ((name, value) ∷ b) = union_row (insert name value a) b

  -- `dict.fromkeys(names)`
  unfoldable pub null_row : List String → Row O → Row O
  null_row [] found = found
  null_row (name ∷ names) found = null_row names (insert name SqlValue.null found)

-- What the loops of a join read: the keys of both sides, the union of a build row with a probe row,
-- the rows of nulls, which sides are preserved, and how batches are made.
pub record Join (R K : Type 0) : Type 0 where
  pub same : K → K → Bool
  pub build_key : R → Option K
  pub probe_key : R → Option K
  pub merge : R → R → R
  pub null_build : R
  pub null_probe : R
  pub build_preserved : Bool
  pub probe_preserved : Bool
  pub fit : R → R
  pub batch_size : ℕ

-- The attributes of a `HashJoinOperator` that its loops read.
pub record HashJoin (O : Type 0) : Type 0 where
  pub left_keys : List (Expression O)
  pub right_keys : List (Expression O)
  pub join_type : JoinType
  pub left_columns : List String
  pub right_columns : List String
  pub build_side : Side

-- `key_of` is `join_key`, where it does not raise.
module _ {O : Type 0} (py : Python O)
    (key_of : List (Expression O) → Row O → Option (List (SqlValue O))) (fit : Row O → Row O) where
  unfoldable pub join_of : ℕ → HashJoin O → Join (Row O) (List (SqlValue O))
  unfolding same_key union_row null_row side_is_preserved
  join_of batch_size j = elim j.build_side [
    | left_side ↦ record {
      same = same_key py;
      build_key = key_of j.left_keys;
      probe_key = key_of j.right_keys;
      merge = union_row;
      null_build = null_row j.left_columns [];
      null_probe = null_row j.right_columns [];
      build_preserved = side_is_preserved j.join_type left_side;
      probe_preserved = side_is_preserved j.join_type right_side;
      fit = fit;
      batch_size = batch_size;
    }
    | right_side ↦ record {
      same = same_key py;
      build_key = key_of j.right_keys;
      probe_key = key_of j.left_keys;
      merge = λ build probe. union_row probe build;
      null_build = null_row j.right_columns [];
      null_probe = null_row j.left_columns [];
      build_preserved = side_is_preserved j.join_type right_side;
      probe_preserved = side_is_preserved j.join_type left_side;
      fit = fit;
      batch_size = batch_size;
    }
  ]

abbrev pub elem : ℕ → List ℕ → Bool
elem i [] = false
elem i (j ∷ js) = i == j || elem i js

module _ {K : Type 0} (same : K → K → Bool) where
  -- `table.setdefault(key, []).append(index)`
  unfoldable pub add_index : K → ℕ → List (K × List ℕ) → List (K × List ℕ)
  add_index key index [] = (key, index ∷ []) ∷ []
  add_index key index ((at, indices) ∷ table) =
      if same at key
      then (at, indices ++ index ∷ []) ∷ table
      else (at, indices) ∷ add_index key index table

  -- `if key is not None`
  unfoldable pub enter : Option K → ℕ → List (K × List ℕ) → List (K × List ℕ)
  unfolding add_index
  enter none index table = table
  enter (some key) index table = add_index key index table

  -- `table.get(key, [])`
  unfoldable pub indices_of : K → List (K × List ℕ) → List ℕ
  indices_of key [] = []
  indices_of key ((at, indices) ∷ table) = if same at key then indices else indices_of key table

  -- `[] if key is None else table.get(key, [])`
  unfoldable pub matches_of : Option K → List (K × List ℕ) → List ℕ
  unfolding indices_of
  matches_of none table = []
  matches_of (some key) table = indices_of key table

  module _ {R : Type 0} where
    -- The loop over `enumerate(build_rows)`, from an index on.
    unfoldable pub build_table : (R → Option K) → ℕ → List R → List (K × List ℕ) → List (K × List ℕ)
    unfolding enter
    build_table key_of index [] table = table
    build_table key_of index (row ∷ rows) table =
        build_table key_of (suc index) rows (enter (key_of row) index table)

-- The variables of the loop over the probe rows, and the batches that were yielded.
pub record ProbeState (R : Type 0) : Type 0 where
  pub matched : List ℕ
  pub output : List R
  pub yielded : List (List R)

abbrev pub and_then : {A B : Type 0} → (A → Option B) → Option A → Option B
and_then f none = none
and_then f (some a) = f a

module _ {R K : Type 0} (j : Join R K) where
  abbrev join_found : R → Option (List R) → Option R → Option (List R)
  join_found probe_row rest none = none
  join_found probe_row rest (some build_row) =
      Option.map (λ rows. j.merge build_row probe_row ∷ rows) rest

  -- The unions of a probe row with the build rows at the indices.
  unfoldable pub joined_rows : List R → R → List ℕ → Option (List R)
  joined_rows build_rows probe_row [] = some []
  joined_rows build_rows probe_row (index ∷ indices) =
      join_found probe_row (joined_rows build_rows probe_row indices) (get_elem? build_rows index)

  -- `_emit`, after `len(output) >= context.batch_size`.
  unfoldable pub flush : ProbeState R → ProbeState R
  unfolding batches_from_rows
  flush st =
      if leb j.batch_size (length st.output)
      then record st {
        output = [];
        yielded = st.yielded ++ batches_from_rows j.fit j.batch_size st.output;
      }
      else st

  unfoldable pub probe_one : List R → R → List ℕ → ProbeState R → Option (ProbeState R)
  unfolding joined_rows flush
  probe_one build_rows probe_row [] st = some (
      flush (
        if j.probe_preserved
        then record st { output = st.output ++ j.merge j.null_build probe_row ∷ [] }
        else st))
  probe_one build_rows probe_row (index ∷ indices) st =
      Option.map
        (λ rows.
          flush (record st { matched = st.matched ++ index ∷ indices; output = st.output ++ rows }))
        (joined_rows build_rows probe_row (index ∷ indices))

  unfoldable pub probe_all :
      List (K × List ℕ) → List R → List R → ProbeState R → Option (ProbeState R)
  unfolding probe_one matches_of
  probe_all table build_rows [] st = some st
  probe_all table build_rows (row ∷ probe_rows) st =
      and_then (λ st'. probe_all table build_rows probe_rows st')
        (probe_one build_rows row (matches_of j.same (j.probe_key row) table) st)

  -- The build rows whose index is not in `matched`, from an index on.
  unfoldable pub unmatched_rows : List ℕ → ℕ → List R → List R
  unmatched_rows matched index [] = []
  unmatched_rows matched index (row ∷ rows) =
      let rest = unmatched_rows matched (suc index) rows in
      if elem index matched then rest else j.merge row j.null_probe ∷ rest

  -- What is yielded after the last probe row.
  unfoldable pub finish_join : List R → ProbeState R → List (List R)
  unfolding unmatched_rows batches_from_rows
  finish_join build_rows st =
      st.yielded
      ++ batches_from_rows j.fit j.batch_size (
          if j.build_preserved
          then st.output ++ unmatched_rows st.matched 0 build_rows
          else st.output)

  unfoldable pub hash_partition_rows : List R → List R → Option (List (List R))
  unfolding build_table probe_all finish_join
  hash_partition_rows build_rows probe_rows = Option.map (finish_join build_rows) (
      probe_all (build_table j.same j.build_key 0 build_rows []) build_rows probe_rows
        (record { matched = []; output = []; yielded = [] }))
