-- ===== src/Operators/Joins/Partitions/Gather.antt =====
-- Joining partition by partition gives the rows of one join, in another order.
use mathlib.Core.List.{Perm}
use mathlib.Core.List.Perm
use mathlib.Core.Path.{ap₂}
use distributed_sql.Prelude.{
  ℕ, zero, suc, ◌<◌, ◌≤◌, ◌==◌, ◌≡◌, refl, sym, ap, ◌%◌, map-append, flatten-append, fun_ext, ◌∙◌,
  Bool, true, not, Option, none, some, List, [], ◌∷◌, ◌++◌, map, flatten, keep, if◌then◌else◌,
  arith,
}
use distributed_sql.Operators.Joins.{Join}
use distributed_sql.Operators.Joins.Hash.{hash_partition_rows-nested_loop_join}
use distributed_sql.Operators.Joins.Partitions.{join_partition_number, hash_join_partitions}
use distributed_sql.Operators.Joins.Reference.{
  IsKeyEquality, keys_match, pairs_with, extended, joined_with, is_lonely, lonely_rows,
  nested_loop_join,
}
use distributed_sql.Operators.Joins.Partitions.Blocks.{
  upto, Perm-of_eq, Perm-halves, blocks-Perm, keep-keep, any-keep, keep-flatten, map-keep_congr,
}

module _ {R K : Type 0} (j : Join R K) (number : Option K → ℕ)
    (agrees : (a b : K) → j.same a b ≡ true → number (some a) ≡ number (some b)) where
  abbrev pub build_part : ℕ → List R → List R
  build_part i rows = keep (λ r. number (j.build_key r) == i) rows

  abbrev pub probe_part : ℕ → List R → List R
  probe_part i rows = keep (λ r. number (j.probe_key r) == i) rows

  keys_match-number :
      (build probe : Option K) → keys_match j.same build probe ≡ true → number build ≡ number probe
  keys_match-number none none h = refl
  keys_match-number (some a) none h = cc
  keys_match-number none (some b) h = cc
  keys_match-number (some a) (some b) h = agrees a b h

  joined_with-part :
      (build_rows : List R) (i : ℕ) (probe : R)
      → (number (j.probe_key probe) == i) ≡ true
      → joined_with j (build_part i build_rows) probe ≡ joined_with j build_rows probe
  joined_with-part build_rows i probe here = ap (extended j probe) (
      keep-keep (pairs_with j probe) (λ r. number (j.build_key r) == i)
        (λ row pairs.
          ap (λ n. n == i) (keys_match-number (j.build_key row) (j.probe_key probe) pairs) ∙ here)
        build_rows)

  -- What a build row gives if it is lonely.
  abbrev alone : List R → R → List R
  alone probe_rows row =
      if j.build_preserved
      then (if is_lonely j probe_rows row then j.merge row j.null_probe ∷ [] else [])
      else []

  alone-part :
      (probe_rows : List R) (i : ℕ) (row : R)
      → (number (j.build_key row) == i) ≡ true
      → alone (probe_part i probe_rows) row ≡ alone probe_rows row
  alone-part probe_rows i row here =
      ap
        (λ b.
          if j.build_preserved then (if not b then j.merge row j.null_probe ∷ [] else []) else [])
        (any-keep (λ probe. pairs_with j probe row) (λ r. number (j.probe_key r) == i)
          (λ probe pairs.
            ap (λ n. n == i) (sym (keys_match-number (j.build_key row) (j.probe_key probe) pairs))
            ∙ here)
          probe_rows)

  lonely_rows-alone :
      (build_rows probe_rows : List R)
      → lonely_rows j build_rows probe_rows ≡ flatten (map (alone probe_rows) build_rows)
  lonely_rows-alone build_rows probe_rows =
      keep-flatten j.build_preserved (is_lonely j probe_rows) (λ row. j.merge row j.null_probe)
        build_rows

  -- Where there are so many partitions, and equal keys have one number: joining the partitions one
  -- after the other gives the rows of the nested-loop join of all rows, in some order.
  pub partitioned-nested_loop_join :
      (n : ℕ)
      → ((key : Option K) → number key < n)
      → (build_rows probe_rows : List R)
      → Perm
          (flatten (
            map
              (λ i. nested_loop_join j (build_part i build_rows) (probe_part i probe_rows))
              (upto 0 n)))
          (nested_loop_join j build_rows probe_rows)
  partitioned-nested_loop_join n enough build_rows probe_rows =
      let part : (i : ℕ)
          → nested_loop_join j (build_part i build_rows) (probe_part i probe_rows)
            ≡ flatten (map (joined_with j build_rows) (probe_part i probe_rows))
              ++ flatten (map (alone probe_rows) (build_part i build_rows)) =
        λ i.
          ap₂ ◌++◌
            (ap flatten (
              map-keep_congr (joined_with j (build_part i build_rows)) (joined_with j build_rows)
                (λ r. number (j.probe_key r) == i)
                (λ probe here. joined_with-part build_rows i probe here) probe_rows))
            (lonely_rows-alone (build_part i build_rows) (probe_part i probe_rows)
              ∙ ap flatten (
                  map-keep_congr (alone (probe_part i probe_rows)) (alone probe_rows)
                    (λ r. number (j.build_key r) == i)
                    (λ row here. alone-part probe_rows i row here) build_rows)) in
      Perm.trans (Perm-of_eq (ap (λ f. flatten (map f (upto 0 n))) (fun_ext part))) (
        Perm.trans
          (Perm-halves (λ i. flatten (map (joined_with j build_rows) (probe_part i probe_rows)))
            (λ i. flatten (map (alone probe_rows) (build_part i build_rows))) (upto 0 n))
          (Perm.trans
            (Perm.append
              (blocks-Perm (joined_with j build_rows) (λ r. number (j.probe_key r)) n
                (λ r. enough (j.probe_key r)) probe_rows)
              (blocks-Perm (alone probe_rows) (λ r. number (j.build_key r)) n
                (λ r. enough (j.build_key r)) build_rows))
            (Perm-of_eq (
              ap (λ l. flatten (map (joined_with j build_rows) probe_rows) ++ l)
                (sym (lonely_rows-alone build_rows probe_rows))))))

%-lt : (next n : ℕ) → next % suc n < suc n
%-lt next n = omega arith

number-lt :
    {K : Type 0} (hash : K → ℕ) (count : ℕ)
    → 1 ≤ count
    → (key : Option K) → join_partition_number hash count key < count
unfolding join_partition_number
number-lt hash count h none = omega arith
number-lt hash zero h (some key) = absurd (omega arith)
number-lt hash (suc n) h (some key) = %-lt (hash key) n

numbers-agree :
    {K : Type 0} {same : K → K → Bool} (hash : K → ℕ) (count : ℕ)
    → ((a b : K) → same a b ≡ true → hash a ≡ hash b)
    → (a b : K) → same a b ≡ true
    → join_partition_number hash count (some a) ≡ join_partition_number hash count (some b)
unfolding join_partition_number
numbers-agree hash count agrees a b h = ap (λ n. n % count) (agrees a b h)

module _ {R K : Type 0} (j : Join R K) (some_size : 1 ≤ j.batch_size)
    (equality : IsKeyEquality j.same) where
  hash_join_partitions-rows :
      (build_files probe_files : ℕ → List R) (partitions : List ℕ)
      → (batches : List (List R)) × (hash_join_partitions j build_files probe_files partitions
          ≡ some batches)
        × (flatten batches
            ≡ map j.fit (
                flatten (map (λ i. nested_loop_join j (build_files i) (probe_files i)) partitions)))
  unfolding hash_join_partitions
  hash_join_partitions-rows build_files probe_files [] = ([], refl, refl)
  hash_join_partitions-rows build_files probe_files (i ∷ partitions) =
      let (batches, done, rows) =
        hash_partition_rows-nested_loop_join j some_size equality (build_files i) (probe_files i) in
      let (later, done', rows') = hash_join_partitions-rows build_files probe_files partitions in
      (
        batches ++ later,
        rw (done, done') refl,
        flatten-append batches later
            ∙ ap₂ ◌++◌ rows rows'
            ∙ sym (
                map-append j.fit (nested_loop_join j (build_files i) (probe_files i)) (
                  flatten
                    (map (λ p. nested_loop_join j (build_files p) (probe_files p)) partitions))),
      )

  -- With batches of a positive size and some partitions, where equality of keys is an equivalence and
  -- equal keys have the same hash: joining the partitions one after the other, each in memory, reads
  -- no row that is not there and yields the rows of the nested-loop join of all rows, in some order.
  pub hash_join_partitions-Perm :
      (hash : K → ℕ) (count : ℕ)
      → 1 ≤ count
      → ((a b : K) → j.same a b ≡ true → hash a ≡ hash b)
      → (build_rows probe_rows : List R)
      → (batches : List (List R)) × (hash_join_partitions j
            (λ i. keep (λ r. join_partition_number hash count (j.build_key r) == i) build_rows)
            (λ i. keep (λ r. join_partition_number hash count (j.probe_key r) == i) probe_rows)
            (upto 0 count)
          ≡ some batches)
        × Perm (flatten batches) (map j.fit (nested_loop_join j build_rows probe_rows))
  hash_join_partitions-Perm hash count some_count agrees build_rows probe_rows =
      let number : Option K → ℕ = join_partition_number hash count in
      let (batches, done, rows) =
        hash_join_partitions-rows (λ i. keep (λ r. number (j.build_key r) == i) build_rows)
          (λ i. keep (λ r. number (j.probe_key r) == i) probe_rows) (upto 0 count) in
      (
        batches,
        done,
        Perm.trans (Perm-of_eq rows) (
            Perm.map j.fit (
              partitioned-nested_loop_join j number (numbers-agree hash count agrees) count
                (number-lt hash count some_count) build_rows probe_rows)),
      )
