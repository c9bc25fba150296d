-- ===== src/Operators/Joins/Hash.antt =====
-- The hash join yields the rows of the nested-loop join, in its order.
use mathlib.Core.Path.{ap₂}
use distributed_sql.Prelude.{
  ℕ, suc, ◌+◌, ◌≤◌, ◌≡◌, refl, sym, ap, ◌∙◌, Bool, true, false, ◌||◌, some, List, [], ◌∷◌, ◌++◌,
  map, flatten, map-append, flatten-append, length-append, get_elem?-append, any, keep, get_elem?,
  leb, length, append_assoc, append-nil, Bool-cases, if◌then◌else◌, arith, inl, inr,
}
use distributed_sql.Operators.Batches.{batches_from_rows}
use distributed_sql.Operators.Batches.Rows.{batches_from_rows_lem}
use distributed_sql.Operators.Joins.{
  Join, ProbeState, elem, build_table, joined_rows, flush, probe_one, probe_all, unmatched_rows,
  finish_join, hash_partition_rows,
}
use distributed_sql.Operators.Joins.Reference.{
  IsKeyEquality, pairs_with, extended, joined_with, is_lonely, lonely_rows, nested_loop_join,
}
use distributed_sql.Operators.Joins.Table.{places, elem-places, matches_of-build_table}

module _ {R K : Type 0} (j : Join R K) (some_size : 1 ≤ j.batch_size) where
  -- The rows that a state stands for: those that were yielded, then those that wait.
  abbrev held : ProbeState R → List R
  held st = flatten st.yielded ++ map j.fit st.output

  flush-held : (st : ProbeState R) → held (flush j st) ≡ held st
  unfolding flush
  flush-held st = elim (Bool-cases (leb j.batch_size (length st.output))) [
    | inl full ↦ rw full (
        append-nil (flatten (st.yielded ++ batches_from_rows j.fit j.batch_size st.output))
        ∙ flatten-append st.yielded (batches_from_rows j.fit j.batch_size st.output)
        ∙ ap (λ l. flatten st.yielded ++ l)
            (batches_from_rows_lem j.fit j.batch_size some_size st.output).0)
    | inr small ↦ rw small refl
  ]

  flush-matched : (st : ProbeState R) → (flush j st).matched ≡ st.matched
  unfolding flush
  flush-matched st = elim (Bool-cases (leb j.batch_size (length st.output))) [
    | inl full ↦ rw full refl
    | inr small ↦ rw small refl
  ]

  -- The places are places of rows.
  joined_rows-places :
      (p : R → Bool) (probe : R) (before rows : List R)
      → joined_rows j (before ++ rows) probe (places p (length before) rows)
        ≡ some (map (λ row. j.merge row probe) (keep p rows))
  unfolding joined_rows
  joined_rows-places p probe before [] = refl
  joined_rows-places p probe before (row ∷ rows) =
      let moved = append_assoc before (row ∷ []) rows in
      let longer : length (before ++ row ∷ []) ≡ suc (length before) =
        omega (arith, length-append before (row ∷ [])) in
      let later =
        ap₂ (λ l i. joined_rows j l probe (places p i rows)) (sym moved) (sym longer)
        ∙ joined_rows-places p probe (before ++ row ∷ []) rows in
      elim (Bool-cases (p row)) [
        | inl passes ↦ rw (passes, get_elem?-append before row rows, later) refl
        | inr fails ↦ rw fails later
      ]

  abbrev partners : List R → R → List ℕ
  partners build_rows probe = places (λ row. pairs_with j probe row) 0 build_rows

  held-push :
      (st : ProbeState R) (matched : List ℕ) (rows : List R)
      → held (flush j (record st { matched = matched; output = st.output ++ rows }))
        ≡ held st ++ map j.fit rows
  held-push st matched rows =
      flush-held (record st { matched = matched; output = st.output ++ rows })
      ∙ ap (λ l. flatten st.yielded ++ l) (map-append j.fit st.output rows)
      ∙ sym (append_assoc (flatten st.yielded) (map j.fit st.output) (map j.fit rows))

  -- What one probe row does.
  probe_one-held :
      (build_rows : List R) (probe : R) (indices : List ℕ) (rows : List R) (st : ProbeState R)
      → joined_rows j build_rows probe indices ≡ some (map (λ row. j.merge row probe) rows)
      → length indices ≡ length rows
      → (st' : ProbeState R) × (probe_one j build_rows probe indices st ≡ some st')
        × (held st' ≡ held st ++ map j.fit (extended j probe rows))
        × (st'.matched ≡ st.matched ++ indices)
  unfolding probe_one
  probe_one-held build_rows probe [] [] st h n =
      let next = record st { output = st.output ++ j.merge j.null_build probe ∷ [] } in
      let none_matched = sym (append-nil st.matched) in
      elim (Bool-cases j.probe_preserved) [
        | inl kept ↦ (
          flush j next,
          rw kept refl,
          rw kept (held-push st st.matched (j.merge j.null_build probe ∷ [])),
          flush-matched next ∙ none_matched,
        )
        | inr dropped ↦ (
          flush j st,
          rw dropped refl,
          rw dropped (flush-held st ∙ sym (append-nil (held st))),
          flush-matched st ∙ none_matched,
        )
      ]
  probe_one-held build_rows probe [] (row ∷ rows) st h n = absurd (omega arith)
  probe_one-held build_rows probe (i ∷ indices) [] st h n = absurd (omega arith)
  probe_one-held build_rows probe (i ∷ indices) (row ∷ rows) st h n =
      let next = record st {
        matched = st.matched ++ i ∷ indices;
        output = st.output ++ map (λ r. j.merge r probe) (row ∷ rows);
      } in
      (
        flush j next,
        rw h refl,
        held-push st (st.matched ++ i ∷ indices) (map (λ r. j.merge r probe) (row ∷ rows)),
        flush-matched next,
      )

  length-places :
      (p : R → Bool) (index : ℕ) (rows : List R)
      → length (places p index rows) ≡ length (keep p rows)
  length-places p index [] = refl
  length-places p index (row ∷ rows) = elim (Bool-cases (p row)) [
    | inl passes ↦ rw passes (ap suc (length-places p (suc index) rows))
    | inr fails ↦ rw fails (length-places p (suc index) rows)
  ]

  module _ (equality : IsKeyEquality j.same) (build_rows : List R) where
    abbrev table : List (K × List ℕ)
    table = build_table j.same j.build_key 0 build_rows []

    probe_all-held :
        (probe_rows : List R) (st : ProbeState R)
        → (st' : ProbeState R) × (probe_all j table build_rows probe_rows st ≡ some st')
          × (held st' ≡ held st ++ map j.fit (flatten (map (joined_with j build_rows) probe_rows)))
          × (st'.matched ≡ st.matched ++ flatten (map (partners build_rows) probe_rows))
    unfolding probe_all
    probe_all-held [] st = (st, refl, sym (append-nil (held st)), sym (append-nil st.matched))
    probe_all-held (probe ∷ probe_rows) st =
        let found =
          matches_of-build_table j.same equality j.build_key (j.probe_key probe) build_rows in
        let (st', one, holds, marks) =
          probe_one-held build_rows probe (partners build_rows probe)
            (keep (pairs_with j probe) build_rows) st
            (joined_rows-places (pairs_with j probe) probe [] build_rows)
            (length-places (pairs_with j probe) 0 build_rows) in
        let (st'', rest, holds', marks') = probe_all-held probe_rows st' in
        (
          st'',
          rw (found, one) rest,
          holds'
              ∙ ap (λ l. l ++ map j.fit (flatten (map (joined_with j build_rows) probe_rows))) holds
              ∙ append_assoc (held st) (map j.fit (joined_with j build_rows probe))
                  (map j.fit (flatten (map (joined_with j build_rows) probe_rows)))
              ∙ ap (λ l. held st ++ l)
                  (sym (
                    map-append j.fit (joined_with j build_rows probe)
                      (flatten (map (joined_with j build_rows) probe_rows)))),
          marks'
              ∙ ap (λ l. l ++ flatten (map (partners build_rows) probe_rows)) marks
              ∙ append_assoc st.matched (partners build_rows probe)
                  (flatten (map (partners build_rows) probe_rows)),
        )

elem-append : (i : ℕ) (xs ys : List ℕ) → elem i (xs ++ ys) ≡ (elem i xs || elem i ys)
elem-append i [] ys = refl
elem-append i (x ∷ xs) ys = let later = elem-append i xs ys in ground arith

module _ {R K : Type 0} (j : Join R K) (some_size : 1 ≤ j.batch_size) where
  -- An index is matched where its row pairs with some probe row.
  elem-matched :
      (build_rows probe_rows : List R) (i : ℕ) {row : R}
      → get_elem? build_rows i ≡ some row
      → elem (0 + i) (flatten (map (partners j some_size build_rows) probe_rows))
        ≡ any (λ probe. pairs_with j probe row) probe_rows
  elem-matched build_rows [] i h = refl
  elem-matched build_rows (probe ∷ probe_rows) i h =
      elem-append (0 + i) (partners j some_size build_rows probe)
        (flatten (map (partners j some_size build_rows) probe_rows))
      ∙ ap₂ ◌||◌ (elem-places (pairs_with j probe) i 0 build_rows h)
          (elem-matched build_rows probe_rows i h)

  unmatched_rows-lonely :
      (probe_rows : List R) (matched : List ℕ) (index : ℕ) (rows : List R)
      → ((i : ℕ) (row : R)
          → get_elem? rows i ≡ some row
          → elem (index + i) matched ≡ any (λ probe. pairs_with j probe row) probe_rows)
      → unmatched_rows j matched index rows
        ≡ map (λ row. j.merge row j.null_probe) (keep (is_lonely j probe_rows) rows)
  unfolding unmatched_rows
  unmatched_rows-lonely probe_rows matched index [] h = refl
  unmatched_rows-lonely probe_rows matched index (row ∷ rows) h =
      let later = unmatched_rows-lonely probe_rows matched (suc index) rows (λ i r e.
        let moved : suc index + i ≡ index + suc i = omega arith in
        ap (λ k. elem k matched) moved ∙ h (suc i) r e) in
      let moved : index ≡ index + 0 = omega arith in
      let here : elem index matched ≡ any (λ probe. pairs_with j probe row) probe_rows =
        ap (λ k. elem k matched) moved ∙ h 0 row refl in
      elim (Bool-cases (elem index matched)) [
        | inl found ↦ rw (found, sym here ∙ found) later
        | inr lonely ↦ rw (lonely, sym here ∙ lonely) (ap (λ l. j.merge row j.null_probe ∷ l) later)
      ]

  finish_join-held :
      (build_rows : List R) (st : ProbeState R) (rows : List R)
      → (j.build_preserved ≡ true → unmatched_rows j st.matched 0 build_rows ≡ rows)
      → (j.build_preserved ≡ false → rows ≡ [])
      → flatten (finish_join j build_rows st) ≡ held j some_size st ++ map j.fit rows
  unfolding finish_join
  finish_join-held build_rows st rows kept dropped =
      let last =
        if j.build_preserved
        then st.output ++ unmatched_rows j st.matched 0 build_rows
        else st.output in
      flatten-append st.yielded (batches_from_rows j.fit j.batch_size last)
      ∙ ap (λ l. flatten st.yielded ++ l)
          ((batches_from_rows_lem j.fit j.batch_size some_size last).0
            ∙ elim (Bool-cases j.build_preserved) [
              | inl e ↦ rw (e, kept e) (map-append j.fit st.output rows)
              | inr e ↦ rw (e, dropped e) (sym (append-nil (map j.fit st.output)))
            ])
      ∙ sym (append_assoc (flatten st.yielded) (map j.fit st.output) (map j.fit rows))

  -- With batches of a positive size, where equality of keys is an equivalence: the hash join never
  -- reads a build row that is not there, and its batches hold the rows of the nested-loop join, in
  -- that order: for inner, left, right and full joins and either build side.
  pub hash_partition_rows-nested_loop_join :
      IsKeyEquality j.same
      → (build_rows probe_rows : List R)
      → (batches : List (List R)) × (hash_partition_rows j build_rows probe_rows ≡ some batches)
        × (flatten batches ≡ map j.fit (nested_loop_join j build_rows probe_rows))
  unfolding hash_partition_rows finish_join
  hash_partition_rows-nested_loop_join equality build_rows probe_rows =
      let (st, done, holds, marks) =
        probe_all-held j some_size equality build_rows probe_rows
          (record { matched = []; output = []; yielded = [] }) in
      let joined = flatten (map (joined_with j build_rows) probe_rows) in
      let lonely =
        unmatched_rows-lonely probe_rows st.matched 0 build_rows
          (λ i row e. ap (elem (0 + i)) marks ∙ elem-matched build_rows probe_rows i e) in
      (
        finish_join j build_rows st,
        rw done refl,
        finish_join-held build_rows st (lonely_rows j build_rows probe_rows)
              (λ kept. lonely ∙ sym (rw kept refl)) (λ dropped. rw dropped refl)
            ∙ ap (λ l. l ++ map j.fit (lonely_rows j build_rows probe_rows)) holds
            ∙ sym (map-append j.fit joined (lonely_rows j build_rows probe_rows)),
      )
