-- ===== src/Operators/Joins/Partitions/Spread.antt =====
-- The files of a partition hold its rows, in their order, wherever memory runs out.
use distributed_sql.Prelude.{
  ℕ, ◌+◌, ◌==◌, ◌≡◌, refl, sym, ap, ◌∙◌, subst, some, List, [], ◌∷◌, ◌++◌, keep, keep-append,
  append-nil, append_assoc, Bool-cases, ok, inl, inr, arith,
}
use distributed_sql.Prelude.Int.{ℤ, pos, ◌≤ℤ◌}
use distributed_sql.Memory.{Heap}
use distributed_sql.Memory.Chain.{IsTree}
use distributed_sql.Memory.Limits.{current_of}
use distributed_sql.Memory.Charged.{Charged, Charged-refl, Charged-zero}
use distributed_sql.Operators.Sorting.External.{Granted-of, give_back-Charged}
use distributed_sql.Operators.Joins.Partitions.{
  PartitionState, written, flush_buffers, buffered, buffer_or_write, partition_row, partition_all,
  partition_rows,
}

module _ (before : Heap) (self : ℕ) (tree : IsTree before) (base : ℤ)
    (found : current_of before self ≡ some base) (owned : pos 0 ≤ℤ base) {R : Type 0}
    (number : R → ℕ) (read_back : List R → List R)
    (faithful : (rows : List R) → read_back rows ≡ rows) (size : R → ℕ) where
  abbrev pub rows_in : ℕ → List R → List R
  rows_in partition rows = keep (λ row. number row == partition) rows

  -- After so many rows: what is in the files and then in the buffers, and what is reserved.
  record Holds (taken : List R) (st : PartitionState R) : Type 0 where
    there : (partition : ℕ) → st.files partition ++ st.buffers partition ≡ rows_in partition taken
    charged : Charged before self st.reserved st.heap

  written-append :
      (file rows : List R) → written number read_back size self file rows ≡ file ++ rows
  written-append file [] = sym (append-nil file)
  written-append file (row ∷ rows) = ap (λ l. file ++ l) (faithful (row ∷ rows))

  flush_buffers-Holds :
      (taken : List R) (st : PartitionState R)
      → Holds taken st
      → (st' : PartitionState R) × (flush_buffers number read_back size self st ≡ ok st')
        × Holds taken st'
        × ((partition : ℕ) → st'.buffers partition ≡ [])
        × (st'.reserved ≡ 0)
  unfolding flush_buffers
  flush_buffers-Holds taken st h =
      let (heap, done, charged) =
        give_back-Charged before self tree base found owned st.reserved st.heap h.charged in
      (
        record {
          files = λ partition.
              written number read_back size self (st.files partition) (st.buffers partition);
          buffers = λ partition. [];
          reserved = 0;
          heap = heap;
        },
        rw done refl,
        record {
          there = λ partition.
              append-nil
                (written number read_back size self (st.files partition) (st.buffers partition))
              ∙ written-append (st.files partition) (st.buffers partition)
              ∙ h.there partition;
          charged = charged;
        },
        (λ partition. refl),
        refl,
      )

  buffered-Holds :
      (taken : List R) (row : R) (charge : ℕ) (heap : Heap) (st : PartitionState R)
      → Holds taken st
      → Charged before self (st.reserved + charge) heap
      → Holds (taken ++ row ∷ []) (buffered number read_back size self row charge heap st)
  buffered-Holds taken row charge heap st h charged = record {
    there = λ partition.
        let whole = keep-append (λ r. number r == partition) taken (row ∷ []) in
        elim (Bool-cases (number row == partition)) [
          | inl mine ↦ rw mine (
              sym (append_assoc (st.files partition) (st.buffers partition) (row ∷ []))
              ∙ ap (λ l. l ++ row ∷ []) (h.there partition)
              ∙ sym (rw mine at whole))
          | inr other ↦ rw other (
              h.there partition
              ∙ sym (append-nil (rows_in partition taken))
              ∙ sym (rw other at whole))
        ];
    charged = charged;
  }

  buffer_or_write-Holds :
      (taken : List R) (row : R) (st : PartitionState R)
      → Holds taken st
      → (st' : PartitionState R) × (buffer_or_write number read_back size self row st ≡ ok st')
        × Holds (taken ++ row ∷ []) st'
  unfolding buffer_or_write
  buffer_or_write-Holds taken row st h =
      elim (Granted-of before self tree st.heap st.reserved (size row) h.charged) [
        | inl (heap, granted, charged) ↦ (
          buffered number read_back size self row (size row) heap st,
          rw granted refl,
          buffered-Holds taken row (size row) heap st h charged,
        )
        | inr refused ↦
            let same = subst (λ n. Charged before self n st.heap) (omega arith) h.charged in
            let (st', done, h', _, _) =
              flush_buffers-Holds (taken ++ row ∷ [])
                (buffered number read_back size self row 0 st.heap st)
                (buffered-Holds taken row 0 st.heap st h same) in
            (st', rw refused done, h')
      ]

  partition_row-Holds :
      (taken : List R) (row : R) (st : PartitionState R)
      → Holds taken st
      → (st' : PartitionState R) × (partition_row number read_back size self row st ≡ ok st')
        × Holds (taken ++ row ∷ []) st'
  unfolding partition_row
  partition_row-Holds taken row st h =
      elim (Granted-of before self tree st.heap st.reserved (size row) h.charged) [
        | inl (heap, granted, charged) ↦ (
          buffered number read_back size self row (size row) heap st,
          rw granted refl,
          buffered-Holds taken row (size row) heap st h charged,
        )
        | inr refused ↦
            let (st', flushed, h', _, _) = flush_buffers-Holds taken st h in
            let (st'', done, h'') = buffer_or_write-Holds taken row st' h' in
            (st'', rw (refused, flushed) done, h'')
      ]

  partition_all-Holds :
      (taken rows : List R) (st : PartitionState R)
      → Holds taken st
      → (st' : PartitionState R) × (partition_all number read_back size self rows st ≡ ok st')
        × ((partition : ℕ) → st'.files partition ≡ rows_in partition (taken ++ rows))
        × Charged before self st'.reserved st'.heap
        × (st'.reserved ≡ 0)
  unfolding partition_all
  partition_all-Holds taken [] st h =
      let (st', done, h', emptied, none_held) = flush_buffers-Holds taken st h in
      (
        st',
        done,
        (λ partition.
            sym (append-nil (st'.files partition))
            ∙ ap (λ l. st'.files partition ++ l) (sym (emptied partition))
            ∙ h'.there partition
            ∙ ap (rows_in partition) (sym (append-nil taken))),
        h'.charged,
        none_held,
      )
  partition_all-Holds taken (row ∷ rows) st h =
      let (st', done, h') = partition_row-Holds taken row st h in
      let (st'', done', files, charged, none_held) =
        partition_all-Holds (taken ++ row ∷ []) rows st' h' in
      (
        st'',
        rw done done',
        (λ partition.
            files partition ∙ ap (rows_in partition) (append_assoc taken (row ∷ []) rows)),
        charged,
        none_held,
      )

  -- In a heap whose accounts are younger than their parents, where the account's balance is not
  -- negative and files give back the rows written to them: however often memory runs out, the rows
  -- are spread with success. The files of each partition hold exactly the rows with its number, in
  -- their order, and every account has as many bytes in use as before.
  pub partition_rows-keep :
      (rows : List R)
      → (st : PartitionState R) × (partition_rows number read_back size self rows before ≡ ok st)
        × ((partition : ℕ) → st.files partition ≡ keep (λ row. number row == partition) rows)
        × ((a : ℕ) → current_of st.heap a ≡ current_of before a)
  unfolding partition_rows
  partition_rows-keep rows =
      let (st, done, files, charged, none_held) =
        partition_all-Holds [] rows
          (record {
            files = λ partition. [];
            buffers = λ partition. [];
            reserved = 0;
            heap = before;
          })
          (record { there = λ partition. refl; charged = Charged-refl before self tree }) in
      (
        st,
        done,
        files,
        Charged-zero before self tree
            (subst (λ n. Charged before self n st.heap) none_held charged),
      )
