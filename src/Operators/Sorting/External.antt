-- ===== src/Operators/Sorting/External.antt =====
-- The external sort gives what one sort of all rows gives, wherever memory runs out, and leaves the
-- memory accounts as it found them.
use Prim.Native.Nat.{Ordering}
use distributed_sql.Prelude.{
  ℕ, zero, suc, ◌+◌, ◌≡◌, refl, sym, ap, ◌∙◌, subst, true, false, some, List, [], ◌∷◌, ◌++◌, map,
  flatten, append_assoc, append-nil, Result, ok, Result-cases, arith, inl, inr, ◌⊎◌,
}
use distributed_sql.Prelude.Int.{ℤ, pos, ◌≤ℤ◌}
use distributed_sql.Memory.{Heap, MemoryError, reserve, try_reserve, release}
use distributed_sql.Memory.Chain.{IsTree}
use distributed_sql.Memory.Limits.{current_of, reserve_atomic}
use distributed_sql.Memory.Charged.{
  Charged, Charged-refl, Charged-reserve, Charged-release, Charged-release_ok, Charged-zero,
}
use distributed_sql.Operators.Sorting.{
  SortState, sorted_rows, merge_runs, give_back, spill_run, hold, hold_or_spill, take_row,
  take_rows, finish_sort, external_sorted_rows,
}
use distributed_sql.Operators.Sorting.Merge.{IsWeakOrder, merge_runs-sorted_rows}

module _ (before : Heap) (self : ℕ) (tree : IsTree before) where
  -- A reservation is granted and charged, or refused with nothing changed.
  abbrev pub Granted : Heap → ℕ → ℕ → Type 0
  Granted h n size =
      ((h' : Heap) × (try_reserve (pos size) self h ≡ (ok true, h'))
        × Charged before self (n + size) h')
      ⊎ (try_reserve (pos size) self h ≡ (ok false, h))

  positive-Granted : (h : Heap) (n k : ℕ) → Charged before self n h → Granted h n (suc k)
  unfolding try_reserve
  positive-Granted h n k charged = elim (Result-cases (reserve (pos (suc k)) self h).0) [
    | inl (tt, done) ↦ inl (
      (reserve (pos (suc k)) self h).1,
      ground arith,
      Charged-reserve before self tree k charged done,
    )
    | inr (e, failed) ↦
        inr (let same = reserve_atomic k self h (pos (suc k)) e failed in ground arith)
  ]

  no_bytes : (h : Heap) → try_reserve (pos 0) self h ≡ (ok true, h)
  unfolding try_reserve reserve
  no_bytes h = refl

  pub Granted-of : (h : Heap) (n size : ℕ) → Charged before self n h → Granted h n size
  Granted-of h n zero charged =
      inl (h, no_bytes h, subst (λ k. Charged before self k h) (omega arith) charged)
  Granted-of h n (suc k) charged = positive-Granted h n k charged

  module _ (base : ℤ) (found : current_of before self ≡ some base) (owned : pos 0 ≤ℤ base) where
    pub give_back-Charged :
        (n : ℕ) (h : Heap)
        → Charged before self n h
        → (h' : Heap) × (give_back n self h ≡ (ok tt, h')) × Charged before self 0 h'
    unfolding give_back
    give_back-Charged zero h charged = (h, refl, charged)
    give_back-Charged (suc k) h charged = (
      (release (pos (suc k)) self h).1,
      (let done = Charged-release_ok before self tree base found owned k charged in ground arith),
      Charged-release before self tree base found owned k charged,
    )

    module _ {R : Type 0} (compare : R → R → Ordering) (order : IsWeakOrder compare)
        (read_back : List R → List R) (faithful : (rows : List R) → read_back rows ≡ rows)
        (size : R → ℕ) where
      -- After so many rows: the runs are sorted pieces of them, the rest is in memory, and what is
      -- reserved is what the heap is charged with.
      record Holds (taken : List R) (st : SortState R) : Type 0 where
        pieces : List (List R)
        runs_sorted : st.runs ≡ map (sorted_rows compare) pieces
        all_there : flatten pieces ++ st.rows ≡ taken
        charged : Charged before self st.reserved st.heap

      flatten-append :
          (xss : List (List R)) (xs : List R) → flatten (xss ++ xs ∷ []) ≡ flatten xss ++ xs
      flatten-append [] xs = append-nil xs
      flatten-append (ys ∷ xss) xs =
          ap (λ l. ys ++ l) (flatten-append xss xs) ∙ sym (append_assoc ys (flatten xss) xs)

      map-append :
          (f : List R → List R) (xss : List (List R)) (xs : List R)
          → map f (xss ++ xs ∷ []) ≡ map f xss ++ f xs ∷ []
      map-append f [] xs = refl
      map-append f (ys ∷ xss) xs = ap (λ l. f ys ∷ l) (map-append f xss xs)

      spill_run-Holds :
          (taken : List R) (rows : List R) (reserved : ℕ) (runs : List (List R)) (heap : Heap)
          → Holds taken (record { rows = rows; reserved = reserved; runs = runs; heap = heap })
          → (st' : SortState R) × (spill_run compare read_back size self
                (record { rows = rows; reserved = reserved; runs = runs; heap = heap })
              ≡ ok st')
            × Holds taken st'
            × (st'.rows ≡ [])
      unfolding spill_run
      spill_run-Holds taken [] reserved runs heap h =
          (record { rows = []; reserved = reserved; runs = runs; heap = heap }, refl, h, refl)
      spill_run-Holds taken (row ∷ rest) reserved runs heap h =
          let (heap', done, charged) = give_back-Charged reserved heap h.charged in
          (
            record {
              rows = [];
              reserved = 0;
              runs = runs ++ read_back (sorted_rows compare (row ∷ rest)) ∷ [];
              heap = heap';
            },
            rw done refl,
            record {
              pieces = h.pieces ++ (row ∷ rest) ∷ [];
              runs_sorted =
                  rw (faithful (sorted_rows compare (row ∷ rest)), h.runs_sorted)
                    (sym (map-append (sorted_rows compare) h.pieces (row ∷ rest)));
              all_there =
                  append-nil (flatten (h.pieces ++ (row ∷ rest) ∷ []))
                  ∙ flatten-append h.pieces (row ∷ rest)
                  ∙ h.all_there;
              charged = charged;
            },
            refl,
          )

      -- One row more in memory, with or without a charge.
      one_more :
          (taken : List R) (row : R) (st : SortState R) (n : ℕ) (heap : Heap)
          → Holds taken st
          → Charged before self n heap
          → Holds
              (taken ++ row ∷ [])
              (record { rows = st.rows ++ row ∷ []; reserved = n; runs = st.runs; heap = heap })
      one_more taken row st n heap h charged = record {
        pieces = h.pieces;
        runs_sorted = h.runs_sorted;
        all_there =
            sym (append_assoc (flatten h.pieces) st.rows (row ∷ []))
            ∙ ap (λ l. l ++ row ∷ []) h.all_there;
        charged = charged;
      }

      hold_or_spill-Holds :
          (taken : List R) (row : R) (st : SortState R)
          → Holds taken st
          → (st' : SortState R) × (hold_or_spill compare read_back size self row st ≡ ok st')
            × Holds (taken ++ row ∷ []) st'
      unfolding hold_or_spill
      hold_or_spill-Holds taken row st h =
          elim (Granted-of st.heap st.reserved (size row) h.charged) [
            | inl (heap', granted, charged) ↦ (
              hold compare read_back size self row st heap',
              rw granted refl,
              one_more taken row st (st.reserved + size row) heap' h charged,
            )
            | inr refused ↦
                let (st', spilled, h', emptied) =
                  spill_run-Holds (taken ++ row ∷ []) (st.rows ++ row ∷ []) st.reserved st.runs
                    st.heap (one_more taken row st st.reserved st.heap h h.charged) in
                (st', rw refused spilled, h')
          ]

      take_row-Holds :
          (taken : List R) (row : R) (st : SortState R)
          → Holds taken st
          → (st' : SortState R) × (take_row compare read_back size self row st ≡ ok st')
            × Holds (taken ++ row ∷ []) st'
      unfolding take_row
      take_row-Holds taken row st h = elim (Granted-of st.heap st.reserved (size row) h.charged) [
        | inl (heap', granted, charged) ↦ (
          hold compare read_back size self row st heap',
          rw granted refl,
          one_more taken row st (st.reserved + size row) heap' h charged,
        )
        | inr refused ↦
            let (st', spilled, h', emptied) =
              spill_run-Holds taken st.rows st.reserved st.runs st.heap h in
            let (st'', held, h'') = hold_or_spill-Holds taken row st' h' in
            (st'', rw (refused, spilled) held, h'')
      ]

      take_rows-Holds :
          (taken rows : List R) (st : SortState R)
          → Holds taken st
          → (st' : SortState R) × (take_rows compare read_back size self rows st ≡ ok st')
            × Holds (taken ++ rows) st'
      unfolding take_rows
      take_rows-Holds taken [] st h = (st, refl, subst (λ l. Holds l st) (sym (append-nil taken)) h)
      take_rows-Holds taken (row ∷ rows) st h =
          let (st', done, h') = take_row-Holds taken row st h in
          let (st'', done', h'') = take_rows-Holds (taken ++ row ∷ []) rows st' h' in
          (st'', rw done done', subst (λ l. Holds l st'') (append_assoc taken (row ∷ []) rows) h'')

      Finished : List R → Result MemoryError (List R × Heap) → Type 0
      Finished taken answer =
          (heap : Heap) × (answer ≡ ok (sorted_rows compare taken, heap))
          × Charged before self 0 heap

      merged :
          (pieces : List (List R)) (runs : List (List R)) (taken : List R)
          → runs ≡ map (sorted_rows compare) pieces
          → flatten pieces ≡ taken
          → merge_runs compare runs ≡ sorted_rows compare taken
      merged pieces runs taken e f =
          ap (merge_runs compare) e
          ∙ merge_runs-sorted_rows compare order pieces
          ∙ ap (sorted_rows compare) f

      no_pieces :
          (pieces : List (List R)) → [] ≡ map (sorted_rows compare) pieces → flatten pieces ≡ []
      no_pieces [] e = refl
      no_pieces (p ∷ pieces) e = cc

      finish_sort-Finished :
          (taken : List R) (rows : List R) (reserved : ℕ) (runs : List (List R)) (heap : Heap)
          → Holds taken (record { rows = rows; reserved = reserved; runs = runs; heap = heap })
          → Finished taken (
              finish_sort compare read_back size self
                (record { rows = rows; reserved = reserved; runs = runs; heap = heap }))
      unfolding finish_sort Finished
      finish_sort-Finished taken rows reserved [] heap h =
          let (heap', done, charged) = give_back-Charged reserved heap h.charged in
          (
            heap',
            rw done (
                ap (λ l. ok (sorted_rows compare l, heap'))
                  (ap (λ l. l ++ rows) (sym (no_pieces h.pieces h.runs_sorted)) ∙ h.all_there)),
            charged,
          )
      finish_sort-Finished taken rows reserved (run ∷ runs) heap h =
          let (st', spilled, h', emptied) =
            spill_run-Holds taken rows reserved (run ∷ runs) heap h in
          let (heap', done, charged) = give_back-Charged st'.reserved st'.heap h'.charged in
          let all_there =
            sym (append-nil (flatten h'.pieces))
            ∙ ap (λ l. flatten h'.pieces ++ l) (sym emptied)
            ∙ h'.all_there in
          (
            heap',
            rw (spilled, done)
                (ap (λ l. ok (l, heap'))
                  (merged h'.pieces st'.runs taken h'.runs_sorted all_there)),
            charged,
          )

      -- In a heap whose accounts are younger than their parents, where the account's balance is not
      -- negative, where files give back the rows written to them and the comparison is a weak order:
      -- however often memory runs out, the external sort succeeds, gives the rows as one stable sort
      -- of all of them does, and leaves every account with as many bytes in use as before.
      pub external_sorted_rows_lem :
          (rows : List R)
          → (heap : Heap) × (external_sorted_rows compare read_back size self rows before
              ≡ ok (sorted_rows compare rows, heap))
            × ((a : ℕ) → current_of heap a ≡ current_of before a)
      unfolding external_sorted_rows Finished
      external_sorted_rows_lem rows =
          let (st, taken, h) =
            take_rows-Holds [] rows (record { rows = []; reserved = 0; runs = []; heap = before })
              (record {
                pieces = [];
                runs_sorted = refl;
                all_there = refl;
                charged = Charged-refl before self tree;
              }) in
          let (heap, done, charged) =
            finish_sort-Finished rows st.rows st.reserved st.runs st.heap h in
          (heap, rw taken done, Charged-zero before self tree charged)
