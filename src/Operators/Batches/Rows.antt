-- ===== src/Operators/Batches/Rows.antt =====
-- What the batches of an operator hold, taken together, and how large each of them is.
use mathlib.Core.Path.{ap₂}
use distributed_sql.Prelude.{
  ℕ, zero, suc, ◌-◌, ◌≤◌, ◌<◌, ◌==◌, ◌≡◌, refl, sym, ap, ◌∙◌, subst, List, [], ◌∷◌, ◌++◌, map,
  flatten, map-append, length-map, take-drop, flatten-append, length, take, drop, length-take,
  length-drop, length-append, All, ltb, append_assoc, append-nil, Result, ok, err, ◌>>=◌,
  Result-cases, ok-injective, Bool-cases, arith, inl, inr,
}
use distributed_sql.Planner.Types.{Raised}
use distributed_sql.Planner.Values.{Python, is_true}
use distributed_sql.Planner.Expressions.{Expression}
use distributed_sql.Planner.Evaluate.{Row, evaluate}
use distributed_sql.Operators.Batches.{
  slices, batches_from_rows, order_batches, limit_batches, filter_rows, filter_batches,
}

module _ {R : Type 0} where
  -- A batch that is yielded is not empty and not too large.
  abbrev pub IsSized : ℕ → List R → Type 0
  IsSized batch_size batch = (1 ≤ length batch) × (length batch ≤ batch_size)

module _ {R : Type 0} (fit : R → R) (batch_size : ℕ) (some_size : 1 ≤ batch_size) where
  slices-rows :
      (fuel : ℕ) (rows : List R)
      → length rows ≤ fuel
      → flatten (slices fit fuel batch_size rows) ≡ map fit rows
  unfolding slices
  slices-rows zero [] h = refl
  slices-rows zero (row ∷ rows) h = absurd (omega arith)
  slices-rows (suc fuel) [] h = refl
  slices-rows (suc fuel) (row ∷ rows) h =
      ap (λ l. map fit (take batch_size (row ∷ rows)) ++ l)
        (slices-rows fuel (drop batch_size (row ∷ rows))
          (omega (arith, length-drop batch_size (row ∷ rows))))
      ∙ sym (map-append fit (take batch_size (row ∷ rows)) (drop batch_size (row ∷ rows)))
      ∙ ap (map fit) (take-drop batch_size (row ∷ rows))

  slices-IsSized :
      (fuel : ℕ) (rows : List R) → All (IsSized batch_size) (slices fit fuel batch_size rows)
  unfolding slices
  slices-IsSized zero rows = tt
  slices-IsSized (suc fuel) [] = tt
  slices-IsSized (suc fuel) (row ∷ rows) = (
    (let e = length-map fit (take batch_size (row ∷ rows)) in
        let n = length-take batch_size (row ∷ rows) in omega arith),
    slices-IsSized fuel (drop batch_size (row ∷ rows)),
  )

  -- Cutting rows into batches of a positive size loses, doubles and moves no row, and no batch is
  -- empty or larger than the size.
  pub batches_from_rows_lem :
      (rows : List R)
      → (flatten (batches_from_rows fit batch_size rows) ≡ map fit rows)
        × All (IsSized batch_size) (batches_from_rows fit batch_size rows)
  unfolding batches_from_rows
  batches_from_rows_lem rows =
      (slices-rows (length rows) rows (omega arith), slices-IsSized (length rows) rows)

  order_loop :
      (output_rows rows : List R)
      → length output_rows < batch_size
      → (flatten (order_batches fit batch_size output_rows rows) ≡ map fit (output_rows ++ rows))
        × All (IsSized batch_size) (order_batches fit batch_size output_rows rows)
  unfolding order_batches
  order_loop output_rows [] h =
      let (rows_are, sized) = batches_from_rows_lem output_rows in
      (rows_are ∙ ap (map fit) (sym (append-nil output_rows)), sized)
  order_loop output_rows (row ∷ rows) h =
      let gathered = output_rows ++ row ∷ [] in
      let moved = append_assoc output_rows (row ∷ []) rows in
      let n = length-append output_rows (row ∷ []) in
      let m = length-map fit gathered in
      elim (Bool-cases (ltb (length gathered) batch_size)) [
        | inl small ↦
            let (rows_are, sized) = order_loop gathered rows (ground arith) in
            rw small (rows_are ∙ ap (map fit) moved, sized)
        | inr full ↦
            let (rows_are, sized) = order_loop [] rows (omega arith) in
            rw full (
              ap (λ l. map fit gathered ++ l) rows_are
                  ∙ sym (map-append fit gathered rows)
                  ∙ ap (map fit) moved,
              ((omega arith, ground arith), sized),
            )
      ]

  -- The batches of the order operator hold the sorted rows, and are sized likewise.
  pub order_batches_lem :
      (rows : List R)
      → (flatten (order_batches fit batch_size [] rows) ≡ map fit rows)
        × All (IsSized batch_size) (order_batches fit batch_size [] rows)
  order_batches_lem rows = order_loop [] rows (omega arith)

module _ {R : Type 0} where
  take-append :
      (n : ℕ) (xs ys : List R) → take n xs ++ take (n - length (take n xs)) ys ≡ take n (xs ++ ys)
  take-append zero xs ys = refl
  take-append (suc n) [] ys =
      subst (λ k. take k ys ≡ take (suc n) ys) (let same : suc n ≡ suc n - 0 = omega arith in same)
        refl
  take-append (suc n) (x ∷ xs) ys =
      let fewer : suc n - suc (length (take n xs)) ≡ n - length (take n xs) = omega arith in
      ap (λ l. x ∷ l) (ap (λ k. take n xs ++ take k ys) fewer ∙ take-append n xs ys)

  no_rows : (xs : List R) → length xs ≡ 0 → xs ≡ []
  no_rows [] h = refl
  no_rows (x ∷ xs) h = absurd (omega arith)

  -- The limit operator passes on the first rows of what it reads, as many as it may, wherever its
  -- input is cut into batches; it yields no empty batch.
  pub flatten-limit_batches :
      (n : ℕ) (batches : List (List R))
      → (flatten (limit_batches n batches) ≡ take n (flatten batches))
        × All (λ batch. 1 ≤ length batch) (limit_batches n batches)
  unfolding limit_batches
  flatten-limit_batches zero batches = (refl, tt)
  flatten-limit_batches (suc n) [] = (refl, tt)
  flatten-limit_batches (suc n) (batch ∷ batches) =
      let output = take (suc n) batch in
      let (same, some_rows) = flatten-limit_batches (suc n - length output) batches in
      let whole = take-append (suc n) batch (flatten batches) in
      elim (Bool-cases (length output == 0)) [
        | inl nothing ↦ rw nothing (
          same
              ∙ ap (λ l. l ++ take (suc n - length output) (flatten batches))
                  (sym (no_rows output (ground arith)))
              ∙ whole,
          some_rows,
        )
        | inr something ↦
            rw something (ap (λ l. output ++ l) same ∙ whole, (ground arith, some_rows))
      ]

module _ {R : Type 0} (fit : R → R) where
  -- One batch more on both sides.
  joined :
      (first : List (List R)) (rows : List R) (m : Result Raised (List (List R)))
      (n : Result Raised (List R))
      → flatten first ≡ map fit rows
      → (m >>= λ output. ok (flatten output)) ≡ (n >>= λ more. ok (map fit more))
      → (m >>= (λ later. ok (first ++ later)) >>= λ output. ok (flatten output))
        ≡ (n >>= (λ more. ok (rows ++ more)) >>= λ all. ok (map fit all))
  joined first rows (ok output) (ok more) h e =
      ap ok (
        flatten-append first output
        ∙ ap₂ (◌++◌) h (ok-injective e)
        ∙ sym (map-append fit rows more))
  joined first rows (ok output) (err f) h e = cc
  joined first rows (err f) (ok more) h e = cc
  joined first rows (err f) (err g) h e = cc

module _ {O : Type 0} (py : Python O) (fit : Row O → Row O) where
  filter_rows-append :
      (predicate : Expression O) (xs ys : List (Row O))
      → filter_rows py fit predicate (xs ++ ys) ≡ (do
        kept ← filter_rows py fit predicate xs
        more ← filter_rows py fit predicate ys
        ok (kept ++ more))
  unfolding filter_rows
  filter_rows-append predicate [] ys = elim (Result-cases (filter_rows py fit predicate ys)) [
    | inl (more, found) ↦ rw found refl
    | inr (e, raised) ↦ rw raised refl
  ]
  filter_rows-append predicate (x ∷ xs) ys = elim (Result-cases (evaluate py predicate x)) [
    | inr (e, raised) ↦ rw raised refl
    | inl (value, found) ↦ elim (Result-cases (filter_rows py fit predicate xs)) [
      | inr (e, raised) ↦ rw (found, filter_rows-append predicate xs ys, raised) refl
      | inl (kept, found') ↦ elim (Result-cases (filter_rows py fit predicate ys)) [
        | inr (e, raised) ↦ rw (found, filter_rows-append predicate xs ys, found', raised) refl
        | inl (more, found'') ↦ elim (Bool-cases (is_true value)) [
          | inl holds ↦ rw (found, filter_rows-append predicate xs ys, found', found'', holds) refl
          | inr fails ↦ rw (found, filter_rows-append predicate xs ys, found', found'', fails) refl
        ]
      ]
    ]
  ]

  module _ (batch_size : ℕ) (some_size : 1 ≤ batch_size) where
    -- However its input is cut into batches, the filter operator passes on the rows for which the
    -- predicate is True, in their order, or raises what the predicate raises.
    pub filter_batches-filter_rows :
        (predicate : Expression O) (batches : List (List (Row O)))
        → (do output ← filter_batches py fit batch_size predicate batches; ok (flatten output))
          ≡ (do rows ← filter_rows py fit predicate (flatten batches); ok (map fit rows))
    unfolding filter_batches filter_rows
    filter_batches-filter_rows predicate [] = refl
    filter_batches-filter_rows predicate (batch ∷ batches) =
        let later = filter_batches-filter_rows predicate batches in
        elim (Result-cases (filter_rows py fit predicate batch)) [
          | inr (e, raised) ↦ rw (filter_rows-append predicate batch (flatten batches), raised) refl
          | inl (rows, found) ↦
              let (rows_are, sized) = batches_from_rows_lem fit batch_size some_size rows in
              rw (filter_rows-append predicate batch (flatten batches), found)
                (joined fit (batches_from_rows fit batch_size rows) rows
                  (filter_batches py fit batch_size predicate batches)
                  (filter_rows py fit predicate (flatten batches)) rows_are later)
        ]
