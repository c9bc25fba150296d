-- ===== src/Coordinator/Queries/Paging.antt =====
-- The pages of a result.
use distributed_sql.Prelude.{
  ℕ, zero, suc, ◌+◌, ◌-◌, ◌≤◌, min, ◌≡◌, refl, sym, ap, ◌∙◌, true, false, none, some, List, [], ◌∷◌,
  ◌++◌, append-nil, length, take, drop, length-take, length-drop, ltb, Result, ok, ◌>>=◌,
  Bool-cases, arith, inl, inr,
}
use distributed_sql.Common.Errors.{DistributedSqlError}
use distributed_sql.Coordinator.Queries.{QueryRecord, QueryResultPage, results_of, is_succeeded}

sum_suc : (m n : ℕ) → suc m + n ≡ suc (m + n)
sum_suc m n = omega arith

module _ {A : Type 0} where
  take_all : (n : ℕ) (xs : List A) → length xs ≤ n → take n xs ≡ xs
  take_all zero [] h = refl
  take_all zero (x ∷ xs) h = absurd (omega arith)
  take_all (suc n) [] h = refl
  take_all (suc n) (x ∷ xs) h = ap (λ l. x ∷ l) (take_all n xs (omega arith))

  take-drop : (n : ℕ) (xs : List A) → take n xs ++ drop n xs ≡ xs
  take-drop zero xs = refl
  take-drop (suc n) [] = refl
  take-drop (suc n) (x ∷ xs) = ap (λ l. x ∷ l) (take-drop n xs)

  drop_nothing : (n : ℕ) → drop {A = A} n [] ≡ []
  drop_nothing zero = refl
  drop_nothing (suc n) = refl

  drop-add : (m n : ℕ) (xs : List A) → drop (m + n) xs ≡ drop n (drop m xs)
  drop-add zero n xs = ap (λ k. drop k xs) (omega arith)
  drop-add (suc m) n [] = drop_nothing (suc m + n) ∙ sym (drop_nothing n)
  drop-add (suc m) n (x ∷ xs) = ap (λ k. drop k (x ∷ xs)) (sum_suc m n) ∙ drop-add m n xs

abbrev page_rows :
    {Plan Row Diagnostics Advice : Type 0} → QueryResultPage Plan Row Diagnostics Advice → List Row
page_rows page = page.rows

module _ {Plan Row Diagnostics Advice : Type 0} (r : QueryRecord Plan Row Diagnostics Advice) where
  -- A client that asks for the first page and then for each next offset that a page names.
  unfoldable pub read_on : ℕ → ℕ → ℕ → Result DistributedSqlError (List Row)
  read_on limit zero offset = ok []
  read_on limit (suc fuel) offset = do
    page ← results_of r offset limit
    later ← (elim page.next_offset [ none ↦ ok [] | some further ↦ read_on limit fuel further ])
    ok (page_rows page ++ later)

  module _ (all_rows : List Row) (limit : ℕ) (there : r.rows ≡ some all_rows)
      (over : is_succeeded r.query.state ≡ true) (some_limit : 1 ≤ limit) where
    page_stops :
        (fuel offset : ℕ)
        → ltb (offset + length (take limit (drop offset all_rows))) (length all_rows) ≡ false
        → read_on limit (suc fuel) offset ≡ ok (take limit (drop offset all_rows))
    unfolding read_on results_of
    page_stops fuel offset last =
        rw (there, over, last) (ap ok (append-nil (take limit (drop offset all_rows))))

    page_goes_on :
        (fuel offset : ℕ) {later : List Row}
        → ltb (offset + length (take limit (drop offset all_rows))) (length all_rows) ≡ true
        → read_on limit fuel (offset + length (take limit (drop offset all_rows))) ≡ ok later
        → read_on limit (suc fuel) offset ≡ ok (take limit (drop offset all_rows) ++ later)
    unfolding read_on results_of
    page_goes_on fuel offset more rest = rw (there, over, more, rest) refl

    page_size :
        (offset : ℕ)
        → length (take limit (drop offset all_rows)) ≡ min limit (length all_rows - offset)
    page_size offset =
        length-take limit (drop offset all_rows) ∙ ap (min limit) (length-drop offset all_rows)

    last_page :
        (offset : ℕ)
        → ltb (offset + length (take limit (drop offset all_rows))) (length all_rows) ≡ false
        → take limit (drop offset all_rows) ≡ drop offset all_rows
    last_page offset last =
        take_all limit (drop offset all_rows)
          (let n = length-drop offset all_rows in let k = page_size offset in ground arith)

    full_page :
        (offset : ℕ)
        → ltb (offset + length (take limit (drop offset all_rows))) (length all_rows) ≡ true
        → length (take limit (drop offset all_rows)) ≡ limit
    full_page offset more = let k = page_size offset in ground arith

    next_page :
        (fuel offset : ℕ)
        → ltb (offset + length (take limit (drop offset all_rows))) (length all_rows) ≡ true
        → read_on limit fuel (offset + length (take limit (drop offset all_rows)))
          ≡ ok (drop (offset + length (take limit (drop offset all_rows))) all_rows)
        → read_on limit (suc fuel) offset ≡ ok (drop offset all_rows)
    next_page fuel offset more rest =
        page_goes_on fuel offset more rest
        ∙ ap ok (
            ap (λ n. take limit (drop offset all_rows) ++ drop (offset + n) all_rows)
              (full_page offset more)
            ∙ ap (λ l. take limit (drop offset all_rows) ++ l) (drop-add offset limit all_rows)
            ∙ take-drop limit (drop offset all_rows))

    read_on-drop :
        (fuel offset : ℕ)
        → length all_rows ≤ offset + fuel
        → read_on limit (suc fuel) offset ≡ ok (drop offset all_rows)
    read_on-drop zero offset enough =
        page_stops zero offset (ground arith) ∙ ap ok (last_page offset (ground arith))
    read_on-drop (suc fuel) offset enough =
        elim (Bool-cases
          (ltb (offset + length (take limit (drop offset all_rows))) (length all_rows))) [
            | inl more ↦ next_page (suc fuel) offset more (
                read_on-drop fuel (offset + length (take limit (drop offset all_rows)))
                  (let k = full_page offset more in omega arith))
            | inr last ↦ page_stops (suc fuel) offset last ∙ ap ok (last_page offset last)
          ]

    -- For a query that has succeeded with rows, and pages of at least one row: whoever asks for the
    -- first page, and then for each next offset that a page names, reads exactly the rows, once and
    -- in their order, in at most one page more than there are rows.
    pub read_on-rows : read_on limit (suc (length all_rows)) 0 ≡ ok all_rows
    read_on-rows = read_on-drop (length all_rows) 0 (omega arith)
