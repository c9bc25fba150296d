-- ===== src/Operators/Sorting/Merge.antt =====
-- Merging sorted runs gives what sorting all of the rows at once gives.
use Prim.Native.Nat.{Ordering}
use distributed_sql.Prelude.{
  ◌≡◌, refl, ap, ◌∙◌, true, false, List, [], ◌∷◌, ◌++◌, map, flatten, Bool-cases, arith, inl, inr,
}
use distributed_sql.Operators.Sorting.{is_less, insert_row, sorted_rows, merge_two, merge_runs}

-- The comparison is a weak order: what is less than a row is less than every row that the row does
-- not exceed.
pub record IsWeakOrder {R : Type 0} (compare : R → R → Ordering) : Type 0 where
  pub trans_less :
      (a b c : R)
      → is_less (compare a b) ≡ true
      → is_less (compare b c) ≡ true
      → is_less (compare a c) ≡ true
  pub less_of_not_above :
      (a b c : R)
      → is_less (compare a b) ≡ true
      → is_less (compare c b) ≡ false
      → is_less (compare a c) ≡ true

module _ {R : Type 0} (compare : R → R → Ordering) where
  merge_nil : (s : List R) → merge_two compare s [] ≡ s
  unfolding merge_two
  merge_nil [] = refl
  merge_nil (x ∷ s) = refl

  module _ (order : IsWeakOrder compare) where
    merge_two-insert_row :
        (x : R) (s t : List R)
        → merge_two compare (insert_row compare x s) t
          ≡ insert_row compare x (merge_two compare s t)
    unfolding merge_two insert_row
    merge_two-insert_row x [] [] = refl
    merge_two-insert_row x [] (y ∷ t) = elim (Bool-cases (is_less (compare y x))) [
      | inl below ↦ rw below (ap (λ l. y ∷ l) (merge_two-insert_row x [] t))
      | inr above ↦ rw above refl
    ]
    merge_two-insert_row x (a ∷ s) [] = merge_nil (insert_row compare x (a ∷ s))
    merge_two-insert_row x (a ∷ s) (y ∷ t) = elim (Bool-cases (is_less (compare a x))) [
      | inl first ↦ elim (Bool-cases (is_less (compare y a))) [
        | inl below ↦
            let under = order.trans_less y a x below first in
            let ih = merge_two-insert_row x (a ∷ s) t in ground arith
        | inr above ↦ let ih = merge_two-insert_row x s (y ∷ t) in ground arith
      ]
      | inr first ↦ elim (Bool-cases (is_less (compare y x))) [
        | inl below ↦
            let under = order.less_of_not_above y x a below first in
            let ih = merge_two-insert_row x (a ∷ s) t in ground arith
        | inr above ↦ ground arith
      ]
    ]

    pub merge_two-sorted_rows :
        (xs ys : List R)
        → merge_two compare (sorted_rows compare xs) (sorted_rows compare ys)
          ≡ sorted_rows compare (xs ++ ys)
    unfolding sorted_rows
    merge_two-sorted_rows [] ys = unfold merge_two in refl
    merge_two-sorted_rows (x ∷ xs) ys =
        merge_two-insert_row x (sorted_rows compare xs) (sorted_rows compare ys)
        ∙ ap (insert_row compare x) (merge_two-sorted_rows xs ys)

    -- However rows are cut into runs: merging the sorted runs gives the rows sorted at once.
    pub merge_runs-sorted_rows :
        (runs : List (List R))
        → merge_runs compare (map (sorted_rows compare) runs) ≡ sorted_rows compare (flatten runs)
    unfolding merge_runs
    merge_runs-sorted_rows [] = unfold sorted_rows in refl
    merge_runs-sorted_rows (xs ∷ runs) =
        ap (merge_two compare (sorted_rows compare xs)) (merge_runs-sorted_rows runs)
        ∙ merge_two-sorted_rows xs (flatten runs)
