-- ===== src/Operators/Joins/Table.antt =====
-- The hash table gives for a key the indices of the build rows whose key it equals, in their order.
use mathlib.Core.Option.{some-injective}
use distributed_sql.Prelude.{
  ℕ, zero, suc, ◌+◌, ◌<◌, ◌≡◌, refl, sym, ap, ◌∙◌, Bool, true, false, Option, none, some, List, [],
  ◌∷◌, ◌++◌, get_elem?, append_assoc, append-nil, Bool-cases, if◌then◌else◌, arith, inl, inr,
}
use distributed_sql.Operators.Joins.{elem, add_index, indices_of, enter, build_table, matches_of}
use distributed_sql.Operators.Joins.Reference.{IsKeyEquality, has_key, keys_match}

-- The indices of the rows that pass, from an index on.
abbrev pub places : {R : Type 0} → (R → Bool) → ℕ → List R → List ℕ
places p index [] = []
places p index (row ∷ rows) =
    if p row then index ∷ places p (suc index) rows else places p (suc index) rows

elem_after :
    (b : Bool) (k index : ℕ) (rest : List ℕ)
    → index < k
    → elem k (if b then index ∷ rest else rest) ≡ elem k rest
elem_after true k index rest h = ground arith
elem_after false k index rest h = refl

module _ {R : Type 0} (p : R → Bool) where
  -- No place is before the first one.
  elem-places_before :
      (i index : ℕ) (rows : List R) → i < index → elem i (places p index rows) ≡ false
  elem-places_before i index [] h = refl
  elem-places_before i index (row ∷ rows) h =
      let later = elem-places_before i (suc index) rows (omega arith) in ground arith

  pub elem-places :
      (i index : ℕ) (rows : List R) {row : R}
      → get_elem? rows i ≡ some row
      → elem (index + i) (places p index rows) ≡ p row
  elem-places i index [] h = cc
  elem-places zero index (x ∷ rows) h =
      let later = elem-places_before index (suc index) rows (omega arith) in
      (let here : elem (index + 0) (places p index (x ∷ rows)) ≡ p x = ground arith in here)
      ∙ ap p (some-injective _ _ h)
  elem-places (suc i) index (x ∷ rows) h =
      let later = elem-places i (suc index) rows h in
      let moved : index + suc i ≡ suc index + i = omega arith in
      elem_after (p x) (index + suc i) index (places p (suc index) rows) (omega arith)
      ∙ ap (λ k. elem k (places p (suc index) rows)) moved
      ∙ later

module _ {K : Type 0} (same : K → K → Bool) (equality : IsKeyEquality same) where
  indices_of-add_index :
      (asked key : K) (index : ℕ) (table : List (K × List ℕ))
      → indices_of same asked (add_index same key index table)
        ≡ indices_of same asked table ++ (if same key asked then index ∷ [] else [])
  unfolding indices_of add_index
  indices_of-add_index asked key index [] = refl
  indices_of-add_index asked key index ((at, indices) ∷ table) =
      let later = indices_of-add_index asked key index table in
      let transitive = equality.transitive at key asked in
      let other = equality.transitive at asked key in
      let turned = equality.symmetric asked key in
      elim (Bool-cases (same at key)) [
        | inl found ↦ rw found (elim (Bool-cases (same at asked)) [
          | inl e ↦ rw (e, sym (transitive found) ∙ e) refl
          | inr e ↦
              rw (e, sym (transitive found) ∙ e) (sym (append-nil (indices_of same asked table)))
        ])
        | inr missed ↦ rw missed (elim (Bool-cases (same at asked)) [
          | inl e ↦ rw (e, sym turned ∙ sym (other e) ∙ missed) (sym (append-nil indices))
          | inr e ↦ rw e later
        ])
      ]

  either_list :
      (b : Bool) (i : ℕ) (xs ys : List ℕ)
      → xs ++ ((if b then i ∷ [] else []) ++ ys) ≡ xs ++ (if b then i ∷ ys else ys)
  either_list true i xs ys = refl
  either_list false i xs ys = refl

  entered :
      (asked : K) (index : ℕ) (more : List ℕ) (table : List (K × List ℕ)) (key : Option K)
      → indices_of same asked (enter same key index table) ++ more
        ≡ indices_of same asked table ++ (if has_key same key asked then index ∷ more else more)
  unfolding enter
  entered asked index more table none = refl
  entered asked index more table (some key) =
      ap (λ l. l ++ more) (indices_of-add_index asked key index table)
      ∙ append_assoc (indices_of same asked table) (if same key asked then index ∷ [] else []) more
      ∙ either_list (same key asked) index (indices_of same asked table) more

  no_places : {R : Type 0} (rows : List R) (index : ℕ) → places (λ row. false) index rows ≡ []
  no_places [] index = refl
  no_places (row ∷ rows) index = no_places rows (suc index)

  module _ {R : Type 0} (key_of : R → Option K) where
    indices_of-build_table :
        (asked : K) (index : ℕ) (rows : List R) (table : List (K × List ℕ))
        → indices_of same asked (build_table same key_of index rows table)
          ≡ indices_of same asked table
            ++ places (λ row. has_key same (key_of row) asked) index rows
    unfolding build_table
    indices_of-build_table asked index [] table = sym (append-nil (indices_of same asked table))
    indices_of-build_table asked index (row ∷ rows) table =
        indices_of-build_table asked (suc index) rows (enter same (key_of row) index table)
        ∙ entered asked index (places (λ r. has_key same (key_of r) asked) (suc index) rows) table
            (key_of row)

    -- The table gives the places of the rows whose key is the one that is asked for.
    pub matches_of-build_table :
        (asked : Option K) (rows : List R)
        → matches_of same asked (build_table same key_of 0 rows [])
          ≡ places (λ row. keys_match same (key_of row) asked) 0 rows
    unfolding matches_of indices_of
    matches_of-build_table none rows = sym (no_places rows 0)
    matches_of-build_table (some key) rows = indices_of-build_table key 0 rows []
