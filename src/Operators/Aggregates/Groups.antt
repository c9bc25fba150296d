-- ===== src/Operators/Aggregates/Groups.antt =====
-- The groups are the rows of each key, and grouping sorted rows gives what grouping in a table gives.
use distributed_sql.Prelude.{
  ◌≡◌, refl, sym, ap, ◌∙◌, Bool, true, false, Option, none, some, List, [], ◌∷◌, keep, Bool-cases,
  inl, inr, Result, ok, err, ◌>>=◌, Result-cases, >>=-eq-ok, ok-injective, if◌then◌else◌,
}
use distributed_sql.Planner.Types.{Raised}
use distributed_sql.Operators.Aggregates.{add_to_group, hash_groups}
use distributed_sql.Operators.Joins.Reference.{IsKeyEquality}

module _ {R K S : Type 0} (same : K → K → Bool) (new : S) (add : S → R → Result Raised S) where
  abbrev pub state_of : K → List (K × S) → Option S
  state_of key [] = none
  state_of key ((at, states) ∷ groups) = if same at key then some states else state_of key groups

  abbrev or_new : Option S → S
  or_new none = new
  or_new (some states) = states

  -- The aggregate of some rows, if there are any.
  abbrev pub aggregate_of : Option S → List R → Result Raised (Option S)
  aggregate_of found [] = ok found
  aggregate_of found (row ∷ rows) = do
    states ← add (or_new found) row
    aggregate_of (some states) rows

  abbrev has_key : K → Result Raised K → Bool
  has_key key (ok k) = same k key
  has_key key (err e) = false

  abbrev pub rows_of : (R → Result Raised K) → K → List R → List R
  rows_of key_of key rows = keep (λ row. has_key key (key_of row)) rows

  module _ (equality : IsKeyEquality same) where
    abbrev one_more : Option S → R → Result Raised (Option S)
    one_more found row = do states ← add (or_new found) row; ok (some states)

    state_of-add_to_group_same :
        (k key : K) (row : R) (groups : List (K × S))
        → same k key ≡ true
        → (add_to_group same new add k row groups >>= λ after. ok (state_of key after))
          ≡ one_more (state_of key groups) row
    unfolding add_to_group
    state_of-add_to_group_same k key row [] h = elim (Result-cases (add new row)) [
      | inl (states, added) ↦ rw (added, h) refl
      | inr (e, raised) ↦ rw raised refl
    ]
    state_of-add_to_group_same k key row ((at, states) ∷ groups) h =
        let later = state_of-add_to_group_same k key row groups h in
        let here : same at key ≡ same at k =
          equality.symmetric at key
          ∙ sym (equality.transitive k key at h)
          ∙ equality.symmetric k at in
        elim (Bool-cases (same at k)) [
          | inl found ↦ elim (Result-cases (add states row)) [
            | inl (states', added) ↦ rw (here ∙ found, found, added, here ∙ found) refl
            | inr (e, raised) ↦ rw (here ∙ found, found, raised) refl
          ]
          | inr missed ↦ elim (Result-cases (add_to_group same new add k row groups)) [
            | inl (after, added) ↦
                rw (here ∙ missed, missed, added, here ∙ missed) (rw added at later)
            | inr (e, raised) ↦ rw (here ∙ missed, missed, raised) (rw raised at later)
          ]
        ]

    state_of-add_to_group_other :
        (k key : K) (row : R) (groups : List (K × S)) {after : List (K × S)}
        → same k key ≡ false
        → add_to_group same new add k row groups ≡ ok after
        → state_of key after ≡ state_of key groups
    unfolding add_to_group
    state_of-add_to_group_other k key row [] h e =
        let (states, added, done) = >>=-eq-ok (add new row) _ e in
        ap (state_of key) (sym (ok-injective done)) ∙ rw h refl
    state_of-add_to_group_other k key row ((at, states) ∷ groups) h e =
        elim (Bool-cases (same at k)) [
          | inl found ↦
              let (states', added, done) = >>=-eq-ok (add states row) _ (rw found at e) in
              let here = equality.transitive at k key found ∙ h in
              ap (state_of key) (sym (ok-injective done)) ∙ rw here refl
          | inr missed ↦
              let (rest, added, done) =
                >>=-eq-ok (add_to_group same new add k row groups) _ (rw missed at e) in
              let later = state_of-add_to_group_other k key row groups h added in
              ap (state_of key) (sym (ok-injective done))
              ∙ ap (λ o. if same at key then some states else o) later
        ]

    hash_groups-from :
        (key_of : R → Result Raised K) (key : K) (rows : List R) (groups : List (K × S))
        {after : List (K × S)}
        → hash_groups same new add key_of rows groups ≡ ok after
        → aggregate_of (state_of key groups) (rows_of key_of key rows) ≡ ok (state_of key after)
    unfolding hash_groups
    hash_groups-from key_of key [] groups e = ap (λ g. ok (state_of key g)) (ok-injective e)
    hash_groups-from key_of key (row ∷ rows) groups e =
        let (k, keyed, e') = >>=-eq-ok (key_of row) _ e in
        let (groups', added, e'') = >>=-eq-ok (add_to_group same new add k row groups) _ e' in
        let later = hash_groups-from key_of key rows groups' e'' in
        elim (Bool-cases (same k key)) [
          | inl mine ↦
              let one = rw added at (state_of-add_to_group_same k key row groups mine) in
              let (states, counted, s) =
                >>=-eq-ok (add (or_new (state_of key groups)) row) _ (sym one) in
              rw (keyed, mine, counted)
                (ap (λ o. aggregate_of o (rows_of key_of key rows)) (ok-injective s) ∙ later)
          | inr other ↦
              let kept = state_of-add_to_group_other k key row groups other added in
              rw (keyed, other)
                (ap (λ o. aggregate_of o (rows_of key_of key rows)) (sym kept) ∙ later)
        ]

    -- Where equality of keys is an equivalence, and the loop over rows from an empty table does not
    -- raise: what the table holds for
    -- any key is the aggregate of the rows with that key, in their order, and nothing where there
    -- is no such row.
    pub hash_groups-aggregate_of :
        (key_of : R → Result Raised K) (key : K) (rows : List R) {groups : List (K × S)}
        → hash_groups same new add key_of rows [] ≡ ok groups
        → aggregate_of none (rows_of key_of key rows) ≡ ok (state_of key groups)
    hash_groups-aggregate_of key_of key rows e = hash_groups-from key_of key rows [] e
