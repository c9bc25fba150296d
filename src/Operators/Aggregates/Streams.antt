-- ===== src/Operators/Aggregates/Streams.antt =====
-- Grouping sorted rows one group after the other gives what grouping in a table gives.
use distributed_sql.Prelude.{
  ◌≡◌, refl, sym, ap, ◌∙◌, subst, Bool, true, false, none, some, List, [], ◌∷◌, ◌++◌, map,
  map-append, All, append_assoc, append-nil, ◌⊎◌, inl, inr, Result, ok, err, ◌>>=◌, Result-cases,
}
use distributed_sql.Planner.Types.{Raised}
use distributed_sql.Operators.Aggregates.{add_to_group, hash_groups, sort_groups}
use distributed_sql.Operators.Joins.Reference.{IsKeyEquality}

module _ {R K S : Type 0} (same : K → K → Bool) (new : S) (add : S → R → Result Raised S) where
  abbrev keys_of : List (K × S) → List K
  keys_of groups = map (λ group. group.0) groups

  abbrev pub IsNew : K → List K → Type 0
  IsNew key seen = All (λ k. same k key ≡ false) seen

  -- A group that comes before those that could take the row is left alone.
  add_to_group-append :
      (key : K) (row : R) (groups later : List (K × S))
      → IsNew key (keys_of groups)
      → add_to_group same new add key row (groups ++ later)
        ≡ (do rest ← add_to_group same new add key row later; ok (groups ++ rest))
  unfolding add_to_group
  add_to_group-append key row [] later h =
      elim (Result-cases (add_to_group same new add key row later)) [
        | inl (rest, done) ↦ rw done refl
        | inr (e, raised) ↦ rw raised refl
      ]
  add_to_group-append key row ((at, states) ∷ groups) later (first, h) =
      let rest = add_to_group-append key row groups later h in
      rw first (elim (Result-cases (add_to_group same new add key row later)) [
        | inl (rest', done) ↦ rw (rest, done) refl
        | inr (e, raised) ↦ rw (rest, raised) refl
      ])

  add_to_group-new :
      (key : K) (row : R) (groups : List (K × S))
      → IsNew key (keys_of groups)
      → add_to_group same new add key row groups
        ≡ (do fresh ← add new row; ok (groups ++ (key, fresh) ∷ []))
  unfolding add_to_group
  add_to_group-new key row groups h =
      ap (add_to_group same new add key row) (sym (append-nil groups))
      ∙ add_to_group-append key row groups [] h
      ∙ (elim (Result-cases (add new row)) [
        | inl (states, done) ↦ rw done refl
        | inr (e, raised) ↦ rw raised refl
      ])

  add_to_group-last :
      (key current : K) (row : R) (groups : List (K × S)) (states : S)
      → IsNew key (keys_of groups)
      → same current key ≡ true
      → add_to_group same new add key row (groups ++ (current, states) ∷ [])
        ≡ (do states' ← add states row; ok (groups ++ (current, states') ∷ []))
  unfolding add_to_group
  add_to_group-last key current row groups states h e =
      add_to_group-append key row groups ((current, states) ∷ []) h
      ∙ rw e (elim (Result-cases (add states row)) [
        | inl (states', done) ↦ rw done refl
        | inr (e', raised) ↦ rw raised refl
      ])

  module _ (equality : IsKeyEquality same) (key_of : R → Result Raised K) where
    -- After groups with some keys, and with a current key: a row has the current key or one that is
    -- new, so the rows of each key stand together.
    abbrev pub Together : List K → K → List R → Type 0
    Together seen current [] = Unit
    Together seen current (row ∷ rows) =
        (key : K)
        → key_of row ≡ ok key
        → (same key current ≡ true) × Together seen current rows
          ⊎ IsNew key (seen ++ current ∷ []) × Together (seen ++ current ∷ []) key rows

    IsNew-same :
        (key current : K) (seen : List K)
        → same key current ≡ true
        → IsNew current seen
        → IsNew key seen
    IsNew-same key current [] e h = tt
    IsNew-same key current (k ∷ seen) e (first, h) = (
      equality.symmetric k key
          ∙ equality.transitive key current k e
          ∙ equality.symmetric current k
          ∙ first,
      IsNew-same key current seen e h,
    )

    IsNew-last :
        (key current : K) (seen : List K)
        → IsNew key (seen ++ current ∷ [])
        → same current key ≡ false
    IsNew-last key current [] (h, _) = h
    IsNew-last key current (k ∷ seen) (_, h) = IsNew-last key current seen h

    keep_all : (m : Result Raised (List (K × S))) → (m >>= λ rest. ok ([] ++ rest)) ≡ m
    keep_all (ok rest) = refl
    keep_all (err e) = refl

    tail :
        (groups : List (K × S)) (current : K) (states : S) (m : Result Raised (List (K × S)))
        → (m >>= λ rest. ok ((groups ++ (current, states) ∷ []) ++ rest))
          ≡ (m >>= (λ rest. ok ((current, states) ∷ rest)) >>= λ rest. ok (groups ++ rest))
    tail groups current states (ok rest) = ap ok (append_assoc groups ((current, states) ∷ []) rest)
    tail groups current states (err e) = refl

    stream :
        (rows : List R) (groups : List (K × S)) (current : K) (states : S)
        → IsNew current (keys_of groups)
        → Together (keys_of groups) current rows
        → hash_groups same new add key_of rows (groups ++ (current, states) ∷ []) ≡ (do
          rest ← sort_groups same new add key_of rows (some (current, states))
          ok (groups ++ rest))
    unfolding hash_groups sort_groups
    stream [] groups current states fresh together = refl
    stream (row ∷ rows) groups current states fresh together = elim (Result-cases (key_of row)) [
      | inr (e, raised) ↦ rw raised refl
      | inl (key, keyed) ↦ elim (together key keyed) [
        | inl (peer, together') ↦
            let fresh' = IsNew-same key current (keys_of groups) peer fresh in
            let first =
              add_to_group-last key current row groups states fresh'
                (equality.symmetric current key ∙ peer) in
            elim (Result-cases (add states row)) [
              | inl (states', added) ↦
                  rw (keyed, peer, first, added)
                    (stream rows groups current states' fresh together')
              | inr (e, raised) ↦ rw (keyed, peer, first, raised) refl
            ]
        | inr (fresh', together') ↦
            let longer = groups ++ (current, states) ∷ [] in
            let keys : keys_of longer ≡ keys_of groups ++ current ∷ [] =
              map-append (λ (group : K × S). group.0) groups ((current, states) ∷ []) in
            let unlike =
              equality.symmetric key current ∙ IsNew-last key current (keys_of groups) fresh' in
            let fresh'' = subst (IsNew key) (sym keys) fresh' in
            let first = add_to_group-new key row longer fresh'' in
            elim (Result-cases (add new row)) [
              | inl (states', added) ↦
                  let later =
                    stream rows longer key states' fresh''
                      (subst (λ seen. Together seen key rows) (sym keys) together') in
                  rw (keyed, unlike, first, added)
                    (later
                      ∙ tail groups current states
                          (sort_groups same new add key_of rows (some (key, states'))))
              | inr (e, raised) ↦ rw (keyed, unlike, first, raised) refl
            ]
      ]
    ]

    -- The rows of each key stand together, from the first row on.
    abbrev pub AllTogether : List R → Type 0
    AllTogether [] = Unit
    AllTogether (row ∷ rows) = (key : K) → key_of row ≡ ok key → Together [] key rows

    -- Where equality of keys is an equivalence and the rows of each key stand together: grouping
    -- them with one group at a time gives the groups of the table, in the same order, or raises
    -- the same exception.
    pub sort_groups-hash_groups :
        (rows : List R)
        → AllTogether rows
        → sort_groups same new add key_of rows none ≡ hash_groups same new add key_of rows []
    unfolding hash_groups sort_groups add_to_group
    sort_groups-hash_groups [] together = refl
    sort_groups-hash_groups (row ∷ rows) together = elim (Result-cases (key_of row)) [
      | inr (e, raised) ↦ rw raised refl
      | inl (key, keyed) ↦ elim (Result-cases (add new row)) [
        | inr (e, raised) ↦ rw (keyed, raised) refl
        | inl (states, added) ↦
            rw (keyed, added)
              (sym (
                stream rows [] key states tt (together key keyed)
                ∙ keep_all (sort_groups same new add key_of rows (some (key, states)))))
      ]
    ]
